-- ===== src/Radix/Digits.antt =====
-- kernel/lib/radix-tree.c: the digits of an index, to the base RADIX_TREE_MAP_SIZE.
use rucix_kernel.Common.{
  ℕ, zero, suc, ◌/◌, ◌%◌, ◌<◌, ◌≡◌, refl, ◌∙◌, Bool, true, ◌&&◌, ltb, ◌==◌, arith,
}
use rucix_kernel.Radix.{capacity, digit}

pub digit-lt : (h i : ℕ) → digit h i < 64
unfolding digit
digit-lt zero i = omega arith
digit-lt (suc h) i = digit-lt h (i / 64)

pub capacity-positive : (h : ℕ) → 0 < capacity h
unfolding capacity
capacity-positive zero = omega arith
capacity-positive (suc h) = omega (arith, capacity-positive h)

-- The top digit is zero for the indices of a tree one level lower.
pub digit-top : (h i : ℕ) → i < capacity (suc h) → (digit h i == 0) ≡ ltb i (capacity h)
unfolding digit capacity
digit-top zero i lt = ground arith
digit-top (suc h) i lt =
    let c = capacity-positive h in
    let rest : (digit h (i / 64) == 0) ≡ ltb (i / 64) (capacity h) =
      digit-top h (i / 64) (omega arith) in
    rest ∙ ground arith

-- Whether two indices take the same way down `h` levels.
unfoldable pub same : ℕ → ℕ → ℕ → Bool
same zero i j = true
same (suc h) i j = (digit h i == digit h j) && same h i j

same-low : (h i j : ℕ) → same (suc h) i j ≡ ((i % 64 == j % 64) && same h (i / 64) (j / 64))
unfolding same digit
same-low zero i j = refl
same-low (suc h) i j = ground (arith, same-low h i j)

pub same-eq : (h i j : ℕ) → i < capacity h → j < capacity h → same h i j ≡ (i == j)
unfolding capacity same
same-eq zero i j hi hj = ground arith
same-eq (suc h) i j hi hj =
    let rest : same h (i / 64) (j / 64) ≡ (i / 64 == j / 64) =
      same-eq h (i / 64) (j / 64) (omega arith) (omega arith) in
    same-low h i j ∙ ground arith
