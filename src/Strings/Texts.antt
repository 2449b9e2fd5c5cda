-- ===== src/Strings/Texts.antt =====
-- kernel/lib/string.c: strings against lists of bytes.
use rucix_kernel.Common.{ℕ, zero, suc, ◌+◌, ◌<◌, ◌≡◌, ◌⊎◌, List, [], ◌∷◌, ◌==◌, if◌then◌else◌}
use rucix_kernel.Common.Int.{ℤ, pos, negsuc, sub_ℕ}
use rucix_kernel.Strings.{Mem}

-- The string `l`, with a zero byte behind it, stands at `p`.
abbrev pub Text : Mem → ℕ → List ℕ → Type 0
Text mem p [] = mem p ≡ 0
Text mem p (c ∷ l) = (mem p ≡ c) × (0 < c) × Text mem (p + 1) l

-- The difference at the first place where two strings differ.
abbrev pub difference : List ℕ → List ℕ → ℤ
difference [] [] = pos 0
difference [] (b ∷ k) = sub_ℕ 0 b
difference (a ∷ l) [] = sub_ℕ a 0
difference (a ∷ l) (b ∷ k) = if a == b then difference l k else sub_ℕ a b

-- The order of dictionaries.
abbrev pub Before : List ℕ → List ℕ → Type 0
Before l [] = ⊥
Before [] (b ∷ k) = Unit {0}
Before (a ∷ l) (b ∷ k) = (a < b) ⊎ ((a ≡ b) × Before l k)

-- What the sign of a comparison's result says.
abbrev pub Sign : ℤ → List ℕ → List ℕ → Type 0
Sign r l k =
    ((r ≡ pos 0) × (l ≡ k))
    ⊎ ((n : ℕ) × (r ≡ pos (suc n)) × Before k l)
    ⊎ ((n : ℕ) × (r ≡ negsuc n) × Before l k)

-- A C string holds no zero byte.
abbrev pub Nonzero : List ℕ → Type 0
Nonzero [] = Unit {0}
Nonzero (c ∷ l) = (0 < c) × Nonzero l

-- The `n` bytes from `p` on.
abbrev pub block : Mem → ℕ → ℕ → List ℕ
block mem p zero = []
block mem p (suc n) = mem p ∷ block mem (p + 1) n
