-- ===== src/Common/Words.antt =====
-- Bytes and 64-bit words: wrap-around by `%`, and the bits of a byte.
use Prim.Native.Nat.{ℕ, zero, suc, ◌+◌, ◌-◌, ◌%◌, ◌^◌, ◌<◌, bit_and, bit_or}
use mathlib.Core.Path.{◌≡◌, refl}
use mathlib.Core.Logic.{inl, inr}
use mathlib.Core.Bool.{Bool, true, false, ◌&&◌, ◌||◌, not}
use native.Mathlib.Omega.{arith}
use rucix_kernel.Common.Tests.{ltb, ◌==◌, ltb→lt, if◌then◌else◌, Bool-cases}

abbrev pub u64 : ℕ → ℕ
u64 x = x % 2 ^ 64

-- `a - b` on `uint64_t`, for `a`, `b` in range
abbrev pub sub_u64 : ℕ → ℕ → ℕ
sub_u64 a b = (a + 2 ^ 64 - b) % 2 ^ 64

-- Whether a test holds of the numbers below `n`: it is evaluated at each of them.
unfoldable pub every : (ℕ → Bool) → ℕ → Bool
every test zero = true
every test (suc n) = if test n then every test n else false

pub every-at : (test : ℕ → Bool) (n k : ℕ) → k < n → every test n ≡ true → test k ≡ true
unfolding every
every-at test zero k lt e = elim lt [ ]
every-at test (suc n) k lt e = elim (Bool-cases (k == n)) [
  | inl last ↦ ground arith
  | inr other ↦ every-at test n k (ground arith) (ground arith)
]

-- `b & (1 << k)`, `b | (1 << k)` and `b & ~(1 << k)` on a byte
unfoldable pub and_bit : ℕ → ℕ → ℕ
and_bit b k = bit_and b (2 ^ k)

unfoldable pub or_bit : ℕ → ℕ → ℕ
or_bit b k = bit_or b (2 ^ k)

unfoldable pub clear_bit : ℕ → ℕ → ℕ
clear_bit b k = bit_and b (255 - 2 ^ k)

beq : Bool → Bool → Bool
beq true b = b
beq false b = not b

beq-eq : (a b : Bool) → beq a b ≡ true → a ≡ b
unfolding beq
beq-eq true true h = refl
beq-eq true false h = ground arith
beq-eq false true h = ground arith
beq-eq false false h = refl

unfoldable pub is_set : ℕ → ℕ → Bool
unfolding and_bit
is_set b k = not (and_bit b k == 0)

or_bit_row : ℕ → ℕ → ℕ → Bool
unfolding is_set or_bit beq
or_bit_row b k j = ltb (or_bit b k) 256 && beq (is_set (or_bit b k) j) ((k == j) || is_set b j)

clear_bit_row : ℕ → ℕ → ℕ → Bool
unfolding is_set clear_bit beq
clear_bit_row b k j =
    ltb (clear_bit b k) 256 && beq (is_set (clear_bit b k) j) (not (k == j) && is_set b j)

or_bit_table : every (λ b. every (λ k. every (λ j. or_bit_row b k j) 8) 8) 256 ≡ true
unfolding every or_bit_row
or_bit_table = refl

clear_bit_table : every (λ b. every (λ k. every (λ j. clear_bit_row b k j) 8) 8) 256 ≡ true
unfolding every clear_bit_row
clear_bit_table = refl

module _ (b k j : ℕ) (hb : b < 256) (hk : k < 8) (hj : j < 8) where
  or_bit_row-true : or_bit_row b k j ≡ true
  or_bit_row-true = every-at _ 8 j hj (every-at _ 8 k hk (every-at _ 256 b hb or_bit_table))

  clear_bit_row-true : clear_bit_row b k j ≡ true
  clear_bit_row-true = every-at _ 8 j hj (every-at _ 8 k hk (every-at _ 256 b hb clear_bit_table))

&&-true : (a b : Bool) → (a && b) ≡ true → (a ≡ true) × (b ≡ true)
&&-true true b h = (refl, h)
&&-true false b h = ground arith

module _ (b k j : ℕ) (hb : b < 256) (hk : k < 8) (hj : j < 8) where
  pub is_set-or_bit : is_set (or_bit b k) j ≡ ((k == j) || is_set b j)
  unfolding or_bit_row
  is_set-or_bit = let r = or_bit_row-true b k j hb hk hj in beq-eq _ _ (&&-true _ _ r).1

  pub is_set-clear_bit : is_set (clear_bit b k) j ≡ (not (k == j) && is_set b j)
  unfolding clear_bit_row
  is_set-clear_bit = let r = clear_bit_row-true b k j hb hk hj in beq-eq _ _ (&&-true _ _ r).1

module _ (b k : ℕ) (hb : b < 256) (hk : k < 8) where
  pub or_bit-lt : or_bit b k < 256
  unfolding or_bit_row
  or_bit-lt = ltb→lt _ _ (&&-true _ _ (or_bit_row-true b k 0 hb hk (omega arith))).0

  pub clear_bit-lt : clear_bit b k < 256
  unfolding clear_bit_row
  clear_bit-lt = ltb→lt _ _ (&&-true _ _ (clear_bit_row-true b k 0 hb hk (omega arith))).0
