-- ===== src/Memory/Pmm/Bits.antt =====
-- kernel/memory/pmm.c: which pages the bitmap marks as in use.
use rucix_kernel.Common.{
  ℕ, ◌/◌, ◌%◌, ◌<◌, ◌≡◌, ◌≢◌, refl, Bool, false, ◌&&◌, ◌||◌, not, arith, ◌==◌, if◌then◌else◌,
}
use rucix_kernel.Common.Words.{
  or_bit, clear_bit, is_set, is_set-or_bit, is_set-clear_bit, or_bit-lt, clear_bit-lt,
}
use rucix_kernel.Memory.Pmm.{Pmm, set_bit, clear_page_bit, test_bit}

abbrev pub used : Pmm → ℕ → Bool
used p bit = not (test_bit p bit == 0)

-- The cells of the bitmap hold bytes.
abbrev pub IsBytes : Pmm → Type 0
IsBytes p = (i : ℕ) → p.bitmap i < 256

used-is_set : (p : Pmm) (j : ℕ) → used p j ≡ is_set (p.bitmap (j / 8)) (j % 8)
unfolding test_bit is_set
used-is_set p j = refl

same_bit : (b j : ℕ) → b / 8 ≡ j / 8 → (b % 8 == j % 8) ≡ (b == j)
same_bit b j h = ground arith

other_byte : (b j : ℕ) → b / 8 ≢ j / 8 → (b == j) ≡ false
other_byte b j h = ground arith

used-set_bit_at :
    (p : Pmm) (b j : ℕ)
    → used (set_bit b p) j
      ≡ is_set
          (if b / 8 == j / 8 then or_bit (p.bitmap (b / 8)) (b % 8) else p.bitmap (j / 8))
          (j % 8)
unfolding set_bit test_bit is_set
used-set_bit_at p b j = refl

used-clear_page_bit_at :
    (p : Pmm) (b j : ℕ)
    → used (clear_page_bit b p) j
      ≡ is_set
          (if b / 8 == j / 8 then clear_bit (p.bitmap (b / 8)) (b % 8) else p.bitmap (j / 8))
          (j % 8)
unfolding clear_page_bit test_bit is_set
used-clear_page_bit_at p b j = refl

module _ (p : Pmm) (b j : ℕ) (bytes : IsBytes p) where
  -- `pmm_set_bit` marks one page and leaves the others.
  pub used-set_bit : used (set_bit b p) j ≡ ((b == j) || used p j)
  used-set_bit = ground (
    arith,
    used-set_bit_at p b j,
    used-is_set p j,
    is_set-or_bit (p.bitmap (b / 8)) (b % 8) (j % 8) (bytes (b / 8)) (omega arith) (omega arith),
  )

  pub used-clear_page_bit : used (clear_page_bit b p) j ≡ (not (b == j) && used p j)
  used-clear_page_bit = ground (
    arith,
    used-clear_page_bit_at p b j,
    used-is_set p j,
    is_set-clear_bit (p.bitmap (b / 8)) (b % 8) (j % 8) (bytes (b / 8)) (omega arith) (omega arith),
  )

pub set_bit-IsBytes : (p : Pmm) (b : ℕ) → IsBytes p → IsBytes (set_bit b p)
unfolding set_bit
set_bit-IsBytes p b bytes i =
    ground (arith, bytes i, or_bit-lt (p.bitmap (b / 8)) (b % 8) (bytes (b / 8)) (omega arith))

pub clear_page_bit-IsBytes : (p : Pmm) (b : ℕ) → IsBytes p → IsBytes (clear_page_bit b p)
unfolding clear_page_bit
clear_page_bit-IsBytes p b bytes i =
    ground (arith, bytes i, clear_bit-lt (p.bitmap (b / 8)) (b % 8) (bytes (b / 8)) (omega arith))
