-- ===== src/Memory/Pmm/Count.antt =====
-- kernel/memory/pmm.c: the number of free pages, and the invariant that ties `free_memory` to it.
use rucix_kernel.Common.{
  ℕ, zero, suc, ◌+◌, ◌*◌, ◌^◌, ◌≤◌, ◌<◌, ◌≡◌, refl, Bool, true, false, ◌||◌, arith, ◌==◌,
  if◌then◌else◌, Bool-cases, inl, inr,
}
use rucix_kernel.Memory.Pmm.{Pmm, page_size}
use rucix_kernel.Memory.Pmm.Bits.{used, IsBytes}

-- how many of the first `n` pages are free
unfoldable pub count_free : (ℕ → Bool) → ℕ → ℕ
count_free u zero = 0
count_free u (suc n) = count_free u n + (if u n then 0 else 1)

module _ (u v : ℕ → Bool) (b : ℕ) (marked : (j : ℕ) → v j ≡ ((b == j) || u j)) where
  count_free-above : (n : ℕ) → n ≤ b → count_free v n ≡ count_free u n
  unfolding count_free
  count_free-above zero h = refl
  count_free-above (suc n) h = ground (arith, marked n, count_free-above n (omega arith))

  pub count_free-mark : (n : ℕ) → u b ≡ false → b < n → count_free u n ≡ suc (count_free v n)
  unfolding count_free
  count_free-mark zero free h = absurd (omega arith)
  count_free-mark (suc n) free h = elim (Bool-cases (b == n)) [
    | inl e ↦ ground (arith, marked n, count_free-above n (ground arith))
    | inr ne ↦ ground (arith, marked n, count_free-mark n free (ground arith))
  ]

pub count_free-le : (u : ℕ → Bool) (n : ℕ) → count_free u n ≤ n
unfolding count_free
count_free-le u zero = omega arith
count_free-le u (suc n) = ground (arith, count_free-le u n)

pub count_free-congr :
    (u v : ℕ → Bool) → ((j : ℕ) → u j ≡ v j) → (n : ℕ) → count_free u n ≡ count_free v n
unfolding count_free
count_free-congr u v same zero = refl
count_free-congr u v same (suc n) = ground (arith, same n, count_free-congr u v same n)

-- `pmm_init` caps the memory at 4 GB, reserves page 0, and counts the free pages.
pub record IsValid (p : Pmm) : Type 0 where
  pub bytes : IsBytes p
  pub capped : p.total_pages ≤ 2 ^ 20
  pub has_pages : 0 < p.total_pages
  pub hint_in : p.last_free_index ≤ p.total_pages
  pub zero_used : used p 0 ≡ true
  pub accounted : p.free_memory ≡ page_size * count_free (used p) p.total_pages
