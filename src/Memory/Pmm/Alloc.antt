-- ===== src/Memory/Pmm/Alloc.antt =====
-- kernel/memory/pmm.c: `pmm_find_first_free` and `pmm_alloc_page`.
use rucix_kernel.Common.{
  ℕ, zero, suc, ◌+◌, ◌-◌, ◌*◌, ◌≤◌, ◌<◌, ◌≡◌, refl, ap, true, false, ◌||◌, arith, ◌==◌, Bool-cases,
  inl, inr, Option, some, none, ◌⊎◌, leb, Option-cases,
}
use rucix_kernel.Memory.Pmm.{
  Pmm, page_size, set_bit, find_clear, find_first_free, take_page, alloc_page_fuel, test_bit,
}
use rucix_kernel.Memory.Pmm.Bits.{used, used-set_bit, set_bit-IsBytes}
use rucix_kernel.Memory.Pmm.Count.{count_free, count_free-mark, count_free-le, IsValid}

-- All pages from `lo` up to `hi` are in use.
abbrev pub AllUsed : Pmm → ℕ → ℕ → Type 0
AllUsed p lo hi = (j : ℕ) → lo ≤ j → j < hi → used p j ≡ true

find_clear-some :
    (p : Pmm) (rounds i b : ℕ)
    → find_clear p rounds i ≡ some b
    → (i ≤ b) × (b < i + rounds) × (used p b ≡ false)
unfolding find_clear
find_clear-some p zero i b h = ground arith
find_clear-some p (suc rounds) i b h = ground (arith, find_clear-some p rounds (i + 1) b)

find_clear-none : (p : Pmm) (rounds i : ℕ) → find_clear p rounds i ≡ none → AllUsed p i (i + rounds)
unfolding find_clear
find_clear-none p zero i h j lo hi = absurd (omega arith)
find_clear-none p (suc rounds) i h j lo hi = elim (Bool-cases (i == j)) [
  | inl e ↦ ground arith
  | inr ne ↦ find_clear-none p rounds (i + 1) (ground arith) j (ground arith) (omega arith)
]

-- The search finds a free page of the machine, or there is none.
FirstFree : Pmm → Option ℕ × Pmm → Type 0
FirstFree p r =
    ((b : ℕ) × (r ≡ (some b, record p { last_free_index = b }))
      × (b < p.total_pages)
      × (used p b ≡ false))
    ⊎ ((r ≡ (none, p)) × AllUsed p 0 p.total_pages)

find_first_free-FirstFree :
    (p : Pmm) → p.last_free_index ≤ p.total_pages → FirstFree p (find_first_free p)
unfolding FirstFree find_first_free
find_first_free-FirstFree p hint = elim (Option-cases upper) [
  | inl e ↦ elim (Option-cases lower) [
    | inl e' ↦ inr (ground arith, all e e')
    | inr (b, e') ↦
        inl (
          b,
          ground arith,
          omega (arith, find_clear-some p _ 0 b e'),
          (find_clear-some p _ 0 b e').2,
        )
  ]
  | inr (b, e) ↦
      inl (b, ground arith, omega (arith, find_clear-some p _ _ b e), (find_clear-some p _ _ b e).2)
]
  where
    upper : Option ℕ
    upper = find_clear p (p.total_pages - p.last_free_index) p.last_free_index

    lower : Option ℕ
    lower = find_clear p p.last_free_index 0

    all : upper ≡ none → lower ≡ none → AllUsed p 0 p.total_pages
    all e e' j lo hi = elim (Bool-cases (leb p.last_free_index j)) [
      | inl above ↦ find_clear-none p _ _ e j (ground arith) (omega arith)
      | inr below ↦ find_clear-none p _ 0 e' j lo (ground arith)
    ]

-- Page `b` goes from free to used, and nothing else changes but the accounting.
pub record Takes (p : Pmm) (b : ℕ) (q : Pmm) : Type 0 where
  pub in_range : (0 < b) × (b < p.total_pages)
  pub was_free : used p b ≡ false
  pub marks : (j : ℕ) → used q j ≡ ((b == j) || used p j)
  pub same_total : q.total_pages ≡ p.total_pages
  pub memory : q.free_memory + page_size ≡ p.free_memory

module _ (p : Pmm) (b : ℕ) (v : IsValid p) (lt : b < p.total_pages) (free : used p b ≡ false) where
  abbrev taken : Pmm
  taken = (take_page b (record p { last_free_index = b })).1

  taken_marks : (j : ℕ) → used taken j ≡ ((b == j) || used p j)
  unfolding take_page set_bit test_bit
  taken_marks j = used-set_bit p b j v.bytes

  taken_count : count_free (used p) p.total_pages ≡ suc (count_free (used taken) p.total_pages)
  taken_count = count_free-mark (used p) (used taken) b taken_marks p.total_pages free lt

  taken_memory : taken.free_memory + page_size ≡ p.free_memory
  unfolding take_page set_bit
  taken_memory = omega (arith, v, taken_count, count_free-le (used p) p.total_pages)

  taken_addr : take_page b (record p { last_free_index = b }) ≡ (some (b * page_size), taken)
  unfolding take_page
  taken_addr = ap (λ a. (some a, taken)) (omega (arith, v))

  take_page-Takes : Takes p b taken
  unfolding take_page set_bit
  take_page-Takes = record {
    in_range = (ground (arith, v.zero_used), lt);
    was_free = free;
    marks = taken_marks;
    same_total = refl;
    memory = taken_memory;
  }

  take_page-IsValid : IsValid taken
  unfolding take_page set_bit
  take_page-IsValid = record {
    bytes = set_bit-IsBytes p b v.bytes;
    capped = v.capped;
    has_pages = v.has_pages;
    hint_in = omega arith;
    zero_used = ground (arith, taken_marks 0, v.zero_used);
    accounted = omega (arith, taken_count, taken_memory, v.accounted);
  }

-- What `pmm_alloc_page` promises: the address of a page that was free, or the null pointer and no
-- change when no page is.
unfoldable pub AllocResult : Pmm → Option (Option ℕ × Pmm) → Type 0
AllocResult p r =
    ((b : ℕ) × (q : Pmm) × (r ≡ some (some (b * page_size), q)) × Takes p b q × IsValid q)
    ⊎ ((r ≡ some (none, p)) × AllUsed p 0 p.total_pages)

alloc_found :
    (p : Pmm) (fuel b : ℕ)
    → IsValid p
    → find_first_free p ≡ (some b, record p { last_free_index = b })
    → b < p.total_pages
    → used p b ≡ false
    → AllocResult p (alloc_page_fuel (suc fuel) p)
unfolding AllocResult alloc_page_fuel
alloc_found p fuel zero v e lt free = ground (arith, v.zero_used)
alloc_found p fuel (suc n) v e lt free = inl (
  suc n,
  taken p (suc n) v lt free,
  ground (arith, taken_addr p (suc n) v lt free),
  take_page-Takes p (suc n) v lt free,
  take_page-IsValid p (suc n) v lt free,
)

-- `pmm_alloc_page` on a valid allocator returns the address of a free page other than page 0,
-- marks that page and no other, and takes one page off `free_memory`; it returns the null pointer
-- exactly when every page is in use. It calls itself at most once.
pub alloc_page-AllocResult :
    (p : Pmm) (fuel : ℕ) → IsValid p → AllocResult p (alloc_page_fuel (suc fuel) p)
unfolding AllocResult alloc_page_fuel FirstFree
alloc_page-AllocResult p fuel v = elim (find_first_free-FirstFree p v.hint_in) [
  | inl (b, e, lt, free) ↦ alloc_found p fuel b v e lt free
  | inr (e, all) ↦ inr (ground arith, all)
]
