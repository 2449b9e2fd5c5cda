-- ===== src/Memory/Pmm/Runs.antt =====
-- kernel/memory/pmm.c: `pmm_alloc_pages`, a run of consecutive pages.
use rucix_kernel.Common.{
  ℕ, zero, suc, ◌+◌, ◌-◌, ◌^◌, ◌≤◌, ◌<◌, ◌≡◌, ap, sym, subst, leb→le, true, false, arith, ◌==◌,
  Bool-cases, inl, inr, Option, some, none, ◌⊎◌, leb, ltb, Option-cases,
}
use rucix_kernel.Common.Words.{sub_u64}
use rucix_kernel.Memory.Pmm.{Pmm, find_set, scan_run}
use rucix_kernel.Memory.Pmm.Bits.{used}

-- The `count` pages from `i` on are free.
abbrev pub RunFree : Pmm → ℕ → ℕ → Type 0
RunFree p i count = (j : ℕ) → j < count → used p (i + j) ≡ false

find_set-some :
    (p : Pmm) (i rounds j k : ℕ)
    → find_set p i rounds j ≡ some k
    → (j ≤ k) × (k < j + rounds) × (used p (i + k) ≡ true)
unfolding find_set
find_set-some p i zero j k h = ground arith
find_set-some p i (suc rounds) j k h = ground (arith, find_set-some p i rounds (j + 1) k)

find_set-none :
    (p : Pmm) (i rounds j : ℕ)
    → find_set p i rounds j ≡ none
    → (k : ℕ) → j ≤ k
    → k < j + rounds
    → used p (i + k) ≡ false
unfolding find_set
find_set-none p i zero j h k lo hi = absurd (omega arith)
find_set-none p i (suc rounds) j h k lo hi = elim (Bool-cases (j == k)) [
  | inl e ↦ ground arith
  | inr ne ↦ find_set-none p i rounds (j + 1) (ground arith) k (ground arith) (omega arith)
]

-- No run of `count` free pages begins below `i`.
abbrev pub NoRunBelow : Pmm → ℕ → ℕ → Type 0
NoRunBelow p count i = (k : ℕ) → k < i → ¬ RunFree p k count

-- A page in use at `i + j` lies in every run that begins at `i`, …, `i + j`.
skip_used :
    (p : Pmm) (count i j : ℕ)
    → NoRunBelow p count i
    → j < count
    → used p (i + j) ≡ true
    → NoRunBelow p count (i + j + 1)
skip_used p count i j below lt full k hk run = elim (Bool-cases (ltb k i)) [
  | inl old ↦ below k (ground arith) run
  | inr new ↦
      let inside : k + (i + j - k) ≡ i + j = ground arith in
      ground (arith, inside, run (i + j - k), full, ap (used p) inside)
]

-- The scan's outcome: the first run of free pages, or none before the last place for one.
unfoldable pub Scanned : Pmm → ℕ → Option (Option ℕ) → Type 0
Scanned p count r =
    ((i : ℕ) × (r ≡ some (some i))
      × (i + count ≤ p.total_pages)
      × RunFree p i count
      × NoRunBelow p count i)
    ⊎ ((r ≡ some none) × NoRunBelow p count (p.total_pages - count + 1))

scan_again :
    (p : Pmm) (count fuel i j : ℕ)
    → p.total_pages ≤ 2 ^ 20
    → count ≤ p.total_pages
    → leb i (sub_u64 p.total_pages count) ≡ true
    → find_set p i count 0 ≡ some j
    → j < count
    → scan_run (suc fuel) p count i ≡ scan_run fuel p count (i + j + 1)
unfolding scan_run
scan_again p count fuel i j capped fits within e lt =
    rw (within, e) (ap (scan_run fuel p count) (omega (arith, leb→le i _ within)))

pub scan_run-Scanned :
    (p : Pmm) (count fuel i : ℕ)
    → p.total_pages ≤ 2 ^ 20
    → 0 < count
    → count ≤ p.total_pages
    → p.total_pages + 1 < i + fuel
    → i ≤ p.total_pages + 1
    → NoRunBelow p count i
    → Scanned p count (scan_run fuel p count i)
unfolding scan_run Scanned
scan_run-Scanned p count zero i capped pos fits fuel hi below = absurd (omega arith)
scan_run-Scanned p count (suc fuel) i capped pos fits enough hi below =
    elim (Bool-cases (leb i (sub_u64 p.total_pages count))) [
      | inr past ↦ inr (rw past, λ k hk run. below k (ground arith) run)
      | inl within ↦ elim (Option-cases (find_set p i count 0)) [
        | inl clear ↦ inl (
          i,
          ground arith,
          ground arith,
          (λ k hk. find_set-none p i count 0 clear k (omega arith) (omega arith)),
          below,
        )
        | inr (j, e) ↦
            let hit = find_set-some p i count 0 j e in
            subst (Scanned p count)
              (sym (scan_again p count fuel i j capped fits within e (omega (arith, hit))))
              (scan_run-Scanned p count fuel (i + j + 1) capped pos fits (omega arith)
                (omega (arith, hit, leb→le i _ within))
                (skip_used p count i j below (omega (arith, hit)) hit.2))
      ]
    ]
