-- ===== src/Memory/Pmm/AllocRun.antt =====
-- kernel/memory/pmm.c: `pmm_alloc_pages` marks the run that it found.
use rucix_kernel.Common.{
  ℕ, zero, suc, ◌+◌, ◌-◌, ◌*◌, ◌≤◌, ◌<◌, ◌≡◌, refl, ap, sym, ◌∙◌, Bool, false, ◌&&◌, ◌||◌, arith,
  inl, inr, Option, some, none, ◌⊎◌, leb, ltb,
}
use rucix_kernel.Memory.Pmm.{
  Pmm, page_size, set_bit, set_bits, take_pages, alloc_pages_fuel, test_bit,
}
use rucix_kernel.Memory.Pmm.Bits.{used, IsBytes, used-set_bit, set_bit-IsBytes}
use rucix_kernel.Memory.Pmm.Count.{count_free, count_free-mark, count_free-le, IsValid}
use rucix_kernel.Memory.Pmm.Runs.{RunFree, NoRunBelow, Scanned, scan_run-Scanned}

-- Page `k` is one of the `rounds` pages from `i + j` on.
abbrev pub in_run : ℕ → ℕ → ℕ → ℕ → Bool
in_run i j rounds k = leb (i + j) k && ltb k (i + j + rounds)

set_bits-IsBytes : (i rounds j : ℕ) (p : Pmm) → IsBytes p → IsBytes (set_bits i rounds j p)
unfolding set_bits
set_bits-IsBytes i zero j p bytes = bytes
set_bits-IsBytes i (suc rounds) j p bytes =
    set_bits-IsBytes i rounds (j + 1) (set_bit (i + j) p) (set_bit-IsBytes p (i + j) bytes)

used-set_bits :
    (i rounds j : ℕ) (p : Pmm)
    → IsBytes p
    → (k : ℕ) → used (set_bits i rounds j p) k ≡ (in_run i j rounds k || used p k)
unfolding set_bits
used-set_bits i zero j p bytes k = ground arith
used-set_bits i (suc rounds) j p bytes k = ground (
  arith,
  used-set_bits i rounds (j + 1) (set_bit (i + j) p) (set_bit-IsBytes p (i + j) bytes) k,
  used-set_bit p (i + j) k bytes,
)

count_free-set_bits :
    (i rounds j n : ℕ) (p : Pmm)
    → IsBytes p
    → ((k : ℕ) → j ≤ k → k < j + rounds → used p (i + k) ≡ false)
    → i + j + rounds ≤ n
    → count_free (used p) n ≡ count_free (used (set_bits i rounds j p)) n + rounds
unfolding set_bits
count_free-set_bits i zero j n p bytes free fits = omega arith
count_free-set_bits i (suc rounds) j n p bytes free fits = omega (
  arith,
  count_free-mark (used p) (used (set_bit (i + j) p)) (i + j) (λ k. used-set_bit p (i + j) k bytes)
      n (free j (omega arith) (omega arith)) (omega arith),
  count_free-set_bits i rounds (j + 1) n (set_bit (i + j) p) (set_bit-IsBytes p (i + j) bytes) later
      (omega arith),
)
  where
    later : (k : ℕ) → j + 1 ≤ k → k < j + 1 + rounds → used (set_bit (i + j) p) (i + k) ≡ false
    later k lo hi =
        ground (arith, used-set_bit p (i + j) (i + k) bytes, free k (omega arith) (omega arith))

-- The fields that `pmm_set_bit` leaves alone.
set_bits_rest :
    (i rounds j : ℕ) (p : Pmm)
    → let q = set_bits i rounds j p in
      (q.total_pages ≡ p.total_pages)
      × (q.free_memory ≡ p.free_memory)
      × (q.last_free_index ≡ p.last_free_index)
unfolding set_bits set_bit
set_bits_rest i zero j p = (refl, refl, refl)
set_bits_rest i (suc rounds) j p = set_bits_rest i rounds (j + 1) (set_bit (i + j) p)

-- The `count` pages from `i` on go from free to used, and nothing else changes but the accounting.
pub record TakesRun (p : Pmm) (i count : ℕ) (q : Pmm) : Type 0 where
  pub in_range : i + count ≤ p.total_pages
  pub was_free : RunFree p i count
  pub first : NoRunBelow p count i
  pub marks : (k : ℕ) → used q k ≡ (in_run i 0 count k || used p k)
  pub memory : q.free_memory + count * page_size ≡ p.free_memory
  pub valid : IsValid q

module _ (p : Pmm) (i count : ℕ) (v : IsValid p) (fits : i + count ≤ p.total_pages)
    (free : RunFree p i count) where
  abbrev run_taken : Pmm
  run_taken = (take_pages i count p).1

  run_marks : (k : ℕ) → used run_taken k ≡ (in_run i 0 count k || used p k)
  unfolding take_pages test_bit
  run_marks k = used-set_bits i count 0 p v.bytes k

  run_count : count_free (used p) p.total_pages ≡ count_free (used run_taken) p.total_pages + count
  unfolding take_pages test_bit
  run_count =
      count_free-set_bits i count 0 p.total_pages p v.bytes (λ k lo hi. free k (omega arith))
        (omega arith)

  run_memory : run_taken.free_memory + count * page_size ≡ p.free_memory
  unfolding take_pages
  run_memory =
      omega (arith, v, run_count, set_bits_rest i count 0 p, count_free-le (used p) p.total_pages)

  run_addr : take_pages i count p ≡ (some (i * page_size), run_taken)
  unfolding take_pages
  run_addr = ap (λ a. (some a, run_taken)) (omega (arith, v))

  run_total : run_taken.total_pages ≡ p.total_pages
  unfolding take_pages
  run_total = (set_bits_rest i count 0 p).0

  run_accounted : run_taken.free_memory ≡ page_size * count_free (used run_taken) p.total_pages
  run_accounted = omega (arith, run_memory, run_count, v.accounted)

  run_IsValid : IsValid run_taken
  unfolding take_pages
  run_IsValid = record {
    bytes = set_bits-IsBytes i count 0 p v.bytes;
    capped = omega (arith, v, set_bits_rest i count 0 p);
    has_pages = omega (arith, v, set_bits_rest i count 0 p);
    hint_in = omega (arith, v, set_bits_rest i count 0 p);
    zero_used = ground (arith, run_marks 0, v.zero_used);
    accounted = run_accounted ∙ ap (λ n. page_size * count_free (used run_taken) n) (sym run_total);
  }

-- What `pmm_alloc_pages` promises for a request of `count` pages.
pub AllocRun : Pmm → ℕ → Option (Option ℕ × Pmm) → Type 0
AllocRun p count r =
    ((i : ℕ) × (q : Pmm) × (r ≡ some (some (i * page_size), q)) × TakesRun p i count q)
    ⊎ ((r ≡ some (none, p)) × NoRunBelow p count (p.total_pages - count + 1))

-- `pmm_alloc_pages` on a valid allocator, for a request that is not 0 and not above the number of
-- pages: it finds the first run of `count` free pages, marks exactly those pages, takes their size
-- off `free_memory`, and keeps the invariant; it returns the null pointer exactly when there is no
-- such run. The scan ends: `total_pages + 2` rounds are enough.
pub alloc_pages-AllocRun :
    (p : Pmm) (count : ℕ)
    → IsValid p
    → 0 < count
    → count ≤ p.total_pages
    → AllocRun p count (alloc_pages_fuel (p.total_pages + 2) count p)
unfolding AllocRun alloc_pages_fuel Scanned
alloc_pages-AllocRun p count v pos fits =
    elim (scan_run-Scanned p count (p.total_pages + 2) 0 v.capped pos fits (omega arith)
      (omega arith) (λ k hk run. omega arith)) [
        | inl (i, e, inside, free, first) ↦ inl (
          i,
          run_taken p i count v inside free,
          ground (arith, run_addr p i count v inside free),
          record {
            in_range = inside;
            was_free = free;
            first = first;
            marks = run_marks p i count v inside free;
            memory = run_memory p i count v inside free;
            valid = run_IsValid p i count v inside free;
          },
        )
        | inr (e, empty) ↦ inr (ground arith, empty)
      ]
