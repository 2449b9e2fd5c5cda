-- ===== src/Memory/Pmm/Free.antt =====
-- kernel/memory/pmm.c: `pmm_free_page`.
use mathlib.Core.Option.{some-injective}
use rucix_kernel.Common.{
  ℕ, suc, ◌+◌, ◌*◌, ◌/◌, ◌<◌, ◌≡◌, sym, ◌∙◌, ap, subst, inl, inr, Option, some, true, false, ◌&&◌,
  not, arith, ◌==◌,
}
use rucix_kernel.Memory.Pmm.{Pmm, page_size, clear_page_bit, alloc_page_fuel, free_page, test_bit}
use rucix_kernel.Memory.Pmm.Bits.{used, used-clear_page_bit, clear_page_bit-IsBytes}
use rucix_kernel.Memory.Pmm.Count.{
  count_free, count_free-mark, count_free-le, count_free-congr, IsValid,
}
use rucix_kernel.Memory.Pmm.Alloc.{Takes, AllocResult, alloc_page-AllocResult}

-- Page `b` goes from used to free, and nothing else changes but the accounting.
pub record Returns (p : Pmm) (b : ℕ) (q : Pmm) : Type 0 where
  pub clears : (j : ℕ) → used q j ≡ (not (b == j) && used p j)
  pub memory : q.free_memory ≡ p.free_memory + page_size
  pub valid : IsValid q

module _ (p : Pmm) (addr b : ℕ) (page : addr / page_size ≡ b) (lt : b < p.total_pages) where
  free_page_clears :
      (v : IsValid p) (j : ℕ) → used (free_page addr p) j ≡ (not (b == j) && used p j)
  unfolding free_page clear_page_bit test_bit
  free_page_clears v j = ground (arith, used-clear_page_bit p (addr / page_size) j v.bytes)

  free_page_total : (free_page addr p).total_pages ≡ p.total_pages
  unfolding free_page clear_page_bit
  free_page_total = ground arith

  free_page_count :
      (v : IsValid p)
      → used p b ≡ true
      → count_free (used (free_page addr p)) p.total_pages ≡ suc (count_free (used p) p.total_pages)
  free_page_count v full =
      count_free-mark (used (free_page addr p)) (used p) b
        (λ j. ground (arith, free_page_clears v j)) p.total_pages
        (ground (arith, free_page_clears v b)) lt

  free_page_memory :
      (v : IsValid p) → used p b ≡ true → (free_page addr p).free_memory ≡ p.free_memory + page_size
  unfolding free_page clear_page_bit
  free_page_memory v full =
      ground (arith, v.accounted, v.capped, count_free-le (used p) p.total_pages)

  -- `pmm_free_page` of a page in use clears its bit and no other, adds one page to `free_memory`,
  -- and keeps the invariant.
  pub free_page-Returns : IsValid p → 0 < b → used p b ≡ true → Returns p b (free_page addr p)
  unfolding free_page clear_page_bit
  free_page-Returns v pos full = record {
    clears = free_page_clears v;
    memory = free_page_memory v full;
    valid = record {
      bytes = λ i. ground (arith, v.bytes i, clear_page_bit-IsBytes p (addr / page_size) v.bytes i);
      capped = ground (arith, v.capped);
      has_pages = ground (arith, v.has_pages);
      hint_in = ground (arith, v.hint_in);
      zero_used = ground (arith, free_page_clears v 0, v.zero_used);
      accounted = ground (arith, free_page_memory v full, free_page_count v full, v.accounted);
    };
  }

  double_free_count :
      (v : IsValid p)
      → used p b ≡ false
      → count_free (used (free_page addr p)) p.total_pages ≡ count_free (used p) p.total_pages
  double_free_count v free =
      count_free-congr (used (free_page addr p)) (used p)
        (λ j. ground (arith, free_page_clears v j)) p.total_pages

  double_free_memory : (v : IsValid p) → (free_page addr p).free_memory ≡ p.free_memory + page_size
  unfolding free_page clear_page_bit
  double_free_memory v = ground (arith, v.accounted, v.capped, count_free-le (used p) p.total_pages)

  -- Freeing a page that is free already breaks the accounting: `free_memory` then names more
  -- memory than there are free pages. The source does not test the bit.
  pub free_page_double : IsValid p → used p b ≡ false → ¬ IsValid (free_page addr p)
  free_page_double v free w = omega (
    arith,
    w.accounted,
    ap (count_free (used (free_page addr p))) free_page_total,
    v.accounted,
    double_free_memory v,
    double_free_count v free,
  )

free-Takes :
    (p q : Pmm) (b : ℕ)
    → Takes p b q
    → IsValid q
    → let r = free_page (b * page_size) q in
      ((j : ℕ) → used r j ≡ used p j) × (r.free_memory ≡ p.free_memory) × IsValid r
free-Takes p q b t v = (
  λ j. ground (arith, back.clears j, t.marks j, t.was_free),
  omega (arith, back.memory, t.memory),
  back.valid,
)
  where
    back : Returns q b (free_page (b * page_size) q)
    back =
        free_page-Returns q (b * page_size) b (omega arith)
          (omega (arith, t.same_total, t.in_range)) v t.in_range.0 (ground (arith, t.marks b))

-- When `pmm_alloc_page` on a valid allocator returns an address, `pmm_free_page` of that address in
-- the state that it leaves restores the marks of all pages and `free_memory`, and leaves a valid
-- allocator.
pub free_page-alloc_page :
    (p q : Pmm) (fuel addr : ℕ)
    → IsValid p
    → alloc_page_fuel (suc fuel) p ≡ some (some addr, q)
    → let r = free_page addr q in
      ((j : ℕ) → used r j ≡ used p j) × (r.free_memory ≡ p.free_memory) × IsValid r
unfolding AllocResult
free_page-alloc_page p q fuel addr v e = elim (alloc_page-AllocResult p fuel v) [
  | inr (none_left, all) ↦ ground arith
  | inl (b, q', found, takes, valid) ↦
      let same : ◌≡◌ {A = Option ℕ × Pmm} (some (b * page_size), q') (some addr, q) =
        some-injective (some (b * page_size), q') (some addr, q) (sym found ∙ e) in
      let at : b * page_size ≡ addr =
        some-injective (b * page_size) addr (ap (λ (x : Option ℕ × Pmm). x.0) same) in
      let restored = free-Takes p q' b takes valid in
      subst
        (λ (x : ℕ × Pmm).
          let r = free_page x.0 x.1 in
          ((j : ℕ) → used r j ≡ used p j) × (r.free_memory ≡ p.free_memory) × IsValid r)
        (λ i. (at i, (same i).1)) restored
]
