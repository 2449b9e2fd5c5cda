-- ===== src/Radix/PageCache/Delete.antt =====
-- kernel/mm/page_cache.c: deleting a page.
use rucix_kernel.Common.{
  ℕ, ◌+◌, ◌-◌, ◌%◌, ◌^◌, ◌<◌, ◌≡◌, refl, sym, ◌∙◌, ap, subst, true, false, ◌&&◌, ◌==◌,
  if◌then◌else◌, Bool-cases, inl, inr, arith, ==_refl,
}
use rucix_kernel.Common.Int.{pred_ℤ}
use rucix_kernel.Common.Chain.{update}
use rucix_kernel.Radix.{null, is_null, radix_tree_lookup, radix_tree_delete}
use rucix_kernel.Radix.Extend.{IsValid}
use rucix_kernel.Radix.Remove.{delete-lookup}
use rucix_kernel.Radix.PageCache.{
  AddressSpace, Cache, set_space, put_page, removed, delete_from_page_cache,
}
use rucix_kernel.Radix.PageCache.Knows.{
  cached, IsCache, take-Knows, place-cached, set_space-IsValid,
}

-- The fields of the pages after a page has left its place.
module _ (c : Cache) (p q : ℕ) where
  left_mapping : ((delete_from_page_cache p c).pages q).mapping ≡ (
      if (c.pages p).mapping == 0
      then (c.pages q).mapping
      else if p == q
      then 0
      else (c.pages q).mapping)
  unfolding delete_from_page_cache put_page removed update
  left_mapping = elim (Bool-cases ((c.pages p).mapping == 0)) [
    | inl z ↦ rw z refl
    | inr z ↦ elim (Bool-cases (p == q)) [
      | inl e ↦ rw (z, e, ==_refl p) refl
      | inr e ↦ rw (z, e) refl
    ]
  ]

  left_index : ((delete_from_page_cache p c).pages q).index ≡ (c.pages q).index
  unfolding delete_from_page_cache put_page removed update
  left_index = elim (Bool-cases ((c.pages p).mapping == 0)) [
    | inl z ↦ rw z refl
    | inr z ↦ elim (Bool-cases (p == q)) [
      | inl e ↦
          let same : p ≡ q = ground arith in rw (z, e, ==_refl p) (ap (λ k. (c.pages k).index) same)
      | inr e ↦ rw (z, e) refl
    ]
  ]

  left_count : ((delete_from_page_cache p c).pages q).count ≡ (
      if (c.pages p).mapping == 0
      then (c.pages q).count
      else if p == q
      then pred_ℤ (c.pages q).count
      else (c.pages q).count)
  unfolding delete_from_page_cache put_page removed update
  left_count = elim (Bool-cases ((c.pages p).mapping == 0)) [
    | inl z ↦ rw z refl
    | inr z ↦ elim (Bool-cases (p == q)) [
      | inl e ↦
          let same : p ≡ q = ground arith in
          rw (z, e, ==_refl p) (ap (λ k. pred_ℤ (c.pages k).count) same)
      | inr e ↦ rw (z, e) refl
    ]
  ]

-- The trees after a page has left its place.
abbrev left_pages : Cache → ℕ → ℕ
left_pages c p =
    let a = (c.pages p).mapping in
    let d = radix_tree_delete (c.spaces a).page_tree (c.pages p).index in
    if is_null d.0 then (c.spaces a).nrpages else ((c.spaces a).nrpages + (2 ^ 64 - 1)) % 2 ^ 64

abbrev emptied : Cache → ℕ → Cache
emptied c p =
    let a = (c.pages p).mapping in
    let d = radix_tree_delete (c.spaces a).page_tree (c.pages p).index in
    set_space a (record { page_tree = d.1; nrpages = left_pages c p }) c

left_spaces :
    (c : Cache) (p : ℕ)
    → 0 < (c.pages p).mapping
    → (delete_from_page_cache p c).spaces ≡ (emptied c p).spaces
unfolding delete_from_page_cache put_page removed
left_spaces c p pos = let z : ((c.pages p).mapping == 0) ≡ false = ground arith in rw z refl

-- `delete_from_page_cache` of a page in a mapping takes the page away from its place and drops one
-- reference to it; no other place and no other count changes. Pages and places keep their agreement.
pub delete_from_page_cache-IsCache :
    (c : Cache) (p : ℕ)
    → IsCache c
    → 0 < (c.pages p).mapping
    → let c' = delete_from_page_cache p c in
      IsCache c'
      × ((a i : ℕ)
          → cached c' a i ≡ (
              if ((c.pages p).mapping == a) && (i == (c.pages p).index)
              then null
              else cached c a i))
      × ((c'.pages p).mapping ≡ 0)
      × ((q : ℕ)
          → (c'.pages q).count ≡ (if p == q then pred_ℤ (c.pages q).count else (c.pages q).count))
unfolding IsCache
delete_from_page_cache-IsCache c p (valid, knows) pos =
    let z : ((c.pages p).mapping == 0) ≡ false = ground arith in
    let c' = delete_from_page_cache p c in
    let a = (c.pages p).mapping in
    let i = (c.pages p).index in
    let (valid', it, gone) = delete-lookup (c.spaces a).page_tree i (valid a) in
    let d = radix_tree_delete (c.spaces a).page_tree i in
    let spaces = left_spaces c p pos in
    let places : (b j : ℕ) → cached c' b j ≡ (if (a == b) && (j == i) then null else cached c b j) =
      λ b j.
        ap (λ (f : ℕ → AddressSpace). radix_tree_lookup (f b).page_tree j) spaces
        ∙ place-cached c a i (left_pages c p) true null d.1 gone b j in
    (
      (
        λ b.
            subst (λ (f : ℕ → AddressSpace). IsValid (f b).page_tree) (sym spaces)
              (set_space-IsValid c a b (left_pages c p) d.1 valid' (valid b)),
        take-Knows (cached c) (cached c') (λ q. (c.pages q).mapping) (λ q. (c'.pages q).mapping)
            (λ q. (c.pages q).index) (λ q. (c'.pages q).index) knows p a i pos refl refl places
            (λ q. left_mapping c p q ∙ (rw z refl)) (λ q. left_index c p q),
      ),
      places,
      left_mapping c p p ∙ (rw (z, ==_refl p) refl),
      λ q. left_count c p q ∙ (rw z refl),
    )
