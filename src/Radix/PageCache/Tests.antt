-- ===== src/Radix/PageCache/Tests.antt =====
-- The theorems on the page cache at concrete caches.
use rucix_kernel.Common.{
  ℕ, ◌≡◌, refl, inl, inr, arith, [], ◌∷◌, Bool, true, ◌&&◌, some, if◌then◌else◌, ◌==◌, Bool-cases,
}
use rucix_kernel.Common.Int.{pos, pred_ℤ}
use rucix_kernel.Radix.{
  null, item, node, radix_tree_init, radix_tree_lookup, lookup_walk, digit, capacity,
}
use rucix_kernel.Radix.Find.{Good, occupied}
use rucix_kernel.Radix.Extend.{IsValid}
use rucix_kernel.Radix.PageCache.{Cache, add_to_page_cache, delete_from_page_cache}
use rucix_kernel.Radix.PageCache.Knows.{cached, IsCache, null≢item}
use rucix_kernel.Radix.PageCache.Add.{add_to_page_cache-IsCache}
use rucix_kernel.Radix.PageCache.Delete.{delete_from_page_cache-IsCache}

abbrev empty : Cache
empty = record {
  spaces = λ a. record { page_tree = radix_tree_init; nrpages = 0 };
  pages = λ p. record { count = pos 1; mapping = 0; index = 0 };
}

empty-IsCache : IsCache empty
unfolding IsCache IsValid radix_tree_lookup
empty-IsCache = (
  λ a. (omega arith, inl refl),
  (λ a i p h e. absurd (null≢item p e), λ p h. absurd (omega arith)),
)

-- The page 7 stands at the offset 5 of the mapping 3.
abbrev single : Cache
single = record {
  spaces = λ a. record {
    page_tree = record {
      height = 1;
      rnode = node (if a == 3 then 1 else 0) (λ o. if (a == 3) && (o == 5) then item 7 else null);
    };
    nrpages = 1;
  };
  pages = λ p. record { count = pos 1; mapping = if p == 7 then 3 else 0; index = 5 };
}

single-IsCache : IsCache single
unfolding IsCache IsValid radix_tree_lookup lookup_walk digit capacity Good occupied
single-IsCache = (
  λ a. (
    omega arith,
    inr (
      omega arith,
      elim (Bool-cases (a == 3)) [
        | inl e ↦ rw e (
          refl,
          λ o lt. elim (Bool-cases (o == 5)) [ inl f ↦ rw f (inr tt) | inr f ↦ rw f (inl refl) ],
        )
        | inr e ↦ rw e (refl, λ o lt. inl refl)
      ],
    ),
  ),
  (λ a i p h e. (ground arith, ground arith), λ p h. ground arith),
)

add_to_page_cache-IsCache_example :
    (ok : Bool) × (c' : Cache) × (add_to_page_cache 11 7 3 5 (true ∷ []) empty ≡ some (ok, c'))
    × IsCache c'
    × ((a i : ℕ)
        → cached c' a i ≡ (if ok && ((3 == a) && (i == 5)) then item 7 else cached empty a i))
    × (ok ≡ true → cached empty 3 5 ≡ null)
    × ((q : ℕ) → (c'.pages q).count ≡ (empty.pages q).count)
unfolding capacity
add_to_page_cache-IsCache_example =
    add_to_page_cache-IsCache empty 7 3 5 (true ∷ []) empty-IsCache refl (omega arith)

delete_from_page_cache-IsCache_example :
    let c' = delete_from_page_cache 7 single in
    IsCache c'
    × ((a i : ℕ) → cached c' a i ≡ (if (3 == a) && (i == 5) then null else cached single a i))
    × ((c'.pages 7).mapping ≡ 0)
    × ((q : ℕ)
        → (c'.pages q).count
          ≡ (if 7 == q then pred_ℤ (single.pages q).count else (single.pages q).count))
delete_from_page_cache-IsCache_example =
    delete_from_page_cache-IsCache single 7 single-IsCache (omega arith)
