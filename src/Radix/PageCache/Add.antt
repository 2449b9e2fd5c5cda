-- ===== src/Radix/PageCache/Add.antt =====
-- kernel/mm/page_cache.c: adding a page.
use rucix_kernel.Common.Chain.{update_field}
use rucix_kernel.Common.{
  ℕ, ◌+◌, ◌%◌, ◌^◌, ◌<◌, ◌≡◌, refl, ◌∙◌, Bool, true, false, ◌&&◌, ◌||◌, some, List, [], ◌==◌,
  if◌then◌else◌, Bool-cases, inl, inr, arith,
}
use rucix_kernel.Radix.{null, item, Root, capacity, radix_tree_insert, radix_tree_lookup}
use rucix_kernel.Radix.Extend.{IsValid}
use rucix_kernel.Radix.Refine.{insert-lookup}
use rucix_kernel.Radix.PageCache.{Page, Cache, set_space, added, add_to_page_cache}
use rucix_kernel.Radix.PageCache.Knows.{
  cached, IsCache, put-Knows, place-cached, set_space-IsValid, same-Knows, same_count,
}

-- What an addition leads to.
unfoldable Added : Cache → ℕ → ℕ → ℕ → Bool × Cache → Type 0
Added c p mapping offset (ok, c') =
    IsCache c'
    × ((a i : ℕ)
        → cached c' a i
          ≡ (if ok && ((mapping == a) && (i == offset)) then item p else cached c a i))
    × (ok ≡ true → cached c mapping offset ≡ null)
    × ((q : ℕ) → (c'.pages q).count ≡ (c.pages q).count)

-- The cache with a page at a place where nothing was.
abbrev inserted : Cache → ℕ → ℕ → ℕ → Root → Cache
inserted c p a i tree = (added p a i c (true, tree, [])).1

added-Added :
    (c : Cache) (p mapping offset : ℕ) (ok : Bool) (tree : Root) (left : List Bool)
    → IsCache c
    → (c.pages p).mapping ≡ 0
    → 0 < mapping
    → IsValid tree
    → ((j : ℕ)
        → radix_tree_lookup tree j ≡ (if ok && (j == offset) then item p else cached c mapping j))
    → (ok ≡ true → cached c mapping offset ≡ null)
    → Added c p mapping offset (added p mapping offset c (ok, tree, left))
unfolding added Added IsCache
added-Added c p mapping offset true tree left (valid, knows) out pos valid' put free =
    let page : Page = record { count = (c.pages p).count; mapping = mapping; index = offset } in
    let n = ((c.spaces mapping).nrpages + 1) % 2 ^ 64 in
    let c' = inserted c p mapping offset tree in
    let places = place-cached c mapping offset n true (item p) tree put in
    (
      (
        λ b. set_space-IsValid c mapping b n tree valid' (valid b),
        put-Knows (cached c) (cached c') (λ q. (c.pages q).mapping) (λ q. (c'.pages q).mapping)
            (λ q. (c.pages q).index) (λ q. (c'.pages q).index) knows p mapping offset out pos
            (free refl) places (λ q. update_field (λ (x : Page). x.mapping) c.pages p page q)
            (λ q. update_field (λ (x : Page). x.index) c.pages p page q),
      ),
      places,
      free,
      λ q. update_field (λ (x : Page). x.count) c.pages p page q ∙ same_count c p q,
    )
added-Added c p mapping offset false tree left (valid, knows) out pos valid' put free =
    let n = (c.spaces mapping).nrpages in
    let places = place-cached c mapping offset n false (item p) tree put in
    (
      (
        λ b. set_space-IsValid c mapping b n tree valid' (valid b),
        same-Knows (cached c)
            (cached (set_space mapping (record { page_tree = tree; nrpages = n }) c))
            (λ q. (c.pages q).mapping) (λ q. (c.pages q).index) places knows,
      ),
      places,
      λ f. ground arith,
      λ q. refl,
    )

refused-run :
    (c : Cache) (p mapping offset : ℕ) (m : List Bool)
    → ((mapping == 0) || (p == 0)) ≡ true
    → add_to_page_cache 11 p mapping offset m c ≡ some (false, c)
unfolding add_to_page_cache
refused-run c p mapping offset m e = rw e refl

added-run :
    (c : Cache) (p mapping offset : ℕ) (m : List Bool) (x : Bool × Root × List Bool)
    → ((mapping == 0) || (p == 0)) ≡ false
    → radix_tree_insert 11 (c.spaces mapping).page_tree offset (item p) m ≡ some x
    → add_to_page_cache 11 p mapping offset m c ≡ some (added p mapping offset c x)
unfolding add_to_page_cache
added-run c p mapping offset m x e run = rw (e, run) refl

-- `add_to_page_cache` of a page that is in no mapping, at an offset below 2 ^ 60: it ends, with 11
-- rounds for each loop of the insertion. When it returns 0, nothing stood at the place, which now holds
-- the page; when it returns -1, as on a taken place or without memory, no place has changed. Pages and
-- places keep their agreement, and the page counts are left as they were.
pub add_to_page_cache-IsCache :
    (c : Cache) (p mapping offset : ℕ) (m : List Bool)
    → IsCache c
    → (c.pages p).mapping ≡ 0
    → offset < capacity 10
    → (ok : Bool) × (c' : Cache) × (add_to_page_cache 11 p mapping offset m c ≡ some (ok, c'))
      × IsCache c'
      × ((a i : ℕ)
          → cached c' a i
            ≡ (if ok && ((mapping == a) && (i == offset)) then item p else cached c a i))
      × (ok ≡ true → cached c mapping offset ≡ null)
      × ((q : ℕ) → (c'.pages q).count ≡ (c.pages q).count)
unfolding Added IsCache
add_to_page_cache-IsCache c p mapping offset m v out lt =
    elim (Bool-cases ((mapping == 0) || (p == 0))) [
      | inl e ↦ (
        false,
        c,
        refused-run c p mapping offset m e,
        v,
        λ a i. refl,
        λ f. ground arith,
        λ q. refl,
      )
      | inr e ↦
          let (ok, tree, left, run, valid, put, free, enough) =
            insert-lookup (c.spaces mapping).page_tree offset p m (v.0 mapping) lt in
          let x = added p mapping offset c (ok, tree, left) in
          let done =
            added-Added c p mapping offset ok tree left v out (ground arith) valid put free in
          (
            x.0,
            x.1,
            added-run c p mapping offset m (ok, tree, left) e run,
            done.0,
            done.1,
            done.2,
            done.3,
          )
    ]
