-- ===== src/Radix/Refine.antt =====
-- kernel/lib/radix-tree.c: the tree as a map from indices to items.
use mathlib.Core.Bool.{true≢false}
use rucix_kernel.Common.{
  ℕ, ◌-◌, ◌<◌, ◌≡◌, refl, sym, ◌∙◌, ap, Bool, true, false, ◌&&◌, some, List, ltb, ◌==◌,
  if◌then◌else◌, Bool-cases, inl, inr, arith,
}
use rucix_kernel.Radix.{
  Pointer, null, item, is_null, capacity, Root, start_height, radix_tree_extend, insert_root,
  radix_tree_insert, radix_tree_lookup,
}
use rucix_kernel.Radix.Digits.{capacity-positive, same}
use rucix_kernel.Radix.Find.{Good}
use rucix_kernel.Radix.Insert.{Enough, Enough-more}
use rucix_kernel.Radix.Extend.{IsValid, content, lookup-content}
use rucix_kernel.Radix.Put.{Put, insert_root-Put}
use rucix_kernel.Radix.Heights.{Fits, radix_tree_extend-Fits, start_height-IsValid}

-- What an insertion leads to.
unfoldable Stored : Root → ℕ → ℕ → List Bool → Bool × Root × List Bool → Type 0
Stored r i v m (ok, r', m') =
    IsValid r'
    × ((j : ℕ)
        → radix_tree_lookup r' j ≡ (if ok && (j == i) then item v else radix_tree_lookup r j))
    × (ok ≡ true → radix_tree_lookup r i ≡ null)
    × (Enough 21 m → ok ≡ is_null (radix_tree_lookup r i))

Put-Stored :
    (r r' : Root) (i v : ℕ) (m m' : List Bool) (x : Bool × Root × List Bool)
    → IsValid r
    → ((j : ℕ) → content r' j ≡ content r j)
    → (Enough 21 m → Enough 11 m')
    → Put r' i (item v) m' x
    → Stored r i v m x
unfolding Put Stored
Put-Stored r r' i v m m' (ok, q, left) valid same less (valid', put, clear, enough) =
    let at = λ (j : ℕ). same j ∙ sym (lookup-content r j valid) in
    (
      valid',
      λ j.
          lookup-content q j valid' ∙ put j ∙ ap (λ p. if ok && (j == i) then item v else p) (at j),
      λ f. sym (at i) ∙ clear f,
      λ e. enough (less e) ∙ ap is_null (at i),
    )

fitting-run :
    (r r' : Root) (i : ℕ) (it : Pointer) (m : List Bool)
    → start_height 11 r i ≡ some r'
    → ltb (capacity r'.height - 1) i ≡ false
    → radix_tree_insert 11 r i it m ≡ some (insert_root r' i it m)
unfolding radix_tree_insert
fitting-run r r' i it m run e = rw (radix_tree_insert, run, e) refl

extended-run :
    (r r' : Root) (i : ℕ) (it : Pointer) (m : List Bool) (x : Bool × Root × List Bool)
    → start_height 11 r i ≡ some r'
    → ltb (capacity r'.height - 1) i ≡ true
    → radix_tree_extend 11 r' i m ≡ some x
    → radix_tree_insert 11 r i it m
      ≡ some (if x.0 then (false, x.1, x.2) else insert_root x.1 i it x.2)
unfolding radix_tree_insert
extended-run r r' i it m x run e more = rw (radix_tree_insert, run, e, more) refl

-- After the levels on top: a failure, or the insertion at the new root.
Fits-Stored :
    (r r' : Root) (i v : ℕ) (m : List Bool) (x : Bool × Root × List Bool)
    → IsValid r
    → ((j : ℕ) → content r' j ≡ content r j)
    → Fits r' i m x
    → Stored r i v m (if x.0 then (false, x.1, x.2) else insert_root x.1 i (item v) x.2)
unfolding Fits Stored Good
Fits-Stored r r' i v m (true, q, left) valid same (valid', pos, same', fits, enough) = (
  valid',
  λ j. lookup-content q j valid' ∙ same' j ∙ same j ∙ sym (lookup-content r j valid),
  λ f. ground arith,
  λ e. absurd (true≢false (enough e).0),
)
Fits-Stored r r' i v m (false, q, left) valid same (valid', pos, same', fits, enough) =
    Put-Stored r q i v m left (insert_root q i (item v) left) valid (λ j. same' j ∙ same j)
      (λ e. (enough e).1) (insert_root-Put q i (item v) left valid' pos (fits refl) tt)

-- `radix_tree_insert` on a tree of at most 10 levels and at an index below 2 ^ 60 ends, within 11
-- rounds of each loop on the height, and leaves such a tree. When it returns 0, nothing stood at the
-- index, and a lookup now gives the item there and what it gave before everywhere else; when it fails,
-- also after it has run out of memory on the way, every lookup gives what it gave before. When the next
-- 21 allocations succeed, it fails only if the index is taken.
pub insert-lookup :
    (r : Root) (i v : ℕ) (m : List Bool)
    → IsValid r
    → i < capacity 10
    → (ok : Bool) × (r' : Root) × (m' : List Bool) × (radix_tree_insert 11 r i (item v) m
        ≡ some (ok, r', m'))
      × IsValid r'
      × ((j : ℕ)
          → radix_tree_lookup r' j ≡ (if ok && (j == i) then item v else radix_tree_lookup r j))
      × (ok ≡ true → radix_tree_lookup r i ≡ null)
      × (Enough 21 m → ok ≡ is_null (radix_tree_lookup r i))
unfolding Stored Good
insert-lookup r i v m valid lt =
    let (r', run, valid', pos, same) = start_height-IsValid r i valid lt in
    elim (Bool-cases (ltb (capacity r'.height - 1) i)) [
      | inr e ↦
          let x = insert_root r' i (item v) m in
          let put =
            insert_root-Put r' i (item v) m valid' pos (ground (arith, capacity-positive r'.height))
              tt in
          let stored =
            Put-Stored r r' i v m m x valid same (λ f. Enough-more 21 11 m (omega arith) f) put in
          (
            x.0,
            x.1,
            x.2,
            fitting-run r r' i (item v) m run e,
            stored.0,
            stored.1,
            stored.2,
            stored.3,
          )
      | inl e ↦
          let (y, more, fits) = radix_tree_extend-Fits r' i m valid' pos lt (ground arith) in
          let x = if y.0 then (false, y.1, y.2) else insert_root y.1 i (item v) y.2 in
          let stored = Fits-Stored r r' i v m y valid same fits in
          (
            x.0,
            x.1,
            x.2,
            extended-run r r' i (item v) m y run e more,
            stored.0,
            stored.1,
            stored.2,
            stored.3,
          )
    ]
