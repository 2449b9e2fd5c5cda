-- ===== src/Radix/Put.antt =====
-- kernel/lib/radix-tree.c: an insertion at a root that has enough levels.
use mathlib.Core.Bool.{true≢false}
use rucix_kernel.Common.{
  ℕ, zero, suc, ◌≤◌, ◌<◌, ◌≡◌, refl, sym, ◌∙◌, ap, Bool, true, false, ◌&&◌, List, ltb, ◌==◌,
  if◌then◌else◌, lt→ltb, Bool-cases, inl, inr, arith,
}
use rucix_kernel.Radix.{
  Pointer, null, is_null, capacity, Root, radix_tree_node_alloc, insert_walk, insert_root,
}
use rucix_kernel.Radix.Digits.{same, same-eq}
use rucix_kernel.Radix.Find.{find, Good, is_null-eq, Good-is_null, find-null}
use rucix_kernel.Radix.Insert.{Enough, Enough-more, Fresh-cases, Inserted, insert_walk-Inserted}
use rucix_kernel.Radix.Extend.{IsValid, content}

-- The insertion at a root that has enough levels: with enough memory only an item that stands at the
-- index makes it fail, and nothing else changes.
unfoldable pub Put : Root → ℕ → Pointer → List Bool → Bool × Root × List Bool → Type 0
Put r i it m (ok, r', m') =
    IsValid r'
    × ((j : ℕ) → content r' j ≡ (if ok && (j == i) then it else content r j))
    × (ok ≡ true → content r i ≡ null)
    × (Enough 11 m → ok ≡ is_null (content r i))

put_at :
    (h i j : ℕ) (it p q : Pointer) (r : Root) (ok : Bool)
    → i < capacity h
    → find h q j ≡ (if ok && same h i j then it else find h p j)
    → (if ltb j (capacity h) then find h p j else null) ≡ content r j
    → (if ltb j (capacity h) then find h q j else null)
      ≡ (if ok && (j == i) then it else content r j)
put_at h i j it p q r ok fits put before = elim (Bool-cases (ltb j (capacity h))) [
  | inr e ↦ let apart : (j == i) ≡ false = ground arith in rw (e, apart) (ground (arith, before))
  | inl e ↦
      let one : same h i j ≡ (i == j) = same-eq h i j fits (ground arith) in ground (arith, before)
]

walk-Put :
    (h i : ℕ) (it p : Pointer) (m m0 : List Bool) (r : Root) (x : Bool × Pointer × List Bool)
    → h ≤ 10
    → 0 < h
    → i < capacity h
    → ((j : ℕ) → (if ltb j (capacity h) then find h p j else null) ≡ content r j)
    → (Enough 11 m0 → Enough h m)
    → Inserted h i it p m x
    → Put r i it m0 (x.0, record { height = h; rnode = x.1 }, x.2)
unfolding Put Inserted IsValid content
walk-Put h i it p m m0 r (ok, q, left) high pos fits before less (g, put, clear, enough) =
    let at : find h p i ≡ content r i = (rw (lt→ltb i (capacity h) fits) refl) ∙ before i in
    (
      (high, inr (pos, g)),
      λ j. put_at h i j it p q r ok fits (put j) (before j),
      λ f. sym at ∙ is_null-eq (find h p i) (clear f),
      λ e. enough (less e) ∙ ap is_null at,
    )

new-IsValid : (h : ℕ) → h ≤ 10 → IsValid (record { height = h; rnode = null })
unfolding IsValid
new-IsValid h le = (le, inl refl)

failed-Put :
    (r : Root) (i : ℕ) (it : Pointer) (m m' : List Bool)
    → IsValid r
    → ¬ Enough 11 m
    → Put r i it m (false, r, m')
unfolding Put
failed-Put r i it m m' v short = (v, λ j. refl, λ f. ground arith, λ e. absurd (short e))

blank :
    (h j : ℕ) (p : Pointer)
    → ((k : ℕ) → find h p k ≡ null)
    → (if ltb j (capacity h) then find h p j else null)
      ≡ content (record { height = h; rnode = null }) j
unfolding content
blank h j p empty = rw (empty j, find-null h j) refl

new_root :
    (h i : ℕ) (it p : Pointer) (m : List Bool)
    → h ≤ 10
    → 0 < h
    → i < capacity h
    → Good 0 it
    → p ≡ null
    → Put
        (record { height = h; rnode = p })
        i
        it
        m
        (insert_root (record { height = h; rnode = p }) i it m)
unfolding insert_root
new_root zero i it p m le pos fits g e = absurd (omega arith)
new_root (suc h) i it p m le pos fits g e =
    let a = radix_tree_node_alloc m in
    let (cases, more) = Fresh-cases h m in
    elim cases [
      | inl z ↦
          rw (e, z)
            (failed-Put (record { height = suc h; rnode = null }) i it m a.1
              (new-IsValid (suc h) le) (λ f. true≢false (sym (ap is_null z) ∙ (more 10 f).0)))
      | inr (good, some_node, empty) ↦
          rw (e, some_node)
            (walk-Put (suc h) i it a.0 a.1 m (record { height = suc h; rnode = null })
              (insert_walk (suc h) i it a.0 a.1) le pos fits (λ j. blank (suc h) j a.0 empty)
              (λ f. Enough-more 10 (suc h) a.1 le (more 10 f).1)
              (insert_walk-Inserted h i it a.0 a.1 g good))
    ]

old_root :
    (h i : ℕ) (it p : Pointer) (m : List Bool)
    → h ≤ 10
    → 0 < h
    → i < capacity h
    → Good 0 it
    → Good h p
    → Put
        (record { height = h; rnode = p })
        i
        it
        m
        (insert_root (record { height = h; rnode = p }) i it m)
unfolding insert_root content
old_root zero i it p m le pos fits g good = absurd (omega arith)
old_root (suc h) i it p m le pos fits g good =
    rw (Good-is_null (suc h) p good, Good-is_null (suc h) p good)
      (walk-Put (suc h) i it p m m (record { height = suc h; rnode = p })
        (insert_walk (suc h) i it p m) le pos fits (λ j. refl)
        (λ f. Enough-more 11 (suc h) m (omega arith) f) (insert_walk-Inserted h i it p m g good))

pub insert_root-Put :
    (r : Root) (i : ℕ) (it : Pointer) (m : List Bool)
    → IsValid r
    → 0 < r.height
    → i < capacity r.height
    → Good 0 it
    → Put r i it m (insert_root r i it m)
unfolding IsValid
insert_root-Put r i it m v pos fits g = elim v.1 [
  | inl e ↦ new_root r.height i it r.rnode m v.0 pos fits g e
  | inr (some_level, good) ↦ old_root r.height i it r.rnode m v.0 pos fits g good
]
