-- ===== src/Radix/Remove.antt =====
-- kernel/lib/radix-tree.c: a deletion, seen from the root.
use rucix_kernel.Common.{
  ℕ, zero, suc, ◌-◌, ◌*◌, ◌≤◌, ◌<◌, ◌≡◌, ◌⊎◌, refl, sym, ◌∙◌, ap, true, false, ◌||◌, not, Option,
  none, some, ltb, ◌==◌, if◌then◌else◌, lt→ltb, Bool-cases, inl, inr, arith,
}
use rucix_kernel.Common.Chain.{update}
use rucix_kernel.Radix.{
  Pointer, null, item, node, is_null, digit, capacity, Root, delete_walk, radix_tree_shrink,
  radix_tree_delete, radix_tree_lookup,
}
use rucix_kernel.Radix.Digits.{capacity-positive, digit-lt, digit-top, same, same-eq}
use rucix_kernel.Radix.Find.{
  find, occupied, occupied-update, occupied-zero, used-Good, Good, is_null-eq, Good-is_null,
  find-null,
}
use rucix_kernel.Radix.Extend.{IsValid, content, content-null, lookup-content}
use rucix_kernel.Radix.Delete.{Deleted, delete_walk-Deleted}

-- A node with one slot in use, the first: the other slots are empty.
only-first :
    (s : ℕ → Pointer) (o : ℕ)
    → occupied s 64 ≡ 1
    → is_null (s 0) ≡ false
    → 0 < o
    → o < 64
    → s o ≡ null
unfolding update
only-first s o one first pos lt =
    let cleared = occupied-update s 64 0 null (omega arith) in
    let none_left : occupied (update s 0 null) 64 ≡ 0 = ground (arith, first, one) in
    let empty = occupied-zero (update s 0 null) 64 o none_left lt in is_null-eq (s o) (ground arith)

-- A level is dropped.
lower-content :
    (h i : ℕ) (s : ℕ → Pointer)
    → ((o : ℕ) → 0 < o → o < 64 → s o ≡ null)
    → content (record { height = h; rnode = s 0 }) i
      ≡ content (record { height = suc h; rnode = node 1 s }) i
unfolding content find capacity
lower-content h i s empty =
    let first = digit-top h i in
    elim (Bool-cases (ltb i (capacity h))) [
      | inl e ↦
          let e' : ltb i (64 * capacity h) ≡ true = ground arith in
          let z : digit h i ≡ 0 = ground arith in rw (e, e', z) refl
      | inr e ↦ elim (Bool-cases (ltb i (64 * capacity h))) [
        | inr f ↦ rw (e, f) refl
        | inl f ↦
            let pos : 0 < digit h i = ground arith in
            rw (e, f, empty (digit h i) pos (digit-lt h i)) (sym (find-null h i))
      ]
    ]

-- A root that stands for the same map.
unfoldable pub Same : Root → Root → Type 0
Same r r' = IsValid r' × ((i : ℕ) → content r' i ≡ content r i)

radix_tree_shrink-Same :
    (h : ℕ) (p : Pointer)
    → h ≤ 10
    → Good h p
    → 0 < h
    → Same (record { height = h; rnode = p }) (radix_tree_shrink h p)
unfolding radix_tree_shrink Same Good IsValid
radix_tree_shrink-Same zero p le g pos = absurd (omega arith)
radix_tree_shrink-Same (suc h) null le g pos = absurd g
radix_tree_shrink-Same (suc h) (item v) le g pos = absurd g
radix_tree_shrink-Same (suc h) (node c s) le g pos =
    elim (Bool-cases (not (c == 1) || is_null (s 0) || (h == 0))) [
      | inl e ↦ rw e ((le, inr (pos, g)), λ i. refl)
      | inr e ↦
          let one : c ≡ 1 = ground arith in
          let first : is_null (s 0) ≡ false = ground arith in
          let good = used-Good h c 0 s g (omega arith) first in
          let (valid, same) = radix_tree_shrink-Same h (s 0) (omega arith) good (ground arith) in
          rw e (
            valid,
            λ i.
                same i
                ∙ lower-content h i s (λ o. only-first s o (sym g.0 ∙ one) first)
                ∙ ap (λ (k : ℕ). content (record { height = suc h; rnode = node k s }) i) (sym one),
          )
    ]

-- What a deletion leads to.
unfoldable Removed : Root → ℕ → Pointer × Root → Type 0
Removed r i (it, r') =
    IsValid r'
    × (it ≡ content r i)
    × ((j : ℕ) → content r' j ≡ (if j == i then null else content r j))

nothing-Removed : (r : Root) (i : ℕ) → IsValid r → content r i ≡ null → Removed r i (null, r)
unfolding Removed
nothing-Removed r i v e = (
  v,
  sym e,
  λ j. elim (Bool-cases (j == i)) [
    | inr f ↦ rw f refl
    | inl f ↦ let q : j ≡ i = ground arith in rw f (ap (content r) q ∙ e)
  ],
)

-- What the deletion below the root means for the map.
cleared :
    (h i j : ℕ) (p q : Pointer)
    → i < capacity h
    → find h q j ≡ (if same h i j then null else find h p j)
    → content (record { height = h; rnode = q }) j
      ≡ (if j == i then null else content (record { height = h; rnode = p }) j)
unfolding content
cleared h i j p q fits e = elim (Bool-cases (ltb j (capacity h))) [
  | inr f ↦ rw f (ground arith)
  | inl f ↦
      let one : same h i j ≡ (i == j) = same-eq h i j fits (ground arith) in
      rw f (ground (arith, e, one))
]

-- The end of a deletion, by what the walk has done.
abbrev finish : Root → Option (Pointer × Option Pointer) → Pointer × Root
finish r none = (null, r)
finish r (some (it, none)) = (it, radix_tree_shrink 0 null)
finish r (some (it, some p)) = (it, radix_tree_shrink r.height p)

finish-Removed :
    (h i : ℕ) (p : Pointer) (d : Option (Pointer × Option Pointer))
    → h ≤ 10
    → 0 < h
    → Good h p
    → i < capacity h
    → Deleted h i p d
    → Removed (record { height = h; rnode = p }) i (finish (record { height = h; rnode = p }) d)
unfolding Deleted Removed content IsValid radix_tree_shrink Same
finish-Removed h i p none le pos g fits d =
    nothing-Removed (record { height = h; rnode = p }) i (le, inr (pos, g))
      (rw (lt→ltb i (capacity h) fits) (is_null-eq (find h p i) d))
finish-Removed h i p (some (it, none)) le pos g fits (e, nonnull, k, gone) = (
  (omega arith, inl refl),
  e ∙ sym (rw (lt→ltb i (capacity h) fits) refl),
  λ j.
      content-null (record { height = 0; rnode = null }) j refl
      ∙ sym (content-null (record { height = h; rnode = null }) j refl)
      ∙ cleared h i j p null fits (gone j),
)
finish-Removed h i p (some (it, some q)) le pos g fits (e, nonnull, k, gone) =
    let (valid, same) = radix_tree_shrink-Same h q le k pos in
    (
      valid,
      e ∙ sym (rw (lt→ltb i (capacity h) fits) refl),
      λ j. same j ∙ cleared h i j p q fits (gone j),
    )

low_index : (h i : ℕ) → ltb (capacity h - 1) i ≡ false → i < capacity h
low_index h i e = ground (arith, capacity-positive h)

high-content :
    (h i : ℕ) (p : Pointer)
    → ltb (capacity h - 1) i ≡ true
    → content (record { height = h; rnode = p }) i ≡ null
unfolding content
high-content h i p e =
    let f : ltb i (capacity h) ≡ false = ground (arith, capacity-positive h) in rw f refl

delete_at :
    (h i : ℕ) (p : Pointer)
    → h ≤ 10
    → ((p ≡ null) ⊎ ((0 < h) × Good h p))
    → Removed
        (record { height = h; rnode = p })
        i
        (radix_tree_delete (record { height = h; rnode = p }) i)
unfolding radix_tree_delete IsValid
delete_at h i p le (inl e) =
    let r : Root = record { height = h; rnode = null } in
    let done = nothing-Removed r i (le, inl refl) (content-null r i refl) in
    elim (Bool-cases (h == 0)) [ inl z ↦ rw (e, z) done | inr z ↦ rw (e, z) done ]
delete_at zero i p le (inr (pos, g)) = absurd (omega arith)
delete_at (suc h) i p le (inr (pos, g)) =
    let never : (suc h == 0) ≡ false = ground arith in
    elim (Bool-cases (ltb (capacity (suc h) - 1) i)) [
      | inl e ↦
          rw (never, Good-is_null (suc h) p g, e)
            (nothing-Removed (record { height = suc h; rnode = p }) i (le, inr (pos, g))
              (high-content (suc h) i p e))
      | inr e ↦
          rw (never, Good-is_null (suc h) p g, e)
            (finish-Removed (suc h) i p (delete_walk (suc h) i p) le pos g (low_index (suc h) i e)
              (delete_walk-Deleted h i p g))
    ]

-- `radix_tree_delete` on a tree of at most 10 levels returns what a lookup of the index gives, null
-- when nothing stands there, and leaves such a tree, in which a lookup of the index gives null and
-- every other lookup what it gave before, also when nodes are freed and levels dropped.
pub delete-lookup :
    (r : Root) (i : ℕ)
    → IsValid r
    → IsValid (radix_tree_delete r i).1
      × ((radix_tree_delete r i).0 ≡ radix_tree_lookup r i)
      × ((j : ℕ)
          → radix_tree_lookup (radix_tree_delete r i).1 j
            ≡ (if j == i then null else radix_tree_lookup r j))
unfolding Removed IsValid
delete-lookup r i v =
    let (v', e, gone) = delete_at r.height i r.rnode v.0 v.1 in
    (
      v',
      e ∙ sym (lookup-content r i v),
      λ j.
          lookup-content (radix_tree_delete r i).1 j v'
          ∙ gone j
          ∙ ap (λ p. if j == i then null else p) (sym (lookup-content r j v)),
    )
