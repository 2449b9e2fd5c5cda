-- ===== src/Radix/Extend.antt =====
-- kernel/lib/radix-tree.c: the tree seen from its root, and the levels put on top of it.
use mathlib.Core.Bool.{true≢false}
use rucix_kernel.Common.{
  ℕ, zero, suc, ◌+◌, ◌*◌, ◌≤◌, ◌<◌, ◌≡◌, ◌⊎◌, refl, sym, ◌∙◌, ap, subst, Bool, true, false, List,
  [], ◌∷◌, ltb, ◌==◌, if◌then◌else◌, Bool-cases, inl, inr, arith,
}
use rucix_kernel.Common.Chain.{update}
use rucix_kernel.Radix.{
  Pointer, null, node, slots, is_null, digit, capacity, Root, extend_levels, radix_tree_node_alloc,
  radix_tree_lookup,
}
use rucix_kernel.Radix.Digits.{digit-top, capacity-positive}
use rucix_kernel.Radix.Find.{
  find, occupied, occupied-update, Good, Good-is_null, find-null, lookup_walk-find,
}
use rucix_kernel.Radix.Insert.{Enough, Fresh-cases}

-- A tree of at most 10 levels, whose nodes are well formed; or none yet, at any height.
unfoldable pub IsValid : Root → Type 0
IsValid r = (r.height ≤ 10) × ((r.rnode ≡ null) ⊎ ((0 < r.height) × Good r.height r.rnode))

-- The map that a tree stands for.
unfoldable pub content : Root → ℕ → Pointer
content r i = if ltb i (capacity r.height) then find r.height r.rnode i else null

pub content-null : (r : Root) (i : ℕ) → r.rnode ≡ null → content r i ≡ null
unfolding content
content-null r i e = rw (e, find-null r.height i) (ground arith)

lookup_at :
    (h i : ℕ) (p : Pointer)
    → ((p ≡ null) ⊎ ((0 < h) × Good h p))
    → radix_tree_lookup (record { height = h; rnode = p }) i
      ≡ content (record { height = h; rnode = p }) i
unfolding radix_tree_lookup content
lookup_at h i p (inl e) = rw (e, find-null h i) (ground arith)
lookup_at zero i p (inr (lt, g)) = absurd (omega arith)
lookup_at (suc h) i p (inr (lt, g)) =
    rw (Good-is_null (suc h) p g, lookup_walk-find h i p)
      (ground (arith, capacity-positive (suc h)))

pub lookup-content : (r : Root) (i : ℕ) → IsValid r → radix_tree_lookup r i ≡ content r i
unfolding IsValid
lookup-content r i v = lookup_at r.height i r.rnode v.1

-- A node on top whose first slot leads to the old tree.
abbrev top : Pointer → (ℕ → Pointer) → Pointer
top p s = node 1 (update s 0 p)

occupied-empty : (s : ℕ → Pointer) (n : ℕ) → ((o : ℕ) → s o ≡ null) → occupied s n ≡ 0
unfolding occupied
occupied-empty s zero empty = refl
occupied-empty s (suc n) empty = rw (empty n, occupied-empty s n empty) refl

top-Good :
    (h : ℕ) (p : Pointer) (s : ℕ → Pointer)
    → ((o : ℕ) → s o ≡ null)
    → Good h p
    → Good (suc h) (top p s)
unfolding Good update
top-Good h p s empty g =
    let none_used = occupied-empty s 64 empty in
    let used = Good-is_null h p g in
    (
      ground (arith, none_used, used, ap is_null (empty 0), occupied-update s 64 0 p (omega arith)),
      λ o lt. elim (Bool-cases (0 == o)) [ inl e ↦ rw e (inr g) | inr e ↦ rw e (inl (empty o)) ],
    )

grown-capacity : (h : ℕ) → capacity (suc h) ≡ 64 * capacity h
unfolding capacity
grown-capacity h = refl

top-content :
    (h i : ℕ) (p : Pointer) (s : ℕ → Pointer)
    → ((o : ℕ) → s o ≡ null)
    → content (record { height = suc h; rnode = top p s }) i
      ≡ content (record { height = h; rnode = p }) i
unfolding content find update
top-content h i p s empty =
    let c = grown-capacity h in
    let first = digit-top h i in
    elim (Bool-cases (ltb i (capacity h))) [
      | inl e ↦
          let z : (0 == digit h i) ≡ true = ground arith in
          let e' : ltb i (capacity (suc h)) ≡ true = ground arith in rw (e, e', z) refl
      | inr e ↦ elim (Bool-cases (ltb i (capacity (suc h)))) [
        | inr f ↦ rw (e, f) refl
        | inl f ↦
            let z : (0 == digit h i) ≡ false = ground arith in
            rw (e, f, z) (ap (λ q. find h q i) (empty (digit h i)) ∙ find-null h i)
      ]
    ]

-- A tree with nodes, and what the next levels on top do to it.
unfoldable pub Extended : ℕ → Root → List Bool → Bool × Root × List Bool → Type 0
Extended n r m (failed, r', m') =
    (r'.height ≤ n + r.height)
    × (r.height ≤ r'.height)
    × Good r'.height r'.rnode
    × ((i : ℕ) → content r' i ≡ content r i)
    × (failed ≡ false → r'.height ≡ n + r.height)
    × ((k : ℕ) → Enough (n + k) m → (failed ≡ false) × Enough k m')

alloc-slots : (m : List Bool) (o : ℕ) → slots (radix_tree_node_alloc m).0 o ≡ null
unfolding radix_tree_node_alloc
alloc-slots [] o = refl
alloc-slots (true ∷ m) o = refl
alloc-slots (false ∷ m) o = refl

shift : (n k : ℕ) (m : List Bool) → Enough (suc n + k) m → Enough (suc (n + k)) m
shift n k m e = let q : suc n + k ≡ suc (n + k) = omega arith in subst (λ j. Enough j m) q e

-- One level on top, and the rest.
step-Extended :
    (n h : ℕ) (p : Pointer) (s : ℕ → Pointer) (m m' : List Bool) (x : Bool × Root × List Bool)
    → ((o : ℕ) → s o ≡ null)
    → ((k : ℕ) → Enough (suc k) m → Enough k m')
    → Extended n (record { height = suc h; rnode = top p s }) m' x
    → Extended (suc n) (record { height = h; rnode = p }) m x
unfolding Extended
step-Extended n h p s m m' (failed, r', left) empty less (up, low, g, same, ok, enough) = (
  omega arith,
  omega arith,
  g,
  λ i. same i ∙ top-content h i p s empty,
  λ f. omega (arith, ok f),
  λ k e. enough k (less (n + k) (shift n k m e)),
)

still-Extended :
    (h : ℕ) (p : Pointer) (m : List Bool)
    → Good h p
    → Extended 0 (record { height = h; rnode = p }) m (false, record { height = h; rnode = p }, m)
unfolding Extended
still-Extended h p m g = (
  omega arith,
  omega arith,
  g,
  λ i. refl,
  λ f. omega arith,
  λ k e. (refl, subst (λ j. Enough j m) (omega arith) e),
)

failed-Extended :
    (n h : ℕ) (p : Pointer) (m : List Bool)
    → Good h p
    → is_null (radix_tree_node_alloc m).0 ≡ true
    → Extended
        (suc n)
        (record { height = h; rnode = p })
        m
        (true, record { height = h; rnode = p }, (radix_tree_node_alloc m).1)
unfolding Extended
failed-Extended n h p m g e = (
  omega arith,
  omega arith,
  g,
  λ i. refl,
  λ f. ground arith,
  λ k f.
      let more = (Fresh-cases h m).1 (n + k) (shift n k m f) in
      absurd (true≢false (sym e ∙ more.0)),
)

pub extend_levels-Extended :
    (n h : ℕ) (p : Pointer) (m : List Bool)
    → Good h p
    → Extended n
        (record { height = h; rnode = p })
        m
        (extend_levels n (record { height = h; rnode = p }) m)
unfolding extend_levels
extend_levels-Extended zero h p m g = still-Extended h p m g
extend_levels-Extended (suc n) h p m g = elim (Bool-cases (is_null (radix_tree_node_alloc m).0)) [
  | inl e ↦ rw e (failed-Extended n h p m g e)
  | inr e ↦
      let s = slots (radix_tree_node_alloc m).0 in
      let empty = alloc-slots m in
      let more = (Fresh-cases h m).1 in
      let rest =
        extend_levels-Extended n (suc h) (top p s) (radix_tree_node_alloc m).1
          (top-Good h p s empty g) in
      let up : h + 1 ≡ suc h = omega arith in
      rw (e, up)
        (step-Extended n h p s m (radix_tree_node_alloc m).1
          (extend_levels n (record { height = suc h; rnode = top p s }) (radix_tree_node_alloc m).1)
          empty (λ k f. (more k f).1) rest)
]
