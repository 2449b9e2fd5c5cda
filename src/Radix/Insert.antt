-- ===== src/Radix/Insert.antt =====
-- kernel/lib/radix-tree.c: the walk of an insertion down the levels.
use rucix_kernel.Common.{
  ℕ, zero, suc, ◌≤◌, ◌≡◌, ◌⊎◌, refl, sym, ◌∙◌, ap, subst, Bool, true, false, ◌&&◌, List, [], ◌∷◌,
  if◌then◌else◌, Bool-cases, inl, inr, arith,
}
use mathlib.Core.Bool.{true≢false}
use rucix_kernel.Common.Chain.{update}
use rucix_kernel.Radix.{
  Pointer, null, item, node, inc, is_null, digit, insert_walk, radix_tree_node_alloc,
}
use rucix_kernel.Radix.Digits.{digit-lt, same}
use rucix_kernel.Radix.Find.{
  find, occupied, Good, is_null-eq, Good-is_null, find-null, occupied-le, occupied-update,
  write-Good, write-find, used-Good,
}

-- The next `n` calls of `kmalloc` find memory.
abbrev pub Enough : ℕ → List Bool → Type 0
Enough zero m = Unit {0}
Enough (suc n) [] = ⊥
Enough (suc n) (b ∷ m) = (b ≡ true) × Enough n m

-- What `radix_tree_node_alloc` returns: a null pointer, or a node without items.
unfoldable pub Fresh : ℕ → List Bool → Pointer × List Bool → Type 0
Fresh h m r =
    ((r.0 ≡ null)
      ⊎ (Good (suc h) r.0 × (is_null r.0 ≡ false) × ((j : ℕ) → find (suc h) r.0 j ≡ null)))
    × ((n : ℕ) → Enough (suc n) m → (is_null r.0 ≡ false) × Enough n r.1)

radix_tree_node_alloc-Fresh : (h : ℕ) (m : List Bool) → Fresh h m (radix_tree_node_alloc m)
unfolding radix_tree_node_alloc Good find occupied Fresh
radix_tree_node_alloc-Fresh h [] = (inl refl, λ n e. absurd e)
radix_tree_node_alloc-Fresh h (false ∷ m) = (inl refl, λ n e. ground arith)
radix_tree_node_alloc-Fresh h (true ∷ m) =
    (inr ((refl, λ o lt. inl refl), refl, λ j. find-null h j), λ n e. (refl, e.1))

pub Fresh-cases :
    (h : ℕ) (m : List Bool)
    → (((radix_tree_node_alloc m).0 ≡ null)
        ⊎ (Good (suc h) (radix_tree_node_alloc m).0
            × (is_null (radix_tree_node_alloc m).0 ≡ false)
            × ((j : ℕ) → find (suc h) (radix_tree_node_alloc m).0 j ≡ null)))
      × ((n : ℕ)
          → Enough (suc n) m
          → (is_null (radix_tree_node_alloc m).0 ≡ false) × Enough n (radix_tree_node_alloc m).1)
unfolding Fresh
Fresh-cases h m = radix_tree_node_alloc-Fresh h m

-- What an insertion below a node leads to: on success the item stands at the index, where nothing
-- stood; nothing else changes. With enough memory only an item that stands there makes it fail.
unfoldable pub Inserted :
    ℕ → ℕ → Pointer → Pointer → List Bool → Bool × Pointer × List Bool → Type 0
Inserted h i it p m r =
    Good h r.1
    × ((j : ℕ) → find h r.1 j ≡ (if r.0 && same h i j then it else find h p j))
    × (r.0 ≡ true → is_null (find h p i) ≡ true)
    × (Enough h m → r.0 ≡ is_null (find h p i))

-- A slot that now leads to a node or an item.
filled-Good :
    (h i c : ℕ) (s : ℕ → Pointer) (q : Pointer)
    → Good (suc h) (node c s)
    → Good h q
    → Good (suc h) (node (if is_null (s (digit h i)) then inc c else c) (update s (digit h i) q))
unfolding Good
filled-Good h i c s q (e, all) g =
    let more = occupied-update s 64 (digit h i) q (digit-lt h i) in
    let some_q = Good-is_null h q g in
    let bound = occupied-le s 64 in
    write-Good h c (if is_null (s (digit h i)) then inc c else c) (digit h i) s q (e, all) (inr g)
      (ground arith)

pub Enough-more : (n k : ℕ) (m : List Bool) → k ≤ n → Enough n m → Enough k m
Enough-more n zero m le e = tt
Enough-more zero (suc k) m le e = absurd (omega arith)
Enough-more (suc n) (suc k) [] le e = absurd e
Enough-more (suc n) (suc k) (b ∷ m) le e = (e.0, Enough-more n k m (omega arith) e.1)

pub Enough-less : (n : ℕ) (m : List Bool) → Enough (suc n) m → Enough n m
Enough-less zero m e = tt
Enough-less (suc n) [] e = elim e [ ]
Enough-less (suc n) (b ∷ m) e = (e.0, Enough-less n m e.1)

-- One level: what the walk below a slot has done, written back to the slot.
level-Inserted :
    (h i c c' : ℕ) (s : ℕ → Pointer) (it : Pointer) (m : List Bool) (r : Bool × Pointer × List Bool)
    → c' ≡ (if is_null (s (digit h i)) then inc c else c)
    → Good (suc h) (node c s)
    → Good h r.1
    → ((j : ℕ) → find h r.1 j ≡ (if r.0 && same h i j then it else find h (s (digit h i)) j))
    → (r.0 ≡ true → is_null (find h (s (digit h i)) i) ≡ true)
    → (Enough (suc h) m → r.0 ≡ is_null (find h (s (digit h i)) i))
    → Inserted (suc h) i it (node c s) m (r.0, node c' (update s (digit h i) r.1), r.2)
unfolding Inserted find
level-Inserted h i c c' s it m r e g g' put clear enough = (
  subst (λ k. Good (suc h) (node k (update s (digit h i) r.1))) (sym e)
      (filled-Good h i c s r.1 g g'),
  λ j. write-find h c c' i j s it r.1 r.0 (put j),
  clear,
  enough,
)

-- A node that an insertion leaves alone.
unchanged :
    (h i : ℕ) (it p : Pointer) (m m' : List Bool)
    → Good h p
    → (Enough h m → false ≡ is_null (find h p i))
    → Inserted h i it p m (false, p, m')
unfolding Inserted
unchanged h i it p m m' g enough = (g, λ j. refl, λ f. ground arith, enough)

insert_leaf-Inserted :
    (i : ℕ) (it p : Pointer) (m : List Bool)
    → Good 0 it
    → Good 1 p
    → Inserted 1 i it p m (insert_walk 1 i it p m)
unfolding insert_walk Good find same
insert_leaf-Inserted i it null m g gp = absurd gp
insert_leaf-Inserted i it (item v) m g gp = absurd gp
insert_leaf-Inserted i it (node c s) m g gp = elim (Bool-cases (is_null (s (digit 0 i)))) [
  | inr e ↦ rw e (unchanged 1 i it (node c s) m m gp (λ f. sym e))
  | inl e ↦ rw e (
      level-Inserted 0 i c (inc c) s it m (true, it, m) (rw e refl) gp g (λ j. refl) (λ f. e)
        (λ f. sym e))
]

-- The walk goes on below a node that stood in the slot.
down-Inserted :
    (h i c : ℕ) (s : ℕ → Pointer) (it : Pointer) (m : List Bool) (r : Bool × Pointer × List Bool)
    → Good (suc h) (node c s)
    → is_null (s (digit h i)) ≡ false
    → Inserted h i it (s (digit h i)) m r
    → Inserted (suc h) i it (node c s) m (r.0, node c (update s (digit h i) r.1), r.2)
unfolding Inserted
down-Inserted h i c s it m r g e (g', put, clear, enough) =
    level-Inserted h i c c s it m r (rw e refl) g g' put clear (λ f. enough (Enough-less h m f))

-- The walk goes on below a new node.
new-Inserted :
    (h i c : ℕ) (s : ℕ → Pointer) (it : Pointer) (m : List Bool) (a : Pointer × List Bool)
    (r : Bool × Pointer × List Bool)
    → Good (suc h) (node c s)
    → is_null (s (digit h i)) ≡ true
    → ((j : ℕ) → find h a.0 j ≡ null)
    → ((n : ℕ) → Enough (suc n) m → (is_null a.0 ≡ false) × Enough n a.1)
    → Inserted h i it a.0 a.1 r
    → Inserted (suc h) i it (node c s) m (r.0, node (inc c) (update s (digit h i) r.1), r.2)
unfolding Inserted
new-Inserted h i c s it m a r g e empty more (g', put, clear, enough) =
    let nothing : (j : ℕ) → find h (s (digit h i)) j ≡ null =
      λ j. ap (λ p. find h p j) (is_null-eq (s (digit h i)) e) ∙ find-null h j in
    level-Inserted h i c (inc c) s it m r (rw e refl) g g'
      (λ j. put j ∙ ap (λ p. if r.0 && same h i j then it else p) (empty j ∙ sym (nothing j)))
      (λ f. ap is_null (nothing i))
      (λ f. enough (more h f).1 ∙ ap is_null (empty i ∙ sym (nothing i)))

pub insert_walk-Inserted :
    (h i : ℕ) (it p : Pointer) (m : List Bool)
    → Good 0 it
    → Good (suc h) p
    → Inserted (suc h) i it p m (insert_walk (suc h) i it p m)
unfolding insert_walk Good find
insert_walk-Inserted zero i it p m g gp = insert_leaf-Inserted i it p m g gp
insert_walk-Inserted (suc h) i it null m g gp = absurd gp
insert_walk-Inserted (suc h) i it (item v) m g gp = absurd gp
insert_walk-Inserted (suc h) i it (node c s) m g gp =
    elim (Bool-cases (is_null (s (digit (suc h) i)))) [
      | inr e ↦
          rw (e, e)
            (down-Inserted (suc h) i c s it m (insert_walk (suc h) i it (s (digit (suc h) i)) m) gp
              e
              (insert_walk-Inserted h i it (s (digit (suc h) i)) m g
                (used-Good (suc h) c (digit (suc h) i) s gp (digit-lt (suc h) i) e)))
      | inl e ↦
          let a = radix_tree_node_alloc m in
          let (cases, more) = Fresh-cases h m in
          elim cases [
            | inl z ↦
                rw (e, z)
                  (unchanged (suc (suc h)) i it (node c s) m a.1 gp
                    (λ f. absurd (true≢false (sym (ap is_null z) ∙ (more (suc h) f).0))))
            | inr (good, some_node, empty) ↦
                rw (e, some_node)
                  (new-Inserted (suc h) i c s it m a (insert_walk (suc h) i it a.0 a.1) gp e empty
                    more (insert_walk-Inserted h i it a.0 a.1 g good))
          ]
    ]
