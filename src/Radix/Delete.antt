-- ===== src/Radix/Delete.antt =====
-- kernel/lib/radix-tree.c: the walk of a deletion, and the levels that it frees.
use rucix_kernel.Common.{
  ℕ, zero, suc, ◌≡◌, refl, sym, ◌∙◌, ap, true, false, Option, none, some, ◌==◌, if◌then◌else◌,
  Bool-cases, inl, inr, arith,
}
use rucix_kernel.Common.Chain.{update}
use rucix_kernel.Radix.{Pointer, null, item, node, dec, is_null, digit, delete_walk, kept}
use rucix_kernel.Radix.Digits.{digit-lt, same}
use rucix_kernel.Radix.Find.{
  find, occupied, Good, is_null-eq, Good-is_null, find-null, occupied-le, occupied-zero,
  occupied-update, write-Good, write-find, used-Good,
}

-- The pointer to a node, null when it is freed.
abbrev pub pointer : Option Pointer → Pointer
pointer none = null
pointer (some p) = p

abbrev pub KeptGood : ℕ → Option Pointer → Type 0
KeptGood h none = Unit {0}
KeptGood h (some p) = Good h p

-- What a deletion below a node leads to: the item at the index is gone, and nothing else.
unfoldable pub Deleted : ℕ → ℕ → Pointer → Option (Pointer × Option Pointer) → Type 0
Deleted h i p none = is_null (find h p i) ≡ true
Deleted h i p (some (it, q)) =
    (it ≡ find h p i)
    × (is_null it ≡ false)
    × KeptGood h q
    × ((j : ℕ) → find h (pointer q) j ≡ (if same h i j then null else find h p j))

kept-find :
    (h c j : ℕ) (s : ℕ → Pointer)
    → c ≡ occupied s 64
    → find (suc h) (pointer (kept c s)) j ≡ find (suc h) (node c s) j
unfolding find
kept-find h c j s e = elim (Bool-cases (c == 0)) [
  | inr f ↦ rw f refl
  | inl f ↦
      let z : occupied s 64 ≡ 0 = ground arith in
      let n = is_null-eq (s (digit h j)) (occupied-zero s 64 (digit h j) z (digit-lt h j)) in
      rw f (ap (λ p. find h p j) (sym n))
]

kept-KeptGood : (h c : ℕ) (s : ℕ → Pointer) → Good h (node c s) → KeptGood h (kept c s)
kept-KeptGood h c s g = elim (Bool-cases (c == 0)) [ inr f ↦ rw f g | inl f ↦ rw f tt ]

-- A slot that is cleared.
clear-Deleted :
    (h i c : ℕ) (s : ℕ → Pointer) (it : Pointer)
    → Good (suc h) (node c s)
    → is_null (s (digit h i)) ≡ false
    → it ≡ find h (s (digit h i)) i
    → is_null it ≡ false
    → ((j : ℕ) → find h null j ≡ (if same h i j then null else find h (s (digit h i)) j))
    → Deleted (suc h) i (node c s) (some (it, kept (dec c) (update s (digit h i) null)))
unfolding Deleted Good find
clear-Deleted h i c s it g used e nonnull gone =
    let s' = update s (digit h i) null in
    let left : dec c ≡ occupied s' 64 =
      ground (
        arith,
        g.0,
        used,
        occupied-le s 64,
        occupied-update s 64 (digit h i) null (digit-lt h i),
      ) in
    (
      e,
      nonnull,
      kept-KeptGood (suc h) (dec c) s'
          (write-Good h c (dec c) (digit h i) s null g (inl refl) left),
      λ j. kept-find h (dec c) j s' left ∙ write-find h c (dec c) i j s null null true (gone j),
    )

-- A node below a slot that stays.
stay-Deleted :
    (h i c : ℕ) (s : ℕ → Pointer) (it q : Pointer)
    → Good (suc h) (node c s)
    → is_null (s (digit h i)) ≡ false
    → it ≡ find h (s (digit h i)) i
    → is_null it ≡ false
    → Good h q
    → ((j : ℕ) → find h q j ≡ (if same h i j then null else find h (s (digit h i)) j))
    → Deleted (suc h) i (node c s) (some (it, some (node c (update s (digit h i) q))))
unfolding Deleted Good find
stay-Deleted h i c s it q g used e nonnull gq gone =
    let left : c ≡ occupied (update s (digit h i) q) 64 =
      ground (
        arith,
        g.0,
        used,
        Good-is_null h q gq,
        occupied-update s 64 (digit h i) q (digit-lt h i),
      ) in
    (
      e,
      nonnull,
      write-Good h c c (digit h i) s q g (inr gq) left,
      λ j. write-find h c c i j s null q true (gone j),
    )

nothing-Deleted :
    (h i c : ℕ) (s : ℕ → Pointer)
    → Good (suc h) (node c s)
    → is_null (s (digit h i)) ≡ true
    → Deleted (suc h) i (node c s) none
unfolding Deleted find
nothing-Deleted h i c s g e =
    ap is_null (ap (λ p. find h p i) (is_null-eq (s (digit h i)) e) ∙ find-null h i)

-- `some` of the way back: the slot is cleared when the node below it is freed.
abbrev back :
    ℕ → (ℕ → Pointer) → ℕ → Option (Pointer × Option Pointer) → Option (Pointer × Option Pointer)
back c s o none = none
back c s o (some (it, none)) = some (it, kept (dec c) (update s o null))
back c s o (some (it, some q)) = some (it, some (node c (update s o q)))

back-Deleted :
    (h i c : ℕ) (s : ℕ → Pointer) (r : Option (Pointer × Option Pointer))
    → Good (suc h) (node c s)
    → is_null (s (digit h i)) ≡ false
    → Deleted h i (s (digit h i)) r
    → Deleted (suc h) i (node c s) (back c s (digit h i) r)
unfolding Deleted find
back-Deleted h i c s none g used d = d
back-Deleted h i c s (some (it, none)) g used (e, nonnull, k, gone) =
    clear-Deleted h i c s it g used e nonnull gone
back-Deleted h i c s (some (it, some q)) g used (e, nonnull, k, gone) =
    stay-Deleted h i c s it q g used e nonnull k gone

pub delete_walk-Deleted :
    (h i : ℕ) (p : Pointer) → Good (suc h) p → Deleted (suc h) i p (delete_walk (suc h) i p)
unfolding delete_walk Good find same
delete_walk-Deleted h i null g = absurd g
delete_walk-Deleted h i (item v) g = absurd g
delete_walk-Deleted zero i (node c s) g = elim (Bool-cases (is_null (s (digit 0 i)))) [
  | inl e ↦ rw e (nothing-Deleted 0 i c s g e)
  | inr e ↦ rw e (clear-Deleted 0 i c s (s (digit 0 i)) g e refl e (λ j. refl))
]
delete_walk-Deleted (suc h) i (node c s) g = elim (Bool-cases (is_null (s (digit (suc h) i)))) [
  | inl e ↦ rw e (nothing-Deleted (suc h) i c s g e)
  | inr e ↦ rw e (
      back-Deleted (suc h) i c s (delete_walk (suc h) i (s (digit (suc h) i))) g e (
        delete_walk-Deleted h i (s (digit (suc h) i))
          (used-Good (suc h) c (digit (suc h) i) s g (digit-lt (suc h) i) e)))
]
