-- ===== src/Radix/Find.antt =====
-- kernel/lib/radix-tree.c: what stands at an index below a node, and the nodes that are well formed.
use mathlib.Core.Bool.{true≢false}
use rucix_kernel.Common.{
  ℕ, zero, suc, ◌+◌, ◌≤◌, ◌<◌, ◌≡◌, ◌⊎◌, refl, sym, ◌∙◌, ap, Bool, true, false, ◌&&◌, ◌==◌,
  if◌then◌else◌, Bool-cases, inl, inr, arith,
}
use rucix_kernel.Common.Chain.{update}
use rucix_kernel.Radix.{Pointer, null, item, node, slots, is_null, digit, lookup_walk}
use rucix_kernel.Radix.Digits.{same}

-- What `h` levels of slots lead to.
unfoldable pub find : ℕ → Pointer → ℕ → Pointer
find zero p i = p
find (suc h) p i = find h (slots p (digit h i)) i

-- The slots below `n` that are in use.
unfoldable pub occupied : (ℕ → Pointer) → ℕ → ℕ
occupied s zero = 0
occupied s (suc n) = (if is_null (s n) then 0 else 1) + occupied s n

-- A node of height `h` counts its slots, each of which is empty or leads to a node one level lower;
-- at height 0 stand the items.
unfoldable pub Good : ℕ → Pointer → Type 0
Good zero null = ⊥
Good zero (item v) = Unit {0}
Good zero (node c s) = ⊥
Good (suc h) null = ⊥
Good (suc h) (item v) = ⊥
Good (suc h) (node c s) = (c ≡ occupied s 64) × ((o : ℕ) → o < 64 → (s o ≡ null) ⊎ Good h (s o))

-- An empty slot, or one that leads to a node.
abbrev pub Child : ℕ → Pointer → Type 0
Child h p = (p ≡ null) ⊎ Good h p

pub null-cases : (p : Pointer) → ((p ≡ null) × (is_null p ≡ true)) ⊎ (is_null p ≡ false)
null-cases null = inl (refl, refl)
null-cases (item v) = inr refl
null-cases (node c s) = inr refl

pub is_null-eq : (p : Pointer) → is_null p ≡ true → p ≡ null
is_null-eq null e = refl
is_null-eq (item v) e = ground arith
is_null-eq (node c s) e = ground arith

pub Good-is_null : (h : ℕ) (p : Pointer) → Good h p → is_null p ≡ false
unfolding Good
Good-is_null zero null g = absurd g
Good-is_null zero (item v) g = refl
Good-is_null zero (node c s) g = refl
Good-is_null (suc h) null g = absurd g
Good-is_null (suc h) (item v) g = refl
Good-is_null (suc h) (node c s) g = refl

pub find-null : (h i : ℕ) → find h null i ≡ null
unfolding find
find-null zero i = refl
find-null (suc h) i = find-null h i

pub lookup_walk-find : (h i : ℕ) (p : Pointer) → lookup_walk (suc h) i p ≡ find (suc h) p i
unfolding lookup_walk find
lookup_walk-find zero i p = refl
lookup_walk-find (suc h) i p = elim (null-cases (slots p (digit (suc h) i))) [
  | inl (e, z) ↦ rw z (sym (ap (λ q. find (suc h) q i) e ∙ find-null (suc h) i))
  | inr e ↦ rw e (lookup_walk-find h i (slots p (digit (suc h) i)))
]

pub occupied-le : (s : ℕ → Pointer) (n : ℕ) → occupied s n ≤ n
unfolding occupied
occupied-le s zero = omega arith
occupied-le s (suc n) = ground (arith, occupied-le s n)

pub occupied-zero : (s : ℕ → Pointer) (n o : ℕ) → occupied s n ≡ 0 → o < n → is_null (s o) ≡ true
unfolding occupied
occupied-zero s zero o e lt = absurd (omega arith)
occupied-zero s (suc n) o e lt = elim (Bool-cases (o == n)) [
  | inl q ↦ let o≡n : o ≡ n = ground arith in rw o≡n (ground arith)
  | inr q ↦ occupied-zero s n o (ground arith) (ground arith)
]

occupied-congr :
    (s t : ℕ → Pointer) (n : ℕ) → ((o : ℕ) → o < n → s o ≡ t o) → occupied s n ≡ occupied t n
unfolding occupied
occupied-congr s t zero same = refl
occupied-congr s t (suc n) same =
    rw (same n (omega arith), occupied-congr s t n (λ o lt. same o (omega arith))) refl

-- A write to a slot changes the count by that slot.
pub occupied-update :
    (s : ℕ → Pointer) (n o : ℕ) (p : Pointer)
    → o < n
    → occupied (update s o p) n + (if is_null (s o) then 0 else 1)
      ≡ occupied s n + (if is_null p then 0 else 1)
unfolding occupied update
occupied-update s zero o p lt = absurd (omega arith)
occupied-update s (suc n) o p lt = elim (Bool-cases (o == n)) [
  | inl e ↦
      let o≡n : o ≡ n = ground arith in
      let rest : occupied (update s o p) n ≡ occupied s n =
        occupied-congr (update s o p) s n (λ k h. ground arith) in
      let here : is_null (s o) ≡ is_null (s n) = ap (λ k. is_null (s k)) o≡n in
      rw (e, rest, here) (omega arith)
  | inr e ↦ let rest = occupied-update s n o p (ground arith) in rw e (omega (arith, rest))
]

-- What a node is after a write to one slot.
pub write-Good :
    (h c c' o : ℕ) (s : ℕ → Pointer) (q : Pointer)
    → Good (suc h) (node c s)
    → Child h q
    → c' ≡ occupied (update s o q) 64
    → Good (suc h) (node c' (update s o q))
unfolding Good update
write-Good h c c' o s q (e, all) g e' =
    (e', λ k lt. elim (Bool-cases (o == k)) [ inl f ↦ rw f g | inr f ↦ rw f (all k lt) ])

pub write-find :
    (h c c' i j : ℕ) (s : ℕ → Pointer) (it q : Pointer) (b : Bool)
    → find h q j ≡ (if b && same h i j then it else find h (s (digit h i)) j)
    → find (suc h) (node c' (update s (digit h i) q)) j
      ≡ (if b && same (suc h) i j then it else find (suc h) (node c s) j)
unfolding find same update
write-find h c c' i j s it q b e = elim (Bool-cases (digit h i == digit h j)) [
  | inl f ↦
      let d : digit h i ≡ digit h j = ground arith in
      rw f (e ∙ ap (λ k. if b && same h i j then it else find h (s k) j) d)
  | inr f ↦ rw f (ground arith)
]

-- A slot that is in use leads to a node.
pub used-Good :
    (h c o : ℕ) (s : ℕ → Pointer)
    → Good (suc h) (node c s)
    → o < 64
    → is_null (s o) ≡ false
    → Good h (s o)
unfolding Good
used-Good h c o s g lt e = elim (g.1 o lt) [
  | inl z ↦ absurd (true≢false (sym (ap is_null z) ∙ e))
  | inr good ↦ good
]
