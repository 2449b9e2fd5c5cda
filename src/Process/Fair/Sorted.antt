-- ===== src/Process/Fair/Sorted.antt =====
-- Lists sorted by a key, and insertion behind the items with the same key.
use rucix_kernel.Common.{
  ℕ, ◌≤◌, ◌≡◌, refl, ap, true, false, ◌||◌, List, [], ◌∷◌, ◌++◌, arith, ltb, ◌==◌, if◌then◌else◌,
  Bool-cases, inl, inr,
}
use rucix_kernel.Common.Chain.{has, Distinct, before, from_first}
use rucix_kernel.Common.Chain.Unlink.{erase}

module _ (key : ℕ → ℕ) where
  abbrev pub IsSorted : List ℕ → Type 0
  IsSorted [] = Unit {0}
  IsSorted (x ∷ []) = Unit {0}
  IsSorted (x ∷ y ∷ xs) = (key x ≤ key y) × IsSorted (y ∷ xs)

  abbrev pub insert_by : ℕ → List ℕ → List ℕ
  insert_by p [] = p ∷ []
  insert_by p (x ∷ xs) = if ltb (key p) (key x) then p ∷ x ∷ xs else x ∷ insert_by p xs

  pub insert_by-split :
      (p : ℕ) (xs : List ℕ)
      → let stop = λ (x : ℕ). ltb (key p) (key x) in
        before stop xs ++ p ∷ from_first stop xs ≡ insert_by p xs
  insert_by-split p [] = refl
  insert_by-split p (x ∷ xs) = ground (arith, insert_by-split p xs)

  pub has-insert_by : (p y : ℕ) (xs : List ℕ) → has y (insert_by p xs) ≡ ((y == p) || has y xs)
  has-insert_by p y [] = refl
  has-insert_by p y (x ∷ xs) = ground (arith, has-insert_by p y xs)

  pub Distinct-insert_by :
      (p : ℕ) (xs : List ℕ) → Distinct xs → has p xs ≡ false → Distinct (insert_by p xs)
  Distinct-insert_by p [] d o = (refl, tt)
  Distinct-insert_by p (x ∷ xs) d o = elim (Bool-cases (ltb (key p) (key x))) [
    | inl e ↦ rw e (o, d)
    | inr ne ↦
        rw ne
          (ground (arith, has-insert_by p x xs, d.0), Distinct-insert_by p xs d.1 (ground arith))
  ]

  pub IsSorted-insert_by : (p : ℕ) (xs : List ℕ) → IsSorted xs → IsSorted (insert_by p xs)
  IsSorted-insert_by p [] s = tt
  IsSorted-insert_by p (x ∷ []) s = ground arith
  IsSorted-insert_by p (x ∷ y ∷ xs) s = elim (Bool-cases (ltb (key p) (key x))) [
    | inl e ↦ rw e (ground arith, s)
    | inr ne ↦
        let rec = IsSorted-insert_by p (y ∷ xs) s.1 in
        rw ne (elim (Bool-cases (ltb (key p) (key y))) [
          | inl e ↦ rw e (ground arith, (rw e at rec))
          | inr ge ↦ rw ge (s.0, (rw ge at rec))
        ])
  ]

  -- The head of a sorted list has the least key.
  pub head-least : (p y : ℕ) (xs : List ℕ) → IsSorted (p ∷ xs) → has y xs ≡ true → key p ≤ key y
  head-least p y [] s i = ground arith
  head-least p y (x ∷ xs) s i = ground (arith, head-least x y xs, ap key)

module _ (key : ℕ → ℕ) where
  pub IsSorted-tail : (x : ℕ) (xs : List ℕ) → IsSorted key (x ∷ xs) → IsSorted key xs
  IsSorted-tail x [] s = tt
  IsSorted-tail x (y ∷ xs) s = s.1

  IsSorted-skip : (x y : ℕ) (xs : List ℕ) → IsSorted key (x ∷ y ∷ xs) → IsSorted key (x ∷ xs)
  IsSorted-skip x y [] s = tt
  IsSorted-skip x y (z ∷ xs) s = (omega arith, s.1.1)

  pub IsSorted-erase : (p : ℕ) (xs : List ℕ) → IsSorted key xs → IsSorted key (erase p xs)
  IsSorted-erase p [] s = tt
  IsSorted-erase p (x ∷ []) s = ground arith
  IsSorted-erase p (x ∷ y ∷ xs) s =
      let rec = IsSorted-erase p (y ∷ xs) s.1 in
      elim (Bool-cases (x == p)) [
        | inl e ↦ rw e s.1
        | inr ne ↦ rw ne (elim (Bool-cases (y == p)) [
          | inl e ↦ rw e (IsSorted-skip x y xs s)
          | inr ge ↦ rw ge (s.0, (rw ge at rec))
        ])
      ]
