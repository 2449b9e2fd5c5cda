-- ===== src/Common/Chain/Unlink.antt =====
-- Singly linked lists: unlinking an item, and cutting a list.
use Prim.Native.Nat.{ℕ}
use mathlib.Core.Path.{◌≡◌, refl, sym, subst}
use mathlib.Core.Logic.{inl, inr}
use mathlib.Core.Bool.{Bool, true, false}
use mathlib.Core.List.{List, [], ◌∷◌, ◌++◌, append-nil}
use mathlib.Core.Option.{Option, none, some}
use native.Mathlib.Omega.{arith}
use rucix_kernel.Common.Tests.{◌==◌, if◌then◌else◌, Bool-cases}
use rucix_kernel.Common.Chain.{
  has, Distinct, Chain, last_or, head?, is_last, before, from_first, is_last-mem, relink, splice,
  frame, last_of, last_or-snoc, last_or-append, Distinct-append,
}

abbrev pub points_to : Option ℕ → ℕ → Bool
points_to none p = false
points_to (some q) p = q == p

abbrev pub or_head : Option ℕ → Option ℕ → Option ℕ → Option ℕ
or_head h none target = target
or_head h (some b) target = h

pub points_to-last_or : (ys : List ℕ) (y : ℕ) → points_to (last_or none ys) y ≡ is_last y ys
points_to-last_or [] y = refl
points_to-last_or (x ∷ xs) y = let (t, e, l, m) = last_of x xs in ground (arith, e, l y)

pub relink-or_head :
    (h target : Option ℕ) (ys : List ℕ) → relink h target ys ≡ or_head h (last_or none ys) target
relink-or_head h target [] = refl
relink-or_head h target (x ∷ xs) = let (t, e, _, _) = last_of x xs in rw e

pub Chain-drop :
    (next : ℕ → Option ℕ) (h : Option ℕ) (p : ℕ) (ys ws : List ℕ)
    → Chain next h (ys ++ p ∷ ws)
    → Chain next (next p) ws
Chain-drop next h p [] ws c = c.1
Chain-drop next h p (y ∷ ys) ws c = Chain-drop next (next y) p ys ws c.1

-- Unlinking `p` behind `prev`, the last of `ys`: `prev`'s pointer, or the head, takes what `p`
-- pointed to, and `p` points to nothing.
pub unlink-Chain :
    (next next' : ℕ → Option ℕ) (h : Option ℕ) (p : ℕ) (ys ws : List ℕ)
    → Chain next h (ys ++ p ∷ ws)
    → Distinct (ys ++ p ∷ ws)
    → ((y : ℕ)
        → next' y
          ≡ (if p == y then none else if points_to (last_or none ys) y then next p else next y))
    → Chain next' (or_head h (last_or none ys) (next p)) (ys ++ ws)
unlink-Chain next next' h p ys ws c d cells =
    subst (λ k. Chain next' k (ys ++ ws)) (relink-or_head h (next p) ys)
      (splice next next' h (next p) ys (p ∷ ws) ws c parts.0
        (λ y i. ground (arith, cells y, points_to-last_or ys y, parts.2 y))
        (frame next next' (next p) ws (Chain-drop next h p ys ws c) (λ y i.
          ground (arith, cells y, points_to-last_or ys y, parts.2 y, is_last-mem y ys, parts.1))))
  where
    parts : Distinct ys × Distinct (p ∷ ws) × ((y : ℕ) → has y ys ≡ true → has y (p ∷ ws) ≡ false)
    parts = Distinct-append ys (p ∷ ws) d

-- The list without the first `p`.
abbrev pub erase : ℕ → List ℕ → List ℕ
erase p [] = []
erase p (x ∷ xs) = if x == p then xs else x ∷ erase p xs

pub has-erase : (p x : ℕ) (xs : List ℕ) → has x (erase p xs) ≡ true → has x xs ≡ true
has-erase p x [] i = ground arith
has-erase p x (y ∷ ys) i = ground (arith, has-erase p x ys)

pub Distinct-erase : (p : ℕ) (xs : List ℕ) → Distinct xs → Distinct (erase p xs)
Distinct-erase p [] d = tt
Distinct-erase p (x ∷ xs) d = elim (Bool-cases (x == p)) [
  | inl e ↦ rw e d.1
  | inr ne ↦ rw ne (elim (Bool-cases (has x (erase p xs))) [
    | inl i ↦ ground (arith, has-erase p x xs i, d.0)
    | inr o ↦ (o, Distinct-erase p xs d.1)
  ])
]

-- A list that holds `p` is split by its first `p`.
pub record Split (p : ℕ) (xs : List ℕ) : Type 0 where
  pub front : List ℕ
  pub back : List ℕ
  pub whole : xs ≡ front ++ p ∷ back
  pub found : before (λ x. x == p) xs ≡ front
  pub hit : head? (from_first (λ x. x == p) xs) ≡ some p
  pub erased : erase p xs ≡ front ++ back

pub split_at : (p : ℕ) (xs : List ℕ) → has p xs ≡ true → Split p xs
split_at p [] i = absurd (ground arith)
split_at p (x ∷ xs) i = elim (Bool-cases (x == p)) [
  | inl e ↦ record {
    front = [];
    back = xs;
    whole = ground arith;
    found = rw e;
    hit = rw e (ground arith);
    erased = rw e;
  }
  | inr ne ↦
      let r = split_at p xs (ground arith) in
      record {
        front = x ∷ r.front;
        back = r.back;
        whole = ground (arith, r.whole);
        found = rw ne (ground (arith, r.found));
        hit = rw ne r.hit;
        erased = rw ne (ground (arith, r.erased));
      }
]

pub absent :
    (p : ℕ) (xs : List ℕ)
    → has p xs ≡ false
    → (from_first (λ x. x == p) xs ≡ []) × (erase p xs ≡ xs)
absent p [] o = (refl, refl)
absent p (x ∷ xs) o = ground (arith, absent p xs)

-- The tail pointer moves back exactly when the last item is unlinked.
pub unlink-tail :
    (p : ℕ) (ys ws : List ℕ)
    → Distinct (ys ++ p ∷ ws)
    → let old = last_or none (ys ++ p ∷ ws) in
      (if points_to old p then last_or none ys else old) ≡ last_or none (ys ++ ws)
unlink-tail p ys [] d = ground (arith, last_or-snoc none ys p, append-nil ys)
unlink-tail p ys (w ∷ ws) d =
    let (t, e, is, m) = last_of w ws in
    ground (
      arith,
      last_or-append none ys (p ∷ w ∷ ws),
      last_or-append none ys (w ∷ ws),
      (Distinct-append ys (p ∷ w ∷ ws) d).1,
      e,
      m,
    )

pub Chain-suffix :
    (next : ℕ → Option ℕ) (h : Option ℕ) (ys zs : List ℕ)
    → Chain next h (ys ++ zs)
    → Chain next (head? zs) zs
Chain-suffix next h [] [] c = refl
Chain-suffix next h [] (z ∷ zs) c = (refl, c.1)
Chain-suffix next h (y ∷ ys) zs c = Chain-suffix next (next y) ys zs c.1

-- Cutting the chain behind `p`.
pub cut :
    (next next' : ℕ → Option ℕ) (h : Option ℕ) (p : ℕ) (ys zs : List ℕ)
    → Chain next h (ys ++ p ∷ zs)
    → ((y : ℕ) → has y ys ≡ true → next' y ≡ next y)
    → next' p ≡ none
    → Chain next' h (ys ++ p ∷ [])
cut next next' h p [] zs c same e = (c.0, e)
cut next next' h p (y ∷ ys) zs c same e = (
  c.0,
  subst (λ k. Chain next' k (ys ++ p ∷ [])) (sym (same y (ground arith)))
      (cut next next' (next y) p ys zs c.1 (λ x i. same x (ground arith)) e),
)

pub Chain-head :
    (next : ℕ → Option ℕ) (h : Option ℕ) (p : ℕ) (ys zs : List ℕ)
    → Chain next h (ys ++ p ∷ zs)
    → (x : ℕ) × (h ≡ some x)
Chain-head next h p [] zs c = (p, c.0)
Chain-head next h p (y ∷ ys) zs c = (y, c.0)
