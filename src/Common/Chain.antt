-- ===== src/Common/Chain.antt =====
-- Singly linked lists: records at addresses, each with a `next` pointer; `none` is the null pointer.
pub mod Unlink
use Prim.Native.Nat.{ℕ, zero, suc, ◌<◌}
use mathlib.Core.Path.{◌≡◌, refl, sym, subst}
use mathlib.Core.Logic.{inl, inr}
use mathlib.Core.Bool.{Bool, true, false, ◌||◌}
use mathlib.Core.List.{List, [], ◌∷◌, ◌++◌, append-nil}
use mathlib.Core.Option.{Option, none, some}
use native.Mathlib.Omega.{arith}
use rucix_kernel.Common.Tests.{◌==◌, if◌then◌else◌, Bool-cases}
use rucix_kernel.Common.Lists.{length}

-- a write of one cell
unfoldable pub update {ℓ} : {A : Type ℓ} → (ℕ → A) → ℕ → A → ℕ → A
update f i v j = if i == j then v else f j

-- A field of what a cell holds after a write.
pub update_field {ℓ} :
    {A B : Type ℓ} (get : A → B) (f : ℕ → A) (i : ℕ) (v : A) (j : ℕ)
    → get (update f i v j) ≡ (if i == j then get v else get (f j))
unfolding update
update_field get f i v j = elim (Bool-cases (i == j)) [ inl e ↦ rw e refl | inr e ↦ rw e refl ]

abbrev pub has : ℕ → List ℕ → Bool
has x [] = false
has x (y ∷ ys) = (x == y) || has x ys

abbrev pub Distinct : List ℕ → Type 0
Distinct [] = Unit {0}
Distinct (x ∷ xs) = (has x xs ≡ false) × Distinct xs

-- From `p` the `next` pointers lead through `xs` to the null pointer.
abbrev pub Chain : (ℕ → Option ℕ) → Option ℕ → List ℕ → Type 0
Chain next p [] = p ≡ none
Chain next p (x ∷ xs) = (p ≡ some x) × Chain next (next x) xs

abbrev pub last_or : Option ℕ → List ℕ → Option ℕ
last_or d [] = d
last_or d (x ∷ xs) = last_or (some x) xs

abbrev pub head? : List ℕ → Option ℕ
head? [] = none
head? (x ∷ xs) = some x

abbrev pub is_last : ℕ → List ℕ → Bool
is_last y [] = false
is_last y (x ∷ []) = y == x
is_last y (x ∷ z ∷ xs) = is_last y (z ∷ xs)

-- The items before the first that satisfies `stop`, and the items from it on.
abbrev pub before : (ℕ → Bool) → List ℕ → List ℕ
before stop [] = []
before stop (x ∷ xs) = if stop x then [] else x ∷ before stop xs

abbrev pub from_first : (ℕ → Bool) → List ℕ → List ℕ
from_first stop [] = []
from_first stop (x ∷ xs) = if stop x then x ∷ xs else from_first stop xs

pub before-append-from_first :
    (stop : ℕ → Bool) (xs : List ℕ) → before stop xs ++ from_first stop xs ≡ xs
before-append-from_first stop [] = refl
before-append-from_first stop (x ∷ xs) = ground (arith, before-append-from_first stop xs)

-- `while (curr && !stop(curr)) { prev = curr; curr = curr->next; }` with fuel: where it stops.
unfoldable pub walk :
    (ℕ → Bool) → (ℕ → Option ℕ) → ℕ → Option ℕ → Option ℕ → Option (Option ℕ × Option ℕ)
walk stop next zero prev curr = none
walk stop next (suc fuel) prev none = some (prev, none)
walk stop next (suc fuel) prev (some x) =
    let rest = walk stop next fuel (some x) (next x) in if stop x then some (prev, some x) else rest

-- On a chain shorter than the fuel the walk ends at the first item that satisfies `stop`.
pub walk-before :
    (stop : ℕ → Bool) (next : ℕ → Option ℕ) (fuel : ℕ) (prev curr : Option ℕ) (xs : List ℕ)
    → Chain next curr xs
    → length xs < fuel
    → walk stop next fuel prev curr
      ≡ some (last_or prev (before stop xs), head? (from_first stop xs))
unfolding walk
walk-before stop next zero prev curr xs c h = absurd (omega arith)
walk-before stop next (suc fuel) prev curr [] c h = rw c
walk-before stop next (suc fuel) prev curr (x ∷ xs) c h =
    rw c.0 (ground (arith, walk-before stop next fuel (some x) (next x) xs c.1))

pub is_last-mem : (y : ℕ) (xs : List ℕ) → is_last y xs ≡ true → has y xs ≡ true
is_last-mem y [] h = ground arith
is_last-mem y (x ∷ []) h = ground arith
is_last-mem y (x ∷ z ∷ xs) h = ground (arith, is_last-mem y (z ∷ xs))

abbrev pub relink : Option ℕ → Option ℕ → List ℕ → Option ℕ
relink h target [] = target
relink h target (_ ∷ _) = h

-- Sending the last pointer of the front part `ys` to a chain `ws` gives the chain `ys ++ ws`.
pub splice :
    (next next' : ℕ → Option ℕ) (h target : Option ℕ) (ys zs ws : List ℕ)
    → Chain next h (ys ++ zs)
    → Distinct ys
    → ((y : ℕ) → has y ys ≡ true → next' y ≡ (if is_last y ys then target else next y))
    → Chain next' target ws
    → Chain next' (relink h target ys) (ys ++ ws)
splice next next' h target [] zs ws c d same t = t
splice next next' h target (y ∷ []) zs ws c d same t =
    let e : next' y ≡ target = ground (arith, same y) in
    (c.0, subst (λ p. Chain next' p ws) (sym e) t)
splice next next' h target (y ∷ z ∷ ys) zs ws c d same t =
    let e : next' y ≡ next y = ground (arith, same y, is_last-mem y (z ∷ ys)) in
    (
      c.0,
      subst (λ p. Chain next' p (z ∷ ys ++ ws)) (sym e)
          (splice next next' (next y) target (z ∷ ys) zs ws c.1 d.1 (λ x i. ground (arith, same x))
            t),
    )

-- A chain survives a change that spares its own cells.
pub frame :
    (next next' : ℕ → Option ℕ) (h : Option ℕ) (xs : List ℕ)
    → Chain next h xs
    → ((y : ℕ) → has y xs ≡ true → next' y ≡ next y)
    → Chain next' h xs
frame next next' h [] c same = c
frame next next' h (x ∷ xs) c same =
    let e : next' x ≡ next x = ground (arith, same x) in
    (
      c.0,
      subst (λ p. Chain next' p xs) (sym e)
          (frame next next' (next x) xs c.1 (λ y i. ground (arith, same y))),
    )

-- The last item of a list that is not empty.
pub last_of :
    (x : ℕ) (xs : List ℕ)
    → (t : ℕ) × (last_or (some x) xs ≡ some t)
      × ((y : ℕ) → is_last y (x ∷ xs) ≡ (y == t))
      × (has t (x ∷ xs) ≡ true)
last_of x [] = (x, refl, λ y. refl, ground arith)
last_of x (z ∷ xs) = let (t, e, l, m) = last_of z xs in (t, e, l, ground arith)

pub last_or-snoc : (d : Option ℕ) (xs : List ℕ) (p : ℕ) → last_or d (xs ++ p ∷ []) ≡ some p
last_or-snoc d [] p = refl
last_or-snoc d (x ∷ xs) p = last_or-snoc (some x) xs p

pub has-append : (a : ℕ) (xs ys : List ℕ) → has a (xs ++ ys) ≡ (has a xs || has a ys)
has-append a [] ys = refl
has-append a (x ∷ xs) ys = ground (arith, has-append a xs ys)

pub Distinct-snoc : (xs : List ℕ) (p : ℕ) → Distinct xs → has p xs ≡ false → Distinct (xs ++ p ∷ [])
Distinct-snoc [] p d out = (refl, tt)
Distinct-snoc (x ∷ xs) p d out =
    (ground (arith, has-append x xs (p ∷ [])), Distinct-snoc xs p d.1 (ground arith))

pub last_or-append :
    (d : Option ℕ) (xs ys : List ℕ) → last_or d (xs ++ ys) ≡ last_or (last_or d xs) ys
last_or-append d [] ys = refl
last_or-append d (x ∷ xs) ys = last_or-append (some x) xs ys

pub Distinct-append :
    (xs ys : List ℕ)
    → Distinct (xs ++ ys)
    → Distinct xs × Distinct ys × ((y : ℕ) → has y xs ≡ true → has y ys ≡ false)
Distinct-append [] ys d = (tt, d, λ y i. ground arith)
Distinct-append (x ∷ xs) ys d =
    let (dx, dy, apart) = Distinct-append xs ys d.1 in
    (
      (ground (arith, has-append x xs ys, d.0), dx),
      dy,
      λ y i. ground (arith, has-append x xs ys, d.0, apart y),
    )
