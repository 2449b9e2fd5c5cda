-- ===== src/Common/Lists.antt =====
-- Lists measured and indexed by native numbers, under the library's names.
use Prim.Native.Nat.{ℕ, zero, suc, ◌+◌, ◌<◌, ◌≤◌}
use mathlib.Core.Path.{◌≡◌, refl, ap, ap₂}
use mathlib.Core.List.{List, [], ◌∷◌, ◌++◌}
use mathlib.Core.Option.{Option, none, some}
use native.Mathlib.Omega.{arith}

module _ {ℓ} {A : Type ℓ} where
  abbrev pub length : List A → ℕ
  length [] = 0
  length (x ∷ xs) = suc (length xs)

  abbrev pub get_elem? : List A → ℕ → Option A
  get_elem? [] i = none
  get_elem? (x ∷ xs) zero = some x
  get_elem? (x ∷ xs) (suc i) = get_elem? xs i

  pub get_elem?-some : (l : List A) (n : ℕ) → n < length l → (x : A) × (get_elem? l n ≡ some x)
  get_elem?-some [] n h = absurd (omega arith)
  get_elem?-some (x ∷ l) zero h = (x, refl)
  get_elem?-some (x ∷ l) (suc n) h = get_elem?-some l n (omega arith)

  pub get_elem?-none : (l : List A) (n : ℕ) → length l ≤ n → get_elem? l n ≡ none
  get_elem?-none [] n h = refl
  get_elem?-none (x ∷ l) zero h = absurd (omega arith)
  get_elem?-none (x ∷ l) (suc n) h = get_elem?-none l n (omega arith)

  pub length-append : (xs ys : List A) → length (xs ++ ys) ≡ length xs + length ys
  length-append [] ys = omega arith
  length-append (x ∷ xs) ys = omega (arith, length-append xs ys)

module _ {ℓ} {A : Type ℓ} where
  -- `g 0`, …, `g (n - 1)`
  abbrev pub tabulate : ℕ → (ℕ → A) → List A
  tabulate zero g = []
  tabulate (suc n) g = g 0 ∷ tabulate n (λ i. g (suc i))

  pub length-tabulate : (n : ℕ) (g : ℕ → A) → length (tabulate n g) ≡ n
  length-tabulate zero g = refl
  length-tabulate (suc n) g = ap suc (length-tabulate n (λ i. g (suc i)))

  pub tabulate-congr :
      (n : ℕ) (g h : ℕ → A) → ((i : ℕ) → i < n → g i ≡ h i) → tabulate n g ≡ tabulate n h
  tabulate-congr zero g h same = refl
  tabulate-congr (suc n) g h same =
      ap₂ ◌∷◌ (same 0 (omega arith))
        (tabulate-congr n (λ i. g (suc i)) (λ i. h (suc i)) (λ i lt. same (suc i) (omega arith)))

  pub tabulate-snoc : (n : ℕ) (g : ℕ → A) → tabulate (suc n) g ≡ tabulate n g ++ g n ∷ []
  tabulate-snoc zero g = refl
  tabulate-snoc (suc n) g = ap (λ l. g 0 ∷ l) (tabulate-snoc n (λ i. g (suc i)))

  abbrev pub take : ℕ → List A → List A
  take zero xs = []
  take (suc n) [] = []
  take (suc n) (x ∷ xs) = x ∷ take n xs

  abbrev pub drop : ℕ → List A → List A
  drop zero xs = xs
  drop (suc n) [] = []
  drop (suc n) (x ∷ xs) = drop n xs

pub take-nil {ℓ} : (A : Type ℓ) (n : ℕ) → take {A = A} n [] ≡ []
take-nil A zero = refl
take-nil A (suc n) = refl
