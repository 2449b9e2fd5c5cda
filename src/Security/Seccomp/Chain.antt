-- ===== src/Security/Seccomp/Chain.antt =====
-- kernel/security/seccomp.c: the chain of a process's filters.
use rucix_kernel.Common.{
  ℕ, zero, suc, ◌^◌, ◌≤◌, ◌<◌, ◌≡◌, ◌≢◌, refl, ◌∙◌, subst, true, false, some, List, [], ◌∷◌, ◌++◌,
  arith, ◌==◌, if◌then◌else◌, get_elem?, length, inl, inr, Bool-cases, ◌⊎◌, bit_and,
}
use mathlib.Core.Option.{some-injective, none-ne-some}
use rucix_kernel.Security.Seccomp.{
  Inst, ret_action, ret_allow, returned, run_filter, start, check_filters,
}
use rucix_kernel.Security.Seccomp.Run.{TameProgram, run_tame}

-- The filter returns a value whose action is SECCOMP_RET_ALLOW.
abbrev pub Passes : ℕ → (ℕ → ℕ) → List Inst → Type 0
Passes fuel sd f =
    (r : ℕ) × (run_filter fuel f sd start ≡ returned r) × (bit_and r ret_action ≡ ret_allow)

-- The filter returns a value with another action.
abbrev pub Blocks : ℕ → (ℕ → ℕ) → List Inst → Type 0
Blocks fuel sd f =
    (r : ℕ) × (run_filter fuel f sd start ≡ returned r) × (bit_and r ret_action ≢ ret_allow)

-- The check lets the call through and every filter of the chain does, or it stops the call and some
-- filter of the chain does.
abbrev pub Checked : ℕ → (ℕ → ℕ) → List (List Inst) → Type 0
Checked fuel sd fs =
    ((check_filters fuel sd fs ≡ some true)
      × ((n : ℕ) (f : List Inst) → get_elem? fs n ≡ some f → Passes fuel sd f))
    ⊎ ((check_filters fuel sd fs ≡ some false)
        × (n : ℕ) × (f : List Inst) × (get_elem? fs n ≡ some f)
        × Blocks fuel sd f)

check_cons :
    (fuel : ℕ) (sd : ℕ → ℕ) (f : List Inst) (fs : List (List Inst)) (r : ℕ)
    → run_filter fuel f sd start ≡ returned r
    → check_filters fuel sd (f ∷ fs)
      ≡ (if bit_and r ret_action == ret_allow then check_filters fuel sd fs else some false)
unfolding check_filters
check_cons fuel sd f fs r e = rw (e, check_filters) refl

empty_chain : (fuel : ℕ) (sd : ℕ → ℕ) → check_filters fuel sd [] ≡ some true
unfolding check_filters
empty_chain fuel sd = refl

newest :
    (fuel : ℕ) (sd : ℕ → ℕ) (f : List Inst) (fs : List (List Inst))
    → check_filters fuel sd (f ∷ fs) ≡ some true
    → check_filters fuel sd fs ≡ some true
unfolding check_filters
newest fuel sd f fs h = ground arith

-- Every filter of the chain is tame and shorter than 2^16 instructions.
abbrev pub TameChain : List (List Inst) → Type 0
TameChain fs =
    (n : ℕ) (f : List Inst) → get_elem? fs n ≡ some f → TameProgram f × (length f < 2 ^ 16)

pub chain_nil : TameChain []
chain_nil n f e = absurd (none-ne-some _ e)

pub chain_cons :
    (f : List Inst) (fs : List (List Inst))
    → TameProgram f
    → length f < 2 ^ 16
    → TameChain fs
    → TameChain (f ∷ fs)
chain_cons f fs t l rest zero g e =
    subst (λ h. TameProgram h × (length h < 2 ^ 16)) (some-injective _ _ e) (t, l)
chain_cons f fs t l rest (suc n) g e = rest n g e

runs :
    (fuel : ℕ) (sd : ℕ → ℕ) (f : List Inst)
    → 2 ^ 16 ≤ fuel
    → TameProgram f
    → length f < 2 ^ 16
    → (r : ℕ) × (run_filter fuel f sd start ≡ returned r)
runs zero sd f enough t l = absurd (omega arith)
runs (suc fuel) sd f enough t l = run_tame fuel f sd start t l (omega arith) (omega arith)

Passes-cons :
    (fuel : ℕ) (sd : ℕ → ℕ) (f : List Inst) (fs : List (List Inst))
    → Passes fuel sd f
    → ((n : ℕ) (g : List Inst) → get_elem? fs n ≡ some g → Passes fuel sd g)
    → (n : ℕ) (g : List Inst) → get_elem? (f ∷ fs) n ≡ some g
    → Passes fuel sd g
Passes-cons fuel sd f fs p all zero g e = subst (λ h. Passes fuel sd h) (some-injective _ _ e) p
Passes-cons fuel sd f fs p all (suc n) g e = all n g e

-- For a chain of tame filters, all shorter than 2^16 instructions, and 2^16 rounds or more for each
-- run, the check always comes to an answer. It lets the system call through exactly when every
-- filter of the chain returns a value whose action is SECCOMP_RET_ALLOW, and stops it when some
-- filter returns a value with another action.
pub check_filters-Checked :
    (fuel : ℕ) (sd : ℕ → ℕ) (fs : List (List Inst))
    → 2 ^ 16 ≤ fuel
    → TameChain fs
    → Checked fuel sd fs
check_filters-Checked fuel sd [] enough tame =
    inl (empty_chain fuel sd, λ n f e. absurd (none-ne-some _ e))
check_filters-Checked fuel sd (f ∷ fs) enough tame =
    let (t, l) = tame 0 f refl in
    let (r, e) = runs fuel sd f enough t l in
    elim (Bool-cases (bit_and r ret_action == ret_allow)) [
      | inr b ↦ inr (check_cons fuel sd f fs r e ∙ rw b refl, 0, f, refl, (r, e, ground arith))
      | inl b ↦
          let step : check_filters fuel sd (f ∷ fs) ≡ check_filters fuel sd fs =
            check_cons fuel sd f fs r e ∙ rw b refl in
          elim (check_filters-Checked fuel sd fs enough (λ n. tame (suc n))) [
            | inl (c, all) ↦ inl (step ∙ c, Passes-cons fuel sd f fs (r, e, ground arith) all)
            | inr (c, n, g, at, bad) ↦ inr (step ∙ c, suc n, g, at, bad)
          ]
    ]

-- A filter attached later only restricts: a call that passes a chain passes what the chain was
-- before the newest filters were attached.
pub check_filters-append :
    (fuel : ℕ) (sd : ℕ → ℕ) (newer older : List (List Inst))
    → check_filters fuel sd (newer ++ older) ≡ some true
    → check_filters fuel sd older ≡ some true
check_filters-append fuel sd [] older h = h
check_filters-append fuel sd (f ∷ newer) older h =
    check_filters-append fuel sd newer older (newest fuel sd f (newer ++ older) h)
