-- ===== src/Sync/RtMutex/Held.antt =====
-- kernel/sync/rtmutex.c: the lists of held locks, and the owners of the locks.
use rucix_kernel.Common.{
  ℕ, ◌≡◌, sym, ◌∙◌, ap, subst, Bool, false, ◌&&◌, not, Option, none, some, List, [], ◌∷◌, ◌==◌,
  if◌then◌else◌, Bool-cases, inl, inr, arith,
}
use rucix_kernel.Common.Chain.{has, Distinct}
use rucix_kernel.Common.Chain.Unlink.{erase, Distinct-erase}
use rucix_kernel.Sync.RtMutex.{Rt}

abbrev pub owns : Option ℕ → ℕ → Bool
owns none p = false
owns (some o) p = o == p

-- A process has exactly the locks in its list that name it as their owner, each once.
abbrev pub Agree : (ℕ → List ℕ) → (ℕ → Option ℕ) → Type 0
Agree held owner = ((p l : ℕ) → has l (held p) ≡ owns (owner l) p) × ((p : ℕ) → Distinct (held p))

abbrev pub held_by : Rt → ℕ → List ℕ
held_by s p = (s.procs p).held_locks

abbrev pub owner_of : Rt → ℕ → Option ℕ
owner_of s l = (s.locks l).owner

unfoldable pub Holds : Rt → Type 0
Holds s = Agree (held_by s) (owner_of s)

has-erase_other :
    (x p : ℕ) (xs : List ℕ) → Distinct xs → has x (erase p xs) ≡ (not (x == p) && has x xs)
has-erase_other x p [] d = ground arith
has-erase_other x p (y ∷ ys) (out, d) = elim (Bool-cases (y == p)) [
  | inl e ↦ rw e (elim (Bool-cases (x == y)) [
    | inl f ↦
        let same : y ≡ x = ground arith in
        let gone : has x ys ≡ false = subst (λ z. has z ys ≡ false) same out in ground arith
    | inr f ↦ ground arith
  ])
  | inr e ↦ rw e (ground (arith, has-erase_other x p ys d))
]

module _ (held held' : ℕ → List ℕ) (owner owner' : ℕ → Option ℕ) (agree : Agree held owner) where
  pub same-Agree :
      ((p : ℕ) → held' p ≡ held p) → ((l : ℕ) → owner' l ≡ owner l) → Agree held' owner'
  same-Agree h o = (
    λ p l. ap (has l) (h p) ∙ agree.0 p l ∙ ap (λ x. owns x p) (sym (o l)),
    λ p. subst Distinct (sym (h p)) (agree.1 p),
  )

  pub take-Agree :
      (me l : ℕ)
      → owner l ≡ none
      → ((p : ℕ) → held' p ≡ (if me == p then l ∷ held me else held p))
      → ((k : ℕ) → owner' k ≡ (if l == k then some me else owner k))
      → Agree held' owner'
  take-Agree me l free h o = (
    λ p k. ap (has k) (h p) ∙ taken p k ∙ ap (λ x. owns x p) (sym (o k)),
    λ p. subst Distinct (sym (h p)) (distinct p),
  )
    where
      none_before : (p : ℕ) → has l (held p) ≡ false
      none_before p = agree.0 p l ∙ ap (λ x. owns x p) free

      distinct : (p : ℕ) → Distinct (if me == p then l ∷ held me else held p)
      distinct p = elim (Bool-cases (me == p)) [
        | inl e ↦ rw e (none_before me, agree.1 me)
        | inr e ↦ rw e (agree.1 p)
      ]

      taken :
          (p k : ℕ)
          → has k (if me == p then l ∷ held me else held p)
            ≡ owns (if l == k then some me else owner k) p
      taken p k = elim (Bool-cases (l == k)) [
        | inl f ↦
            let same : l ≡ k = ground arith in
            let before : has k (held p) ≡ false =
              subst (λ j. has j (held p) ≡ false) same (none_before p) in
            elim (Bool-cases (me == p)) [
              | inl e ↦ rw (e, f) (ground arith)
              | inr e ↦ rw (e, f) (before ∙ sym e)
            ]
        | inr f ↦ elim (Bool-cases (me == p)) [
          | inl e ↦
              let mine : me ≡ p = ground arith in
              rw (e, f)
                (subst (λ j. has k (l ∷ held me) ≡ owns (owner k) j) mine
                  (ground (arith, agree.0 me k)))
          | inr e ↦ rw (e, f) (agree.0 p k)
        ]
      ]

  pub free-Agree :
      (me l : ℕ)
      → owner l ≡ some me
      → ((p : ℕ) → held' p ≡ (if me == p then erase l (held me) else held p))
      → ((k : ℕ) → owner' k ≡ (if l == k then none else owner k))
      → Agree held' owner'
  free-Agree me l mine h o = (
    λ p k. ap (has k) (h p) ∙ freed p k ∙ ap (λ x. owns x p) (sym (o k)),
    λ p. subst Distinct (sym (h p)) (distinct p),
  )
    where
      distinct : (p : ℕ) → Distinct (if me == p then erase l (held me) else held p)
      distinct p = elim (Bool-cases (me == p)) [
        | inl e ↦ rw e (Distinct-erase l (held me) (agree.1 me))
        | inr e ↦ rw e (agree.1 p)
      ]

      freed :
          (p k : ℕ)
          → has k (if me == p then erase l (held me) else held p)
            ≡ owns (if l == k then none else owner k) p
      freed p k = elim (Bool-cases (me == p)) [
        | inl e ↦
            let same : me ≡ p = ground arith in
            rw e (
              has-erase_other k l (held me) (agree.1 me)
              ∙ subst
                  (λ j.
                    (not (k == l) && has k (held me)) ≡ owns (if l == k then none else owner k) j)
                  same
                  (elim (Bool-cases (l == k)) [
                    | inl f ↦ rw f (ground arith)
                    | inr f ↦ rw f (ground (arith, agree.0 me k))
                  ]))
        | inr e ↦ elim (Bool-cases (l == k)) [
          | inr f ↦ rw (e, f) (agree.0 p k)
          | inl f ↦
              let same : l ≡ k = ground arith in
              rw (e, f)
                (agree.0 p k ∙ ap (λ j. owns (owner j) p) (sym same) ∙ ap (λ x. owns x p) mine ∙ e)
        ]
      ]
