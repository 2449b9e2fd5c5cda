-- ===== src/Sync/Spin/Exclusion.antt =====
-- kernel/sync/spinlock.c: who is inside the lock.
use mathlib.Core.Bool.{true≢false}
use mathlib.Core.Option.{some-injective}
use rucix_kernel.Common.{
  ℕ, ◌-◌, ◌≡◌, ◌≢◌, ◌⊎◌, refl, sym, ◌∙◌, ap, subst, Bool, true, false, ◌&&◌, Option, none, some,
  ◌==◌, ==_refl, Bool-cases, inl, inr, arith,
}
use rucix_kernel.Common.Chain.{update}
use rucix_kernel.Sync.Spin.{
  Phase, outside, setting, polling, inside, Spin, owned_by, spinlock_acquire, test_and_set, poll,
  spinlock_release, SpinStep, acquire, set, look, leave,
}

-- The lock is locked when a process is inside, and its owner is that process.
abbrev pub Agree : Bool → Option ℕ → (ℕ → Phase) → Type 0
Agree locked owner phase =
    (locked ≡ true → (o : ℕ) × (owner ≡ some o) × (phase o ≡ inside))
    × ((p : ℕ) → phase p ≡ inside → (locked ≡ true) × (owner ≡ some p))

unfoldable pub Exclusive : Spin → Type 0
Exclusive s = Agree s.lock.locked s.lock.owner_pid s.phase

outside≢inside : outside ≢ inside
outside≢inside e = ground arith

pub update-same : (f : ℕ → Phase) (p : ℕ) (v : Phase) → update f p v p ≡ v
unfolding update
update-same f p v = rw (==_refl p) refl

pub update-other : (f : ℕ → Phase) (p q : ℕ) (v : Phase) → q ≢ p → update f p v q ≡ f q
unfolding update
update-other f p q v n = let e : (p == q) ≡ false = ground arith in rw e refl

-- A process that is not inside moves to where it is not inside.
module _ (locked : Bool) (owner : Option ℕ) (phase : ℕ → Phase) (p : ℕ)
    (agree : Agree locked owner phase) where
  move_outside-Agree :
      (v : Phase) → phase p ≢ inside → v ≢ inside → Agree locked owner (update phase p v)
  move_outside-Agree v out out' = (
    λ h.
        let (o, own, at) = agree.0 h in
        let other : o ≢ p = λ e. out (sym (ap phase e) ∙ at) in
        (o, own, update-other phase p o v other ∙ at),
    λ q h. elim (Bool-cases (q == p)) [
      | inl e ↦
          let same : q ≡ p = ground arith in
          absurd (out' (sym (update-same phase p v) ∙ ap (update phase p v) (sym same) ∙ h))
      | inr e ↦
          let other : q ≢ p = λ f. ground arith in
          agree.1 q (sym (update-other phase p q v other) ∙ h)
    ],
  )

  enter-Agree : locked ≡ false → Agree true (some p) (update phase p inside)
  enter-Agree free = (
    λ h. (p, refl, update-same phase p inside),
    λ q h. elim (Bool-cases (q == p)) [
      | inl e ↦ let same : p ≡ q = ground arith in (refl, ap some same)
      | inr e ↦
          let other : q ≢ p = λ f. ground arith in
          let was = agree.1 q (sym (update-other phase p q inside other) ∙ h) in
          absurd (true≢false (sym was.0 ∙ free))
    ],
  )

  leave-Agree : phase p ≡ inside → Agree false none (update phase p outside)
  leave-Agree at = (
    λ h. absurd (true≢false (sym h)),
    λ q h. elim (Bool-cases (q == p)) [
      | inl e ↦
          let same : q ≡ p = ground arith in
          absurd (
            outside≢inside
              (sym (update-same phase p outside) ∙ ap (update phase p outside) (sym same) ∙ h))
      | inr e ↦
          let other : q ≢ p = λ f. ground arith in
          let was = agree.1 q (sym (update-other phase p q outside other) ∙ h) in
          absurd (other (some-injective q p (sym was.1 ∙ (agree.1 p at).1)))
    ],
  )

not_mine :
    (p : ℕ) (s : Spin)
    → Exclusive s
    → s.phase p ≡ outside
    → (s.lock.locked && owned_by p s.lock.owner_pid) ≡ false
unfolding Exclusive
not_mine p s agree at = elim (Bool-cases s.lock.locked) [
  | inr e ↦ rw e refl
  | inl e ↦
      let (o, own, in_it) = agree.0 e in
      let other : o ≢ p = λ f. outside≢inside (sym at ∙ ap s.phase (sym f) ∙ in_it) in
      let differs : (o == p) ≡ false = ground (arith, other) in rw (e, own, differs) refl
]

setting≢inside : (t : ℕ) → setting t ≢ inside
setting≢inside t e = ground arith

polling≢inside : (t : ℕ) → polling t ≢ inside
polling≢inside t e = ground arith

acquire-Exclusive :
    (p : ℕ) (s : Spin) → Exclusive s → s.phase p ≡ outside → Exclusive (spinlock_acquire p s)
unfolding spinlock_acquire Exclusive
acquire-Exclusive p s agree at = rw (not_mine p s agree at) (
    move_outside-Agree s.lock.locked s.lock.owner_pid s.phase p agree (setting 1000)
      (λ e. outside≢inside (sym at ∙ e)) (setting≢inside 1000))

set-Exclusive :
    (p t : ℕ) (s : Spin) → Exclusive s → s.phase p ≡ setting t → Exclusive (test_and_set p t s)
unfolding test_and_set Exclusive
set-Exclusive p t s agree at = elim (Bool-cases s.lock.locked) [
  | inl e ↦ rw e (
      move_outside-Agree true s.lock.owner_pid s.phase p
        (subst (λ b. Agree b s.lock.owner_pid s.phase) e agree) (polling t)
        (λ f. setting≢inside t (sym at ∙ f)) (polling≢inside t))
  | inr e ↦ rw e (enter-Agree s.lock.locked s.lock.owner_pid s.phase p agree e)
]

look-Exclusive :
    (p t : ℕ) (s : Spin)
    → Exclusive s
    → s.phase p ≡ polling t
    → ((t ≡ 0) × (s.lock.locked ≡ true)) ⊎ Exclusive (poll p t s)
unfolding poll Exclusive
look-Exclusive p t s agree at =
    let moved = λ (v : Phase) (out : v ≢ inside).
      move_outside-Agree s.lock.locked s.lock.owner_pid s.phase p agree v
        (λ f. polling≢inside t (sym at ∙ f)) out in
    elim (Bool-cases s.lock.locked) [
      | inr e ↦ inr (
          rw e (
            subst (λ b. Agree b s.lock.owner_pid (update s.phase p (setting t))) e
              (moved (setting t) (setting≢inside t))))
      | inl e ↦ elim (Bool-cases (t == 0)) [
        | inl z ↦ inl (ground arith, e)
        | inr z ↦ inr (
            rw (e, z)
              (subst (λ b. Agree b s.lock.owner_pid (update s.phase p (polling (t - 1)))) e
                (moved (polling (t - 1)) (polling≢inside (t - 1)))))
      ]
    ]

leave-Exclusive :
    (p : ℕ) (s : Spin) → Exclusive s → s.phase p ≡ inside → Exclusive (spinlock_release p s)
unfolding spinlock_release Exclusive
leave-Exclusive p s agree at = leave-Agree s.lock.locked s.lock.owner_pid s.phase p agree at

-- Some process has waited for a lock that is held until its patience is at its end.
abbrev pub TimedOut : Spin → Type 0
TimedOut s = (p : ℕ) × (s.phase p ≡ polling 0) × (s.lock.locked ≡ true)

timed_out : (p t : ℕ) (s : Spin) → s.phase p ≡ polling t → t ≡ 0 → s.lock.locked ≡ true → TimedOut s
timed_out p t s at z e = (p, at ∙ ap polling z, e)

-- A state is exclusive when the lock is locked exactly while a process is inside, which is its owner; so
-- there is at most one. Every step of any process from such a state, the call by a process that is
-- outside included, leads to such a state, unless a process that waits for the lock has timed out.
pub SpinStep-Exclusive : (s s' : Spin) → Exclusive s → SpinStep s s' → TimedOut s ⊎ Exclusive s'
SpinStep-Exclusive _ _ h (acquire p s at) = inr (acquire-Exclusive p s h at)
SpinStep-Exclusive _ _ h (set p t s at) = inr (set-Exclusive p t s h at)
SpinStep-Exclusive _ _ h (leave p s at) = inr (leave-Exclusive p s h at)
SpinStep-Exclusive _ _ h (look p t s at) = elim (look-Exclusive p t s h at) [
  | inl (z, e) ↦ inl (timed_out p t s at z e)
  | inr done ↦ inr done
]
