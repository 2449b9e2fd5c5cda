-- ===== src/Sync/Spin/Timeout.antt =====
-- kernel/sync/spinlock.c: a process that waits for too long.
use rucix_kernel.Common.{
  ℕ, zero, suc, ◌-◌, ◌≡◌, ◌≢◌, refl, ◌∙◌, subst, true, false, some, ◌==◌, arith,
}
use rucix_kernel.Common.Steps.{Reachable, begin, go}
use rucix_kernel.Sync.Spin.{
  setting, polling, inside, Spin, move, test_and_set, poll, SpinStep, acquire, set, look, leave,
}
use rucix_kernel.Sync.Spin.Exclusion.{update-same, update-other}

-- Whose step it is.
abbrev pub mover : {s s' : Spin} → SpinStep s s' → ℕ
mover (acquire p s e) = p
mover (set p t s e) = p
mover (look p t s e) = p
mover (leave p s e) = p

abbrev pub StepOf : ℕ → Spin → Spin → Type 0
StepOf p s s' = (step : SpinStep s s') × (mover step ≡ p)

poll-last :
    (p : ℕ) (s : Spin)
    → s.lock.locked ≡ true
    → poll p 0 s ≡ move p (setting 0) (record { locked = false; owner_pid = s.lock.owner_pid }) s
unfolding poll
poll-last p s e = rw e refl

poll-next :
    (p t : ℕ) (s : Spin) → s.lock.locked ≡ true → poll p (suc t) s ≡ move p (polling t) s.lock s
unfolding poll
poll-next p t s e =
    let never : (suc t == 0) ≡ false = ground arith in
    let less : suc t - 1 ≡ t = omega arith in rw (e, never, less) refl

set-open :
    (p t : ℕ) (s : Spin)
    → s.lock.locked ≡ false
    → test_and_set p t s ≡ move p inside (record { locked = true; owner_pid = some p }) s
unfolding test_and_set
set-open p t s e = rw e refl

-- From `s0` on, a process that polls a lock that stays locked gets inside by its own steps.
enter :
    (p t : ℕ) (s0 s : Spin)
    → Reachable (StepOf p) s0 s
    → s.lock.locked ≡ true
    → s.phase p ≡ polling t
    → (s' : Spin) × Reachable (StepOf p) s0 s'
      × (s'.phase p ≡ inside)
      × ((q : ℕ) → q ≢ p → s'.phase q ≡ s.phase q)
enter p zero s0 s r held at =
    let s1 = move p (setting 0) (record { locked = false; owner_pid = s.lock.owner_pid }) s in
    let s2 = move p inside (record { locked = true; owner_pid = some p }) s1 in
    let r1 = subst (Reachable (StepOf p) s0) (poll-last p s held) (go r (look p 0 s at, refl)) in
    let r2 =
      subst (Reachable (StepOf p) s0) (set-open p 0 s1 refl)
        (go r1 (set p 0 s1 (update-same s.phase p (setting 0)), refl)) in
    (
      s2,
      r2,
      update-same s1.phase p inside,
      λ q n. update-other s1.phase p q inside n ∙ update-other s.phase p q (setting 0) n,
    )
enter p (suc t) s0 s r held at =
    let s1 = move p (polling t) s.lock s in
    let r1 =
      subst (Reachable (StepOf p) s0) (poll-next p t s held) (go r (look p (suc t) s at, refl)) in
    let (s', r', in_it, others) = enter p t s0 s1 r1 held (update-same s.phase p (polling t)) in
    (s', r', in_it, λ q n. others q n ∙ update-other s.phase p q (polling t) n)

-- The timeout of `spinlock_acquire` breaks the exclusion: when one process is inside and another polls the
-- lock, steps of the second alone lead to a state in which both are inside.
pub timeout_breaks :
    (p q t : ℕ) (s : Spin)
    → q ≢ p
    → s.lock.locked ≡ true
    → s.phase q ≡ inside
    → s.phase p ≡ polling t
    → (s' : Spin) × Reachable (StepOf p) s s' × (s'.phase p ≡ inside) × (s'.phase q ≡ inside)
timeout_breaks p q t s n held in_it at =
    let (s', r, entered, others) = enter p t s s begin held at in
    (s', r, entered, others q n ∙ in_it)
