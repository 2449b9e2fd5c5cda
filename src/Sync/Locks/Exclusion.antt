-- ===== src/Sync/Locks/Exclusion.antt =====
-- kernel/sync/waitqueue.c: who holds a mutex and a read-write lock.
use rucix_kernel.Common.{
  ℕ, zero, suc, ◌-◌, ◌<◌, ◌≡◌, ◌≢◌, refl, ap, sym, ◌∙◌, subst, Bool, true, false, Option, none,
  some, List, [], ◌∷◌, ◌++◌, arith, ◌==◌, inl, inr, Bool-cases,
}
use mathlib.Core.Bool.{true≢false}
use rucix_kernel.Common.Int.{ℤ, pos, pred_ℤ, suc_ℤ}
use rucix_kernel.Common.Chain.{update}
use rucix_kernel.Common.Steps.{Reachable, invariant}
use rucix_kernel.Sync.Locks.{Turn, granted, must_sleep, Mutex, mutex_init, mutex_lock, mutex_unlock}

-- A mutex, and how often each process has locked it and not yet unlocked it.
pub record MutexUse : Type 0 where
  pub mutex : Mutex
  pub holds : ℕ → ℕ

-- A process locks the mutex, or sleeps because it could not, or calls `mutex_unlock`, with or
-- without holding it.
pub data MutexStep : MutexUse → MutexUse → Type 0 where
  locks :
      (p : ℕ) (s : MutexUse) (m : Mutex)
      → mutex_lock p s.mutex ≡ granted m
      → MutexStep s (record { mutex = m; holds = update s.holds p (suc (s.holds p)) })
  sleeps :
      (p : ℕ) (s : MutexUse)
      → mutex_lock p s.mutex ≡ must_sleep
      → MutexStep s (record s { mutex = record s.mutex { sleepers = s.mutex.sleepers ++ p ∷ [] } })
  unlocks :
      (p : ℕ) (s : MutexUse)
      → MutexStep s
          (record { mutex = mutex_unlock p s.mutex; holds = update s.holds p (s.holds p - 1) })

-- Nobody holds a mutex without owner; the owner of a mutex holds it as often as its counter says, and
-- nobody else does.
abbrev pub Owned : Option ℕ → ℤ → (ℕ → ℕ) → Type 0
Owned none c holds = (p : ℕ) → holds p ≡ 0
Owned (some q) c holds = (c ≡ pos (holds q)) × (0 < holds q) × ((p : ℕ) → p ≢ q → holds p ≡ 0)

got : {A : Type 0} → A → Turn A → A
got d (granted a) = a
got d must_sleep = d

is_granted : {A : Type 0} → Turn A → Bool
is_granted (granted a) = true
is_granted must_sleep = false

pub granted_same : {A : Type 0} (t : Turn A) (a b : A) → t ≡ granted a → t ≡ granted b → a ≡ b
unfolding got
granted_same t a b e f = ap (got b) (sym e ∙ f)

pub not_granted : {A : Type 0} (t : Turn A) (a : A) → t ≡ must_sleep → t ≡ granted a → true ≡ false
unfolding is_granted
not_granted t a e f = ap is_granted (sym f ∙ e)

mutex_lock_self :
    (q p : ℕ) (c : ℤ) (w : List ℕ)
    → (q == p) ≡ true
    → mutex_lock p (record { owner = some q; recurse_count = c; sleepers = w })
      ≡ granted (record { owner = some q; recurse_count = suc_ℤ c; sleepers = w })
unfolding mutex_lock
mutex_lock_self q p c w s = rw s refl

mutex_lock_other :
    (q p : ℕ) (c : ℤ) (w : List ℕ)
    → (q == p) ≡ false
    → mutex_lock p (record { owner = some q; recurse_count = c; sleepers = w }) ≡ must_sleep
unfolding mutex_lock
mutex_lock_other q p c w s = rw s refl

locks-Owned :
    (o : Option ℕ) (c : ℤ) (w : List ℕ) (holds : ℕ → ℕ) (p : ℕ) (m : Mutex)
    → mutex_lock p (record { owner = o; recurse_count = c; sleepers = w }) ≡ granted m
    → Owned o c holds
    → Owned m.owner m.recurse_count (update holds p (suc (holds p)))
unfolding mutex_lock update
locks-Owned none c w holds p m e own =
    let first : Mutex = record { owner = some p; recurse_count = pos 1; sleepers = w } in
    subst (λ x. Owned x.owner x.recurse_count (update holds p (suc (holds p))))
      (granted_same _ first m refl e)
      (ap pos (ground (arith, own p)), ground (arith, own p), λ q n. ground (arith, own q))
locks-Owned (some q) c w holds p m e (count, held, rest) = elim (Bool-cases (q == p)) [
  | inl s ↦
      let again : Mutex = record { owner = some q; recurse_count = suc_ℤ c; sleepers = w } in
      subst (λ x. Owned x.owner x.recurse_count (update holds p (suc (holds p))))
        (granted_same _ again m (mutex_lock_self q p c w s) e)
        (ap suc_ℤ count ∙ ap pos (ground arith), ground arith, λ r n. ground (arith, rest r))
  | inr s ↦ absurd (true≢false (not_granted _ m (mutex_lock_other q p c w s) e))
]

pub pred_pos : (n : ℕ) → 0 < n → pred_ℤ (pos n) ≡ pos (n - 1)
pred_pos zero h = absurd (omega arith)
pred_pos (suc n) h = ap pos (omega arith)

last_hold :
    (holds : ℕ → ℕ) (q p r : ℕ)
    → (q == p) ≡ true
    → (holds q - 1 == 0) ≡ true
    → (r ≢ q → holds r ≡ 0)
    → update holds p (holds p - 1) r ≡ 0
unfolding update
last_hold holds q p r s one rest = ground arith

unlocks-Owned :
    (o : Option ℕ) (c : ℤ) (w : List ℕ) (holds : ℕ → ℕ) (p : ℕ)
    → Owned o c holds
    → let m = mutex_unlock p (record { owner = o; recurse_count = c; sleepers = w }) in
      Owned m.owner m.recurse_count (update holds p (holds p - 1))
unfolding mutex_unlock update
unlocks-Owned none c w holds p own = λ q. ground (arith, own q)
unlocks-Owned (some q) c w holds p (count, held, rest) = elim (Bool-cases (q == p)) [
  | inr s ↦ rw s (count ∙ ap pos (ground arith), ground arith, λ r n. ground (arith, rest r))
  | inl s ↦
      let less : pred_ℤ c ≡ pos (holds q - 1) = ap pred_ℤ count ∙ pred_pos (holds q) held in
      elim (Bool-cases (holds q - 1 == 0)) [
        | inl one ↦ rw (s, less, one) (λ r. last_hold holds q p r s one (rest r))
        | inr more ↦
            rw (s, less, more) (ap pos (ground arith), ground arith, λ r n. ground (arith, rest r))
      ]
]

-- At most one process holds the mutex, and only as its owner.
abbrev pub Exclusive : MutexUse → Type 0
Exclusive s =
    Owned s.mutex.owner s.mutex.recurse_count s.holds
    × ((p q : ℕ) → 0 < s.holds p → 0 < s.holds q → p ≡ q)

one_holder :
    (o : Option ℕ) (c : ℤ) (holds : ℕ → ℕ)
    → Owned o c holds
    → (p q : ℕ) → 0 < holds p
    → 0 < holds q
    → p ≡ q
one_holder none c holds own p q hp hq = ground (arith, own p)
one_holder (some r) c holds (count, held, rest) p q hp hq = ground (arith, rest p, rest q)

step-Owned :
    (s t : MutexUse)
    → MutexStep s t
    → Owned s.mutex.owner s.mutex.recurse_count s.holds
    → Owned t.mutex.owner t.mutex.recurse_count t.holds
step-Owned s t (locks p u m e) own =
    locks-Owned u.mutex.owner u.mutex.recurse_count u.mutex.sleepers u.holds p m e own
step-Owned s t (sleeps p u e) own = own
step-Owned s t (unlocks p u) own =
    unlocks-Owned u.mutex.owner u.mutex.recurse_count u.mutex.sleepers u.holds p own

-- However processes lock, sleep on and unlock a mutex that `mutex_init` has set up, at most one
-- process holds it at a time: the owner holds it as often as the counter says, a mutex without owner
-- is held by nobody, and an unlock by another process takes nothing from the owner.
pub Reachable-Exclusive :
    (s : MutexUse)
    → Reachable MutexStep (record { mutex = mutex_init; holds = λ p. 0 }) s
    → Exclusive s
unfolding mutex_init
Reachable-Exclusive s r =
    let own =
      invariant MutexStep (λ t. Owned t.mutex.owner t.mutex.recurse_count t.holds)
        (record { mutex = mutex_init; holds = λ p. 0 }) (λ p. refl) step-Owned s r in
    (own, one_holder s.mutex.owner s.mutex.recurse_count s.holds own)
