-- ===== src/Sync/RtMutex/Unlock.antt =====
-- kernel/sync/rtmutex.c: what an owner's `rt_mutex_unlock` does.
use mathlib.Core.Option.{none-ne-some, some-injective}
use rucix_kernel.Common.{
  ℕ, ◌<◌, ◌≡◌, ◌≢◌, ◌⊎◌, refl, sym, ◌∙◌, ap, subst, true, false, Option, none, some, List, [], ◌∷◌,
  ◌++◌, ◌==◌, ==_refl, if◌then◌else◌, Bool-cases, Option-cases, inl, inr, arith,
}
use rucix_kernel.Common.Chain.{update, has}
use rucix_kernel.Common.Chain.Unlink.{erase}
use rucix_kernel.Sync.RtMutex.{
  Proc, Rt, rt_mutex_restore_prio, highest_held, best_waiter, wake, give_up, settle, release,
  rt_mutex_unlock,
}
use rucix_kernel.Sync.RtMutex.Priority.{
  AtLeast, AtLeast-congr, Least, Least-congr, Best, best_waiter-Best, highest_held-Least,
}

-- Who of the waiters `ws` is woken: nobody when none has a priority below 999, and else one with the
-- smallest number.
unfoldable pub Woken : Rt → List ℕ → Rt → Type 0
Woken s ws s' =
    ((s'.enqueued ≡ s.enqueued)
      × ((q : ℕ) → (s'.procs q).is_blocked ≡ (s.procs q).is_blocked)
      × AtLeast s'.procs 999 ws)
    ⊎ ((w : ℕ) × (s'.enqueued ≡ s.enqueued ++ w ∷ [])
        × ((q : ℕ) → (s'.procs q).is_blocked ≡ (if w == q then false else (s.procs q).is_blocked))
        × (has w ws ≡ true)
        × ((s'.procs w).priority < 999)
        × AtLeast s'.procs (s'.procs w).priority ws)

-- The owner's priority afterwards: its base priority if it had not been raised, and else the least of its
-- base priority and the priorities of the waiters of the other locks that it holds.
abbrev pub Restored : ℕ → ℕ → Rt → ℕ → Type 0
Restored me l s n =
    let p = s.procs me in
    ((p.priority ≡ p.base_priority) × (n ≡ p.base_priority))
    ⊎ ((p.priority ≢ p.base_priority) × Least s p.base_priority (erase l p.held_locks) n)

-- What the owner's `rt_mutex_unlock` promises.
pub record Unlocked (me l : ℕ) (s s' : Rt) : Type 0 where
  pub locks :
      (k : ℕ)
      → s'.locks k
        ≡ (if l == k then record { owner = none; wait_list = (s.locks l).wait_list } else s.locks k)
  pub held : (s'.procs me).held_locks ≡ erase l (s.procs me).held_locks
  pub restored : Restored me l s (s'.procs me).priority
  pub bases : (q : ℕ) → (s'.procs q).base_priority ≡ (s.procs q).base_priority
  pub others :
      (q : ℕ)
      → (me == q) ≡ false
      → ((s'.procs q).priority ≡ (s.procs q).priority)
        × ((s'.procs q).held_locks ≡ (s.procs q).held_locks)
  pub woken : Woken s (s.locks l).wait_list s'

-- `wake` leaves everything but who is blocked and enqueued.
wake-proc :
    (b : Option ℕ) (s : Rt) (q : ℕ)
    → (((wake b s).procs q).priority ≡ (s.procs q).priority)
      × (((wake b s).procs q).base_priority ≡ (s.procs q).base_priority)
      × (((wake b s).procs q).held_locks ≡ (s.procs q).held_locks)
unfolding wake update
wake-proc none s q = (refl, refl, refl)
wake-proc (some w) s q = ground arith

wake-locks : (b : Option ℕ) (s : Rt) → (wake b s).locks ≡ s.locks
unfolding wake
wake-locks none s = refl
wake-locks (some w) s = refl

-- `settle` leaves everything but the priority and the locks held of `me`, and the lock.
settle-lock :
    (me l : ℕ) (s : Rt) (k : ℕ)
    → (settle me l s).locks k
      ≡ (if l == k then record { owner = none; wait_list = (s.locks l).wait_list } else s.locks k)
unfolding settle give_up rt_mutex_restore_prio update
settle-lock me l s k = ground arith

settle-others :
    (me l : ℕ) (s : Rt) (q : ℕ) → (me == q) ≡ false → (settle me l s).procs q ≡ s.procs q
unfolding settle give_up rt_mutex_restore_prio update
settle-others me l s q n = ground arith

settle-blocked :
    (me l : ℕ) (s : Rt) (q : ℕ)
    → (((settle me l s).procs q).is_blocked ≡ (s.procs q).is_blocked)
      × (((settle me l s).procs q).base_priority ≡ (s.procs q).base_priority)
unfolding settle give_up rt_mutex_restore_prio update
settle-blocked me l s q = ground arith

settle-held :
    (me l : ℕ) (s : Rt)
    → (((settle me l s).procs me).held_locks ≡ erase l (s.procs me).held_locks)
      × ((settle me l s).enqueued ≡ s.enqueued)
unfolding settle give_up rt_mutex_restore_prio update
settle-held me l s = ground (arith, ==_refl me)

give_up-priority :
    (me l : ℕ) (s : Rt) (q : ℕ) → ((give_up me l s).procs q).priority ≡ (s.procs q).priority
unfolding give_up update
give_up-priority me l s q = ground arith

give_up-waiters :
    (me l : ℕ) (s : Rt) (k : ℕ) → ((give_up me l s).locks k).wait_list ≡ (s.locks k).wait_list
unfolding give_up update
give_up-waiters me l s k = ground arith

give_up-me :
    (me l : ℕ) (s : Rt)
    → (((give_up me l s).procs me).base_priority ≡ (s.procs me).base_priority)
      × (((give_up me l s).procs me).held_locks ≡ erase l (s.procs me).held_locks)
unfolding give_up update
give_up-me me l s = ground (arith, ==_refl me)

-- The priority that `settle` writes.
settle-priority :
    (me l : ℕ) (s : Rt)
    → ((settle me l s).procs me).priority ≡ (
        if (s.procs me).priority == (s.procs me).base_priority
        then (s.procs me).priority
        else highest_held
            (give_up me l s)
            (s.procs me).base_priority
            (erase l (s.procs me).held_locks))
unfolding settle rt_mutex_restore_prio update
settle-priority me l s = ground (arith, ==_refl me, give_up-priority me l s me, give_up-me me l s)

settle-Restored : (me l : ℕ) (s : Rt) → Restored me l s ((settle me l s).procs me).priority
settle-Restored me l s =
    let p = s.procs me in
    elim (Bool-cases (p.priority == p.base_priority)) [
      | inl e ↦ inl (ground arith, ground (arith, settle-priority me l s))
      | inr e ↦
          let s1 = give_up me l s in
          let ls = erase l p.held_locks in
          let least =
            Least-congr s1 s p.base_priority ls (highest_held s1 p.base_priority ls)
              (give_up-priority me l s) (give_up-waiters me l s)
              (highest_held-Least s1 p.base_priority ls) in
          let written : ((settle me l s).procs me).priority ≡ highest_held s1 p.base_priority ls =
            settle-priority me l s ∙ (rw e refl) in
          inr ((λ same. ground arith), subst (Least s p.base_priority ls) (sym written) least)
    ]

wake-Woken : (s : Rt) (ws : List ℕ) → Woken s ws (wake (best_waiter s.procs 999 none ws) s)
unfolding wake Woken Best update
wake-Woken s ws = elim (best_waiter-Best s.procs 999 none ws) [
  | inl (same, all) ↦ rw same (inl (refl, (λ q. refl), all))
  | inr (w, same, i, lt, all) ↦
      let n = (s.procs w).priority in
      let keeps = λ (q : ℕ). sym (wake-proc (some w) s q).0 in
      rw same (
        inr (
          w,
          refl,
          (λ q. ground arith),
          i,
          ground (arith, keeps w),
          subst (λ k. AtLeast (wake (some w) s).procs k ws) (keeps w)
              (AtLeast-congr s.procs (wake (some w) s).procs n ws keeps all),
        ))
]

-- The blocked processes and the queue before `settle` are those behind it.
Woken-settle : (me l : ℕ) (s s' : Rt) (ws : List ℕ) → Woken (settle me l s) ws s' → Woken s ws s'
unfolding Woken
Woken-settle me l s s' ws (inl (same, still, all)) =
    inl (same ∙ (settle-held me l s).1, (λ q. still q ∙ (settle-blocked me l s q).0), all)
Woken-settle me l s s' ws (inr (w, added, woken, i, lt, all)) = inr (
  w,
  added ∙ ap (λ q. q ++ w ∷ []) (settle-held me l s).1,
  (λ q. ground (arith, woken q, settle-blocked me l s q)),
  i,
  lt,
  all,
)

release-Unlocked : (me l : ℕ) (s : Rt) → Unlocked me l s (release me l s)
unfolding release
release-Unlocked me l s =
    let s2 = settle me l s in
    let ws = (s2.locks l).wait_list in
    let b = best_waiter s2.procs 999 none ws in
    let lists : ws ≡ (s.locks l).wait_list =
      ap (λ k. k.wait_list) (settle-lock me l s l) ∙ (rw (==_refl l) refl) in
    record {
      locks = λ k. ap (λ f. f k) (wake-locks b s2) ∙ settle-lock me l s k;
      held = (wake-proc b s2 me).2 ∙ (settle-held me l s).0;
      restored = subst (Restored me l s) (sym (wake-proc b s2 me).0) (settle-Restored me l s);
      bases = λ q. (wake-proc b s2 q).1 ∙ (settle-blocked me l s q).1;
      others = λ q n. (
        (wake-proc b s2 q).0 ∙ ap (λ (x : Proc). x.priority) (settle-others me l s q n),
        (wake-proc b s2 q).2 ∙ ap (λ (x : Proc). x.held_locks) (settle-others me l s q n),
      );
      woken =
          subst (λ l'. Woken s l' (wake b s2)) lists
            (Woken-settle me l s (wake b s2) ws (wake-Woken s2 ws));
    }

-- `rt_mutex_unlock` by a process that is not the owner changes nothing. One by the owner frees the lock,
-- whose waiters stay in its list, and takes it out of the locks that the process holds; other locks are
-- as before. The owner's priority is then its base priority, if it had not been raised, and else the least
-- of its base priority and the priorities of the waiters of the locks that it still holds; the priorities
-- and the held locks of other processes, and all base priorities, are as before. Of the waiters of the
-- lock, one with the smallest number is enqueued and no longer blocked, and nobody else; nobody is, when
-- no waiter has a number below 999.
pub rt_mutex_unlock-Unlocked :
    (me l : ℕ) (s : Rt)
    → (((s.locks l).owner ≢ some me) × (rt_mutex_unlock me l s ≡ s))
      ⊎ (((s.locks l).owner ≡ some me) × Unlocked me l s (rt_mutex_unlock me l s))
unfolding rt_mutex_unlock
rt_mutex_unlock-Unlocked me l s = elim (Option-cases (s.locks l).owner) [
  | inl e ↦ inl ((λ f. absurd (none-ne-some me (sym e ∙ f))), rw (rt_mutex_unlock, e) refl)
  | inr (o, e) ↦ elim (Bool-cases (o == me)) [
    | inr f ↦ inl (
      (λ g. let same = some-injective o me (sym e ∙ g) in ground arith),
      rw (rt_mutex_unlock, e, f) refl,
    )
    | inl f ↦
        let same : o ≡ me = ground arith in
        inr (e ∙ ap some same, rw (rt_mutex_unlock, e, f) (release-Unlocked me l s))
  ]
]
