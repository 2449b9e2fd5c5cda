-- ===== src/Sync/RtMutex/Reach.antt =====
-- kernel/sync/rtmutex.c: the calls of any number of processes, in any order.
use rucix_kernel.Common.{
  ℕ, zero, suc, ◌≡◌, refl, sym, ◌∙◌, ap, Bool, true, false, Option, none, some, List, [], ◌∷◌, ◌++◌,
  ltb, leb, ◌==◌, if◌then◌else◌, Bool-cases, inl, inr, arith,
}
use rucix_kernel.Common.Chain.{update_field}
use rucix_kernel.Common.Chain.Unlink.{erase}
use rucix_kernel.Common.Steps.{Reachable, invariant}
use rucix_kernel.Sync.RtMutex.{
  Proc, RtMutex, Rt, set_proc, set_lock, with_priority, with_blocked, with_held, adjust_prio_chain,
  rt_mutex_restore_prio, take, enter_wait, rt_mutex_lock, leave_wait, rt_mutex_resume,
  rt_mutex_trylock, best_waiter, wake, give_up, settle, release, rt_mutex_unlock,
}
use rucix_kernel.Sync.RtMutex.Held.{held_by, owner_of, Holds, same-Agree, take-Agree, free-Agree}

-- What the writes of a process and of a lock do to the lists and the owners.
set_proc-held :
    (s : Rt) (me p : ℕ) (v : Proc)
    → held_by (set_proc me v s) p ≡ (if me == p then v.held_locks else held_by s p)
set_proc-held s me p v = update_field (λ (x : Proc). x.held_locks) s.procs me v p

set_lock-owner :
    (s : Rt) (l k : ℕ) (v : RtMutex)
    → owner_of (set_lock l v s) k ≡ (if l == k then v.owner else owner_of s k)
set_lock-owner s l k v = update_field (λ (x : RtMutex). x.owner) s.locks l v k

-- A process is written back with its list, and a lock with its owner.
kept_proc-Holds :
    (s : Rt) (me : ℕ) (v : Proc) → v.held_locks ≡ held_by s me → Holds s → Holds (set_proc me v s)
unfolding Holds
kept_proc-Holds s me v same h =
    same-Agree (held_by s) (held_by (set_proc me v s)) (owner_of s) (owner_of s) h
      (λ p. set_proc-held s me p v ∙ elim (Bool-cases (me == p)) [
        | inl e ↦ let here : me ≡ p = ground arith in rw e (same ∙ ap (held_by s) here)
        | inr e ↦ rw e refl
      ])
      (λ l. refl)

kept_lock-Holds :
    (s : Rt) (l : ℕ) (v : RtMutex) → v.owner ≡ owner_of s l → Holds s → Holds (set_lock l v s)
unfolding Holds
kept_lock-Holds s l v same h =
    same-Agree (held_by s) (held_by s) (owner_of s) (owner_of (set_lock l v s)) h (λ p. refl)
      (λ k. set_lock-owner s l k v ∙ elim (Bool-cases (l == k)) [
        | inl e ↦ let here : l ≡ k = ground arith in rw e (same ∙ ap (owner_of s) here)
        | inr e ↦ rw e refl
      ])

take-Holds : (me l : ℕ) (s : Rt) → owner_of s l ≡ none → Holds s → Holds (take me l s)
unfolding Holds take
take-Holds me l s free h =
    take-Agree (held_by s) (held_by (take me l s)) (owner_of s) (owner_of (take me l s)) h me l free
      (λ p.
        set_proc-held (set_lock l (record { owner = some me; wait_list = (s.locks l).wait_list }) s)
          me p (with_held (l ∷ (s.procs me).held_locks) (s.procs me)))
      (λ k. set_lock-owner s l k (record { owner = some me; wait_list = (s.locks l).wait_list }))

leave_wait-Holds : (me l : ℕ) (s : Rt) → Holds s → Holds (leave_wait me l s)
leave_wait-Holds me l s h =
    kept_lock-Holds s l
      (record { owner = (s.locks l).owner; wait_list = erase me (s.locks l).wait_list }) refl h

if-held :
    (b c : Bool) (x y z : Proc) (ls : List ℕ)
    → x.held_locks ≡ ls
    → y.held_locks ≡ ls
    → z.held_locks ≡ ls
    → (if b then x else if c then y else z).held_locks ≡ ls
if-held true c x y z ls hx hy hz = hx
if-held false true x y z ls hx hy hz = hy
if-held false false x y z ls hx hy hz = hz

adjust_prio_chain-held :
    (rounds boost : ℕ) (p : Proc) → (adjust_prio_chain rounds boost p).held_locks ≡ p.held_locks
unfolding adjust_prio_chain
adjust_prio_chain-held zero boost p = refl
adjust_prio_chain-held (suc rounds) boost p =
    if-held (leb p.priority boost) p.is_blocked p (with_priority boost p)
      (adjust_prio_chain rounds boost (with_priority boost p)) p.held_locks refl refl
      (adjust_prio_chain-held rounds boost (with_priority boost p))

block-Holds :
    (me : ℕ) (s : Rt) (b : Bool) → Holds s → Holds (set_proc me (with_blocked b (s.procs me)) s)
block-Holds me s b h = kept_proc-Holds s me (with_blocked b (s.procs me)) refl h

boost-Holds :
    (s : Rt) (owner boost : ℕ) (b : Bool)
    → Holds s
    → Holds (if b then set_proc owner (adjust_prio_chain 10 boost (s.procs owner)) s else s)
boost-Holds s owner boost true h =
    kept_proc-Holds s owner (adjust_prio_chain 10 boost (s.procs owner))
      (adjust_prio_chain-held 10 boost (s.procs owner)) h
boost-Holds s owner boost false h = h

enter_wait-Holds :
    (me owner l : ℕ) (s : Rt)
    → owner_of s l ≡ some owner
    → Holds s
    → Holds (enter_wait me owner l s)
unfolding enter_wait
enter_wait-Holds me owner l s e h =
    let v : RtMutex = record { owner = some owner; wait_list = (s.locks l).wait_list ++ me ∷ [] } in
    let s1 = set_lock l v s in
    let h1 = kept_lock-Holds s l v (sym e) h in
    let b = ltb (s1.procs me).priority (s1.procs owner).priority in
    block-Holds me
      (if b
        then set_proc owner (adjust_prio_chain 10 (s1.procs me).priority (s1.procs owner)) s1
        else s1)
      true (boost-Holds s1 owner (s1.procs me).priority b h1)

wake-Holds : (o : Option ℕ) (s : Rt) → Holds s → Holds (wake o s)
unfolding wake Holds
wake-Holds none s h = h
wake-Holds (some w) s h = block-Holds w s false h

restore-Holds :
    (p : ℕ) (s : Rt) (b : Bool) → Holds s → Holds (if b then s else rt_mutex_restore_prio p s)
unfolding rt_mutex_restore_prio
restore-Holds p s true h = h
restore-Holds p s false h = kept_proc-Holds s p _ refl h

give_up-Holds : (me l : ℕ) (s : Rt) → owner_of s l ≡ some me → Holds s → Holds (give_up me l s)
unfolding give_up Holds
give_up-Holds me l s mine h =
    let v : RtMutex = record { owner = none; wait_list = (s.locks l).wait_list } in
    let w = with_held (erase l (s.procs me).held_locks) (s.procs me) in
    let s1 = set_proc me w (set_lock l v s) in
    free-Agree (held_by s) (held_by s1) (owner_of s) (owner_of s1) h me l mine
      (λ p. set_proc-held (set_lock l v s) me p w) (λ k. set_lock-owner s l k v)

release-Holds : (me l : ℕ) (s : Rt) → owner_of s l ≡ some me → Holds s → Holds (release me l s)
unfolding release settle
release-Holds me l s mine h =
    let s1 = give_up me l s in
    let b = (s1.procs me).priority == (s1.procs me).base_priority in
    let s2 = if b then s1 else rt_mutex_restore_prio me s1 in
    wake-Holds (best_waiter s2.procs 999 none (s2.locks l).wait_list) s2
      (restore-Holds me s1 b (give_up-Holds me l s mine h))

-- One call, or the part of one that holds the spin lock. A process calls `rt_mutex_lock` and, after each
-- `process_schedule` in it, goes on by `rt_mutex_resume`.
pub data RtStep : Rt → Rt → Type 0 where
  lock : (me l : ℕ) (s : Rt) → RtStep s (rt_mutex_lock me l s)
  resume : (me l : ℕ) (s : Rt) → RtStep s (rt_mutex_resume me l s)
  trylock : (me l : ℕ) (s : Rt) → RtStep s (rt_mutex_trylock me l s).1
  unlock : (me l : ℕ) (s : Rt) → RtStep s (rt_mutex_unlock me l s)

lock_by :
    (me l : ℕ) (s : Rt) (o : Option ℕ) → owner_of s l ≡ o → Holds s → Holds (rt_mutex_lock me l s)
unfolding rt_mutex_lock
lock_by me l s none e h = rw (rt_mutex_lock, e) (take-Holds me l s e h)
lock_by me l s (some o) e h = elim (Bool-cases (o == me)) [
  | inl f ↦ rw (rt_mutex_lock, e, f) h
  | inr f ↦ rw (rt_mutex_lock, e, f) (enter_wait-Holds me o l s e h)
]

resume_by :
    (me l : ℕ) (s : Rt) (o : Option ℕ) → owner_of s l ≡ o → Holds s → Holds (rt_mutex_resume me l s)
unfolding rt_mutex_resume
resume_by me l s none e h =
    rw (rt_mutex_resume, e) (leave_wait-Holds me l (take me l s) (take-Holds me l s e h))
resume_by me l s (some o) e h = elim (Bool-cases (o == me)) [
  | inl f ↦ rw (rt_mutex_resume, e, f) (leave_wait-Holds me l s h)
  | inr f ↦ rw (rt_mutex_resume, e, f) (block-Holds me s true h)
]

trylock_by :
    (me l : ℕ) (s : Rt) (o : Option ℕ)
    → owner_of s l ≡ o
    → Holds s
    → Holds (rt_mutex_trylock me l s).1
unfolding rt_mutex_trylock
trylock_by me l s none e h = rw (rt_mutex_trylock, e) (take-Holds me l s e h)
trylock_by me l s (some o) e h = rw (rt_mutex_trylock, e) h

unlock_by :
    (me l : ℕ) (s : Rt) (o : Option ℕ) → owner_of s l ≡ o → Holds s → Holds (rt_mutex_unlock me l s)
unfolding rt_mutex_unlock
unlock_by me l s none e h = rw (rt_mutex_unlock, e) h
unlock_by me l s (some o) e h = elim (Bool-cases (o == me)) [
  | inr f ↦ rw (rt_mutex_unlock, e, f) h
  | inl f ↦
      let same : o ≡ me = ground arith in
      rw (rt_mutex_unlock, e, f) (release-Holds me l s (e ∙ ap some same) h)
]

Step-Holds : (s s' : Rt) → RtStep s s' → Holds s → Holds s'
Step-Holds _ _ (lock me l s) h = lock_by me l s (owner_of s l) refl h
Step-Holds _ _ (resume me l s) h = resume_by me l s (owner_of s l) refl h
Step-Holds _ _ (trylock me l s) h = trylock_by me l s (owner_of s l) refl h
Step-Holds _ _ (unlock me l s) h = unlock_by me l s (owner_of s l) refl h

-- Whatever calls of `rt_mutex_lock`, `rt_mutex_trylock` and `rt_mutex_unlock` any processes make, in any
-- order, from a state that agrees: the locks in the list of a process are exactly those that name it as
-- their owner, and each is there once. So no lock is in the lists of two processes.
pub Reachable-Holds : (start s : Rt) → Holds start → Reachable RtStep start s → Holds s
Reachable-Holds start s h r = invariant RtStep Holds start h Step-Holds s r
