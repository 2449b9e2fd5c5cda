-- ===== src/Sync/RtMutex.antt =====
-- kernel/sync/rtmutex.c: mutexes that lend their owner the priority of a waiter. A smaller number is a
-- higher priority. A definition is what a function does while it holds the lock's spin lock; what
-- `rt_mutex_lock` does after each `process_schedule` is `rt_mutex_resume`.
pub mod Priority
pub mod Unlock
pub mod Held
pub mod Reach
mod Tests
use rucix_kernel.Common.{
  ℕ, zero, suc, ◌+◌, Bool, true, false, ◌&&◌, ◌||◌, not, Option, none, some, List, [], ◌∷◌, ◌++◌,
  ltb, leb, ◌==◌, if◌then◌else◌,
}
use rucix_kernel.Common.Chain.{update, head?}
use rucix_kernel.Common.Chain.Unlink.{erase}

-- The fields of `struct process` that the mutexes use; `held_locks` are the addresses of locks.
pub record Proc : Type 0 where
  pub priority : ℕ
  pub base_priority : ℕ
  pub is_blocked : Bool
  pub held_locks : List ℕ

-- `rt_mutex_t`; the waiters are on the stacks of the processes that wait.
pub record RtMutex : Type 0 where
  pub owner : Option ℕ
  pub wait_list : List ℕ

-- The processes and the mutexes by their addresses, and the processes given to `enqueue_process`.
pub record Rt : Type 0 where
  pub procs : ℕ → Proc
  pub locks : ℕ → RtMutex
  pub enqueued : List ℕ

abbrev pub rt_mutex_init : RtMutex
rt_mutex_init = record { owner = none; wait_list = [] }

abbrev pub set_proc : ℕ → Proc → Rt → Rt
set_proc p v s = record { procs = update s.procs p v; locks = s.locks; enqueued = s.enqueued }

abbrev pub set_lock : ℕ → RtMutex → Rt → Rt
set_lock l v s = record { procs = s.procs; locks = update s.locks l v; enqueued = s.enqueued }

abbrev pub with_priority : ℕ → Proc → Proc
with_priority n p = record {
  priority = n;
  base_priority = p.base_priority;
  is_blocked = p.is_blocked;
  held_locks = p.held_locks;
}

abbrev pub with_blocked : Bool → Proc → Proc
with_blocked b p = record {
  priority = p.priority;
  base_priority = p.base_priority;
  is_blocked = b;
  held_locks = p.held_locks;
}

abbrev pub with_held : List ℕ → Proc → Proc
with_held ls p = record {
  priority = p.priority;
  base_priority = p.base_priority;
  is_blocked = p.is_blocked;
  held_locks = ls;
}

-- `while (curr && depth < 10)` with the rounds left; `curr` stays the owner.
unfoldable pub adjust_prio_chain : ℕ → ℕ → Proc → Proc
adjust_prio_chain zero boost p = p
adjust_prio_chain (suc rounds) boost p =
    let raised = with_priority boost p in
    let next = adjust_prio_chain rounds boost raised in
    if leb p.priority boost then p else if p.is_blocked then raised else next

-- The inner loop of `rt_mutex_restore_prio`: the waiters of a lock.
unfoldable pub highest_waiter : (ℕ → Proc) → ℕ → List ℕ → ℕ
highest_waiter procs prio [] = prio
highest_waiter procs prio (w ∷ ws) =
    highest_waiter procs (if ltb (procs w).priority prio then (procs w).priority else prio) ws

-- The outer loop: the locks that are held.
unfoldable pub highest_held : Rt → ℕ → List ℕ → ℕ
highest_held s prio [] = prio
highest_held s prio (l ∷ ls) = highest_held s (highest_waiter s.procs prio (s.locks l).wait_list) ls

unfoldable pub rt_mutex_restore_prio : ℕ → Rt → Rt
rt_mutex_restore_prio p s =
    let proc = s.procs p in
    set_proc p (with_priority (highest_held s proc.base_priority proc.held_locks) proc) s

-- `lock->owner = current_process` and `list_add` of the lock
unfoldable pub take : ℕ → ℕ → Rt → Rt
take me l s =
    set_proc me (with_held (l ∷ (s.procs me).held_locks) (s.procs me))
      (set_lock l (record { owner = some me; wait_list = (s.locks l).wait_list }) s)

-- The waiter goes to the end of the list, and the owner gets its priority if that is higher.
unfoldable pub enter_wait : ℕ → ℕ → ℕ → Rt → Rt
enter_wait me owner l s =
    let s1 =
      set_lock l (record { owner = some owner; wait_list = (s.locks l).wait_list ++ me ∷ [] }) s in
    let boosted = adjust_prio_chain 10 (s1.procs me).priority (s1.procs owner) in
    let s2 =
      if ltb (s1.procs me).priority (s1.procs owner).priority
      then set_proc owner boosted s1
      else s1 in
    set_proc me (with_blocked true (s2.procs me)) s2

-- `rt_mutex_lock` up to its return or its first `process_schedule`.
unfoldable pub rt_mutex_lock : ℕ → ℕ → Rt → Rt
rt_mutex_lock me l s = elim (s.locks l).owner [
  | none ↦ take me l s
  | some owner ↦ if owner == me then s else enter_wait me owner l s
]

abbrev pub leave_wait : ℕ → ℕ → Rt → Rt
leave_wait me l s =
    set_lock l (record { owner = (s.locks l).owner; wait_list = erase me (s.locks l).wait_list }) s

-- Behind `process_schedule`: the lock is taken if it is free, or the process blocks again.
unfoldable pub rt_mutex_resume : ℕ → ℕ → Rt → Rt
rt_mutex_resume me l s = elim (s.locks l).owner [
  | none ↦ leave_wait me l (take me l s)
  | some owner ↦
      if owner == me then leave_wait me l s else set_proc me (with_blocked true (s.procs me)) s
]

unfoldable pub rt_mutex_trylock : ℕ → ℕ → Rt → Bool × Rt
rt_mutex_trylock me l s = elim (s.locks l).owner [
  | none ↦ (true, take me l s)
  | some owner ↦ (false, s)
]

-- The loop over the waiters in `rt_mutex_unlock`: `best_waiter`, from `best_prio` on.
unfoldable pub best_waiter : (ℕ → Proc) → ℕ → Option ℕ → List ℕ → Option ℕ
best_waiter procs prio best [] = best
best_waiter procs prio best (w ∷ ws) =
    let rest = best_waiter procs prio best ws in
    let better = best_waiter procs (procs w).priority (some w) ws in
    if ltb (procs w).priority prio then better else rest

-- The best waiter is ready and enqueued; it stays in the list until it resumes.
unfoldable pub wake : Option ℕ → Rt → Rt
wake none s = s
wake (some w) s =
    let s1 = set_proc w (with_blocked false (s.procs w)) s in
    record { procs = s1.procs; locks = s1.locks; enqueued = s1.enqueued ++ w ∷ [] }

-- `list_del(&lock->held_list_entry)` and `lock->owner = NULL`
unfoldable pub give_up : ℕ → ℕ → Rt → Rt
give_up me l s =
    set_proc me (with_held (erase l (s.procs me).held_locks) (s.procs me))
      (set_lock l (record { owner = none; wait_list = (s.locks l).wait_list }) s)

-- The priority is restored if it had been raised.
unfoldable pub settle : ℕ → ℕ → Rt → Rt
settle me l s =
    let s1 = give_up me l s in
    if (s1.procs me).priority == (s1.procs me).base_priority
    then s1
    else rt_mutex_restore_prio me s1

-- What `rt_mutex_unlock` does for the owner.
unfoldable pub release : ℕ → ℕ → Rt → Rt
release me l s =
    let s2 = settle me l s in wake (best_waiter s2.procs 999 none (s2.locks l).wait_list) s2

unfoldable pub rt_mutex_unlock : ℕ → ℕ → Rt → Rt
rt_mutex_unlock me l s = elim (s.locks l).owner [
  | none ↦ s
  | some owner ↦ if owner == me then release me l s else s
]
