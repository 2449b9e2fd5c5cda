-- ===== src/Sync/Locks.antt =====
-- kernel/sync/waitqueue.c: the locks. Each definition is what stands between the acquisition and the
-- release of the object's spin lock, with the call of `wake_up` behind it.
pub mod Exclusion
pub mod Readers
pub mod Rendezvous
mod Tests
use rucix_kernel.Common.{
  ℕ, zero, suc, ◌+◌, Bool, true, false, ◌&&◌, not, Option, none, some, List, [], ◌∷◌, ◌++◌, ltb,
  ◌==◌, if◌then◌else◌,
}
use rucix_kernel.Common.Int.{ℤ, pos, negsuc, pred_ℤ, suc_ℤ, positive, ltb_ℤ}
pub use rucix_kernel.Common.Int.{is_zero_ℤ}
pub use rucix_kernel.Sync.WaitQueue.{wake_up}

-- A turn of a loop that takes a lock: it got the lock, or it has to sleep.
pub data Turn (A : Type 0) : Type 0 where
  granted : A → Turn A
  must_sleep : Turn A

-- `semaphore_t`
pub record Semaphore : Type 0 where
  pub count : ℤ
  pub sleepers : List ℕ

unfoldable pub sem_init : ℤ → Semaphore
sem_init n = record { count = n; sleepers = [] }

unfoldable pub sem_wait : Semaphore → Turn Semaphore
sem_wait s = if positive s.count then granted (record s { count = pred_ℤ s.count }) else must_sleep

unfoldable pub sem_post : Semaphore → Semaphore
sem_post s = record s { count = suc_ℤ s.count; sleepers = wake_up s.sleepers }

-- `mutex_t`
pub record Mutex : Type 0 where
  pub owner : Option ℕ
  pub recurse_count : ℤ
  pub sleepers : List ℕ

unfoldable pub mutex_init : Mutex
mutex_init = record { owner = none; recurse_count = pos 0; sleepers = [] }

unfoldable pub mutex_lock : ℕ → Mutex → Turn Mutex
mutex_lock me m = elim m.owner [
  | none ↦ granted (record m { owner = some me; recurse_count = pos 1 })
  | some p ↦
      if p == me then granted (record m { recurse_count = suc_ℤ m.recurse_count }) else must_sleep
]

-- The priority that a turn of `mutex_lock` that has to sleep gives to the owner, from the priorities
-- of all processes.
unfoldable pub inherited : (ℕ → ℤ) → ℕ → Mutex → Option (ℕ × ℤ)
inherited priority me m = elim m.owner [
  | none ↦ none
  | some p ↦
      if p == me
      then none
      else if ltb_ℤ (priority me) (priority p)
      then some (p, priority me)
      else none
]

unfoldable pub mutex_unlock : ℕ → Mutex → Mutex
mutex_unlock me m =
    let less = pred_ℤ m.recurse_count in
    let freed : Mutex = record {
      owner = none;
      recurse_count = less;
      sleepers = wake_up m.sleepers;
    } in
    elim m.owner [
      | none ↦ m
      | some p ↦
          if p == me
          then (if is_zero_ℤ less then freed else record m { recurse_count = less })
          else m
    ]

-- `rwlock_t`
pub record RwLock : Type 0 where
  pub readers : ℤ
  pub writers : ℤ
  pub read_wait : List ℕ
  pub write_wait : List ℕ

unfoldable pub rwlock_init : RwLock
rwlock_init = record { readers = pos 0; writers = pos 0; read_wait = []; write_wait = [] }

unfoldable pub rwlock_read_lock : RwLock → Turn RwLock
rwlock_read_lock w =
    if is_zero_ℤ w.writers then granted (record w { readers = suc_ℤ w.readers }) else must_sleep

unfoldable pub rwlock_read_unlock : RwLock → RwLock
rwlock_read_unlock w =
    let less = pred_ℤ w.readers in
    record w {
      readers = less;
      write_wait = if is_zero_ℤ less then wake_up w.write_wait else w.write_wait;
    }

unfoldable pub rwlock_write_lock : RwLock → Turn RwLock
rwlock_write_lock w =
    if is_zero_ℤ w.writers && is_zero_ℤ w.readers
    then granted (record w { writers = pos 1 })
    else must_sleep

unfoldable pub rwlock_write_unlock : RwLock → RwLock
rwlock_write_unlock w = record w {
  writers = pos 0;
  read_wait = [];
  write_wait = wake_up w.write_wait;
}

-- `barrier_t`
pub record Barrier : Type 0 where
  pub count : ℤ
  pub current : ℤ
  pub sleepers : List ℕ

unfoldable pub barrier_init : ℤ → Barrier
barrier_init n = record { count = n; current = pos 0; sleepers = [] }

-- `barrier_wait` up to the release of the spin lock and with `wake_up_all`: the barrier, and whether
-- the caller passes. Otherwise it calls `sleep_on`.
unfoldable pub barrier_wait : Barrier → Barrier × Bool
barrier_wait b =
    let more = suc_ℤ b.current in
    if ltb_ℤ more b.count
    then (record b { current = more }, false)
    else (record b { current = pos 0; sleepers = [] }, true)

-- `sleep_on` on the barrier's wait queue
unfoldable pub barrier_sleep : ℕ → Barrier → Barrier
barrier_sleep me b = record b { sleepers = b.sleepers ++ me ∷ [] }
