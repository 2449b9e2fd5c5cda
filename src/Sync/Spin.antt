-- ===== src/Sync/Spin.antt =====
-- kernel/sync/spinlock.c: the spin lock, as steps of the processes that want it. Interrupts and the
-- messages to the console are left out.
pub mod Exclusion
pub mod Timeout
mod Tests
use rucix_kernel.Common.{
  ℕ, zero, suc, ◌+◌, ◌-◌, ◌≡◌, Bool, true, false, ◌&&◌, not, Option, none, some, ◌==◌,
  if◌then◌else◌,
}
use rucix_kernel.Common.Chain.{update}

-- `owner_pid` is `none` for -1.
pub record SpinLock : Type 0 where
  pub locked : Bool
  pub owner_pid : Option ℕ

abbrev pub spinlock_init : SpinLock
spinlock_init = record { locked = false; owner_pid = none }

-- Where a process stands: before `__sync_lock_test_and_set`, in the inner loop, or behind
-- `spinlock_acquire`; with `timeout`, which counts down to 0.
pub data Phase : Type 0 where
  outside : Phase
  setting : ℕ → Phase
  polling : ℕ → Phase
  inside : Phase

pub record Spin : Type 0 where
  pub lock : SpinLock
  pub phase : ℕ → Phase

abbrev pub owned_by : ℕ → Option ℕ → Bool
owned_by p none = false
owned_by p (some o) = o == p

abbrev pub move : ℕ → Phase → SpinLock → Spin → Spin
move p ph l s = record { lock = l; phase = update s.phase p ph }

-- The call: a lock that the caller itself has locked is opened.
unfoldable pub spinlock_acquire : ℕ → Spin → Spin
spinlock_acquire p s =
    move p (setting 1000)
      (record {
        locked = if s.lock.locked && owned_by p s.lock.owner_pid then false else s.lock.locked;
        owner_pid = s.lock.owner_pid;
      })
      s

-- `while (__sync_lock_test_and_set(&lock->locked, 1))`, and `owner_pid` behind the loop
unfoldable pub test_and_set : ℕ → ℕ → Spin → Spin
test_and_set p timeout s =
    if s.lock.locked
    then move p (polling timeout) s.lock s
    else move p inside (record { locked = true; owner_pid = some p }) s

-- `while (lock->locked)`: `if (timeout-- <= 0)` the lock is opened by the process that waits.
unfoldable pub poll : ℕ → ℕ → Spin → Spin
poll p timeout s =
    if not s.lock.locked
    then move p (setting timeout) s.lock s
    else if timeout == 0
    then move p (setting 0) (record { locked = false; owner_pid = s.lock.owner_pid }) s
    else move p (polling (timeout - 1)) s.lock s

unfoldable pub spinlock_release : ℕ → Spin → Spin
spinlock_release p s = move p outside (record { locked = false; owner_pid = none }) s

-- A step of a process. It calls `spinlock_acquire` when it is outside and `spinlock_release` when it is
-- inside.
pub data SpinStep : Spin → Spin → Type 0 where
  acquire : (p : ℕ) (s : Spin) → s.phase p ≡ outside → SpinStep s (spinlock_acquire p s)
  set : (p t : ℕ) (s : Spin) → s.phase p ≡ setting t → SpinStep s (test_and_set p t s)
  look : (p t : ℕ) (s : Spin) → s.phase p ≡ polling t → SpinStep s (poll p t s)
  leave : (p : ℕ) (s : Spin) → s.phase p ≡ inside → SpinStep s (spinlock_release p s)
