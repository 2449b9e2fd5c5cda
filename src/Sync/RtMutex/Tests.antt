-- ===== src/Sync/RtMutex/Tests.antt =====
-- The theorems on real-time mutexes at concrete states.
use rucix_kernel.Common.{false, ◌≡◌, ◌≢◌, ◌⊎◌, refl, some, [], if◌then◌else◌, ◌==◌}
use rucix_kernel.Common.Steps.{begin, go}
use rucix_kernel.Sync.RtMutex.{Rt, rt_mutex_init, rt_mutex_lock, rt_mutex_unlock}
use rucix_kernel.Sync.RtMutex.Held.{Holds}
use rucix_kernel.Sync.RtMutex.Reach.{lock, Reachable-Holds}
use rucix_kernel.Sync.RtMutex.Unlock.{Unlocked, rt_mutex_unlock-Unlocked}

-- No lock is held; the process 1 has the priority 5 and the others 2.
abbrev idle : Rt
idle = record {
  procs = λ p. record {
    priority = if p == 1 then 5 else 2;
    base_priority = if p == 1 then 5 else 2;
    is_blocked = false;
    held_locks = [];
  };
  locks = λ l. rt_mutex_init;
  enqueued = [];
}

idle-Holds : Holds idle
unfolding Holds
idle-Holds = (λ p l. refl, λ p. tt)

-- The process 1 takes the lock 64, and the process 2 waits for it.
abbrev contended : Rt
contended = rt_mutex_lock 2 64 (rt_mutex_lock 1 64 idle)

Reachable-Holds_example : Holds contended
Reachable-Holds_example =
    Reachable-Holds idle contended idle-Holds
      (go (go begin (lock 1 64 idle)) (lock 2 64 (rt_mutex_lock 1 64 idle)))

rt_mutex_unlock-Unlocked_example :
    (((contended.locks 64).owner ≢ some 1) × (rt_mutex_unlock 1 64 contended ≡ contended))
    ⊎ (((contended.locks 64).owner ≡ some 1)
        × Unlocked 1 64 contended (rt_mutex_unlock 1 64 contended))
rt_mutex_unlock-Unlocked_example = rt_mutex_unlock-Unlocked 1 64 contended
