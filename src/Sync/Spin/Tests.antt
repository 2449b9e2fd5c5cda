-- ===== src/Sync/Spin/Tests.antt =====
-- The theorems on the spin lock at concrete states.
use rucix_kernel.Common.{◌≡◌, ◌⊎◌, refl, true, some, if◌then◌else◌, ◌==◌, arith}
use rucix_kernel.Common.Steps.{Reachable}
use rucix_kernel.Sync.Spin.{
  Spin, outside, polling, inside, spinlock_init, spinlock_acquire, acquire,
}
use rucix_kernel.Sync.Spin.Exclusion.{Exclusive, TimedOut, SpinStep-Exclusive}
use rucix_kernel.Sync.Spin.Timeout.{StepOf, timeout_breaks}

abbrev free : Spin
free = record { lock = spinlock_init; phase = λ p. outside }

free-Exclusive : Exclusive free
unfolding Exclusive
free-Exclusive = ((λ h. ground arith), λ p h. ground arith)

SpinStep-Exclusive_example : TimedOut free ⊎ Exclusive (spinlock_acquire 1 free)
SpinStep-Exclusive_example =
    SpinStep-Exclusive free (spinlock_acquire 1 free) free-Exclusive (acquire 1 free refl)

-- The process 1 is inside, and the process 2 waits.
abbrev busy : Spin
busy = record {
  lock = record { locked = true; owner_pid = some 1 };
  phase = λ p. if p == 1 then inside else if p == 2 then polling 1000 else outside;
}

timeout_breaks_example :
    (s' : Spin) × Reachable (StepOf 2) busy s' × (s'.phase 2 ≡ inside) × (s'.phase 1 ≡ inside)
timeout_breaks_example = timeout_breaks 2 1 1000 busy (λ e. omega arith) refl refl refl
