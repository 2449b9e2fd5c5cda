-- ===== src/Timer.antt =====
-- kernel/time/hrtimer.c: the queue of timers. A timer is known by the address of its node; the linked
-- list is the list of the timers in it, each with its fields.
pub mod Queue
pub mod Run
pub mod Clock
mod Tests
use rucix_kernel.Common.{
  ℕ, zero, suc, ◌+◌, ◌-◌, ◌*◌, ◌/◌, ◌%◌, ◌^◌, Bool, true, false, Option, none, some, List, [], ◌∷◌,
  ◌++◌, ltb, leb, ◌==◌, if◌then◌else◌,
}
use rucix_kernel.Common.Words.{u64, sub_u64}

-- `function` is `none` for the null pointer.
pub record Timer : Type 0 where
  pub node : ℕ
  pub expires : ℕ
  pub function : Option ℕ

-- `list_del` of a node that is in the list, and nothing otherwise
unfoldable pub list_del : ℕ → List Timer → List Timer
list_del t [] = []
list_del t (x ∷ q) = let rest = list_del t q in if t == x.node then q else x ∷ rest

-- The loop of `hrtimer_start`: before the first entry that expires later, or at the end.
unfoldable pub insert : Timer → List Timer → List Timer
insert t [] = t ∷ []
insert t (x ∷ q) = let rest = insert t q in if ltb t.expires x.expires then t ∷ x ∷ q else x ∷ rest

unfoldable pub hrtimer_start : Timer → ℕ → List Timer → List Timer
hrtimer_start t expires q =
    insert (record { node = t.node; expires = expires; function = t.function }) (list_del t.node q)

unfoldable pub hrtimer_cancel : Timer → List Timer → List Timer
hrtimer_cancel t q = list_del t.node q

-- `if (timer->function) timer->function(timer)`: what the function does to the queue is a parameter.
unfoldable pub expire :
    (ℕ → Timer → List Timer → List Timer) → Timer → Option ℕ → List Timer → List Timer
expire call t none q = q
expire call t (some f) q = call f t q

-- `hrtimer_run_queues` with fuel, one round for each timer that expires: the timers that have expired,
-- in their order, and the queue that is left.
unfoldable pub hrtimer_run_queues :
    (ℕ → Timer → List Timer → List Timer)
    → ℕ
    → ℕ
    → List Timer
    → List Timer
    → Option (List Timer × List Timer)
hrtimer_run_queues call now zero log q = none
hrtimer_run_queues call now (suc fuel) log [] = some (log, [])
hrtimer_run_queues call now (suc fuel) log (t ∷ q) =
    let rest = hrtimer_run_queues call now fuel (log ++ t ∷ []) (expire call t t.function q) in
    if leb t.expires now then rest else some (log, t ∷ q)

-- `ktime_get_ns` from the counter's value; `none` for the division by zero at a frequency below 1 MHz
unfoldable pub ktime_get_ns : ℕ → ℕ → ℕ → Option ℕ
ktime_get_ns tsc initial_tsc tsc_frequency =
    if ltb tsc_frequency 1000000
    then none
    else some (u64 (sub_u64 tsc initial_tsc * 1000) / (tsc_frequency / 1000000))
