-- ===== src/Timer/Tests.antt =====
-- The theorems on timers at concrete queues.
use rucix_kernel.Common.{
  ℕ, ◌*◌, ◌/◌, ◌^◌, ◌%◌, ◌-◌, ◌≤◌, ◌<◌, ◌≡◌, refl, arith, List, [], ◌∷◌, none, some, if◌then◌else◌,
  ◌==◌,
}
use rucix_kernel.Timer.{Timer, hrtimer_start, hrtimer_cancel, ktime_get_ns}
use rucix_kernel.Timer.Queue.{expiry, IsQueue, hrtimer_start-expiry}
use rucix_kernel.Timer.Clock.{ktime_get_ns-bounds}

abbrev early : Timer
early = record { node = 16; expires = 100; function = some 1 }

abbrev late : Timer
late = record { node = 32; expires = 300; function = none }

abbrev both : List Timer
both = early ∷ late ∷ []

both-IsQueue : IsQueue both
both-IsQueue = ((omega arith, tt), refl, (tt, refl, tt))

hrtimer_start-expiry_example :
    IsQueue (hrtimer_start early 400 both)
    × IsQueue (hrtimer_cancel early both)
    × ((n : ℕ)
        → expiry n (hrtimer_start early 400 both) ≡ (if n == 16 then some 400 else expiry n both))
    × ((n : ℕ) → expiry n (hrtimer_cancel early both) ≡ (if n == 16 then none else expiry n both))
hrtimer_start-expiry_example = hrtimer_start-expiry early 400 both both-IsQueue

ktime_get_ns-bounds_example :
    (t : ℕ) × (t' : ℕ) × (ktime_get_ns 5000 2000 3000000 ≡ some t)
    × (ktime_get_ns 9000 2000 3000000 ≡ some t')
    × (t ≡ (5000 - 2000) * 1000 / (3000000 / 1000000))
    × (t ≤ t')
ktime_get_ns-bounds_example =
    ktime_get_ns-bounds 5000 9000 2000 3000000 (omega arith) (omega arith) (omega arith)
      (omega arith) (omega arith)

-- Behind the bound of the theorem the multiplication wraps and the clock goes back: at 1 GHz this is
-- after 213 days.
clock_wraps :
    (t : ℕ) × (t' : ℕ) × (ktime_get_ns (18 * 10 ^ 15) 0 1000000000 ≡ some t)
    × (ktime_get_ns (19 * 10 ^ 15) 0 1000000000 ≡ some t')
    × (t' < t)
unfolding ktime_get_ns
clock_wraps = (18 * 10 ^ 15, 19 * 10 ^ 18 % 2 ^ 64 / 1000, refl, refl, omega arith)
