-- ===== src/Timer/Clock.antt =====
-- kernel/time/hrtimer.c: the clock.
use native.Mathlib.Nat.{le-div_iff_mul-le, div-mul-le_self}
use rucix_kernel.Common.{ℕ, ◌-◌, ◌*◌, ◌/◌, ◌^◌, ◌≤◌, ◌<◌, ◌≡◌, refl, some, arith, ltb, false}
use rucix_kernel.Common.Words.{u64, sub_u64}
use rucix_kernel.Timer.{ktime_get_ns}

div_mono : (a b k : ℕ) → 0 < k → a ≤ b → a / k ≤ b / k
div_mono a b k pos le =
    let self : a / k * k ≤ a = div-mul-le_self a k in (le-div_iff_mul-le pos).1 (omega arith)

ktime_get_ns-exact :
    (tsc initial frequency : ℕ)
    → initial ≤ tsc
    → tsc < 2 ^ 64
    → (tsc - initial) * 1000 < 2 ^ 64
    → 1000000 ≤ frequency
    → ktime_get_ns tsc initial frequency ≡ some ((tsc - initial) * 1000 / (frequency / 1000000))
unfolding ktime_get_ns
ktime_get_ns-exact tsc initial frequency le top room fast =
    let ok : ltb frequency 1000000 ≡ false = ground arith in
    let exact : u64 (sub_u64 tsc initial * 1000) ≡ (tsc - initial) * 1000 = omega arith in
    rw (ok, exact) refl

-- While the counter has not gone on by more than 2 ^ 64 / 1000 since the start, `ktime_get_ns` does not
-- overflow: it is the number of ticks divided by those of a microsecond, in thousandths, and it does not
-- go backwards. The counter runs at 1 MHz or faster and does not wrap.
pub ktime_get_ns-bounds :
    (tsc tsc' initial frequency : ℕ)
    → initial ≤ tsc
    → tsc ≤ tsc'
    → tsc' < 2 ^ 64
    → (tsc' - initial) * 1000 < 2 ^ 64
    → 1000000 ≤ frequency
    → (t : ℕ) × (t' : ℕ) × (ktime_get_ns tsc initial frequency ≡ some t)
      × (ktime_get_ns tsc' initial frequency ≡ some t')
      × (t ≡ (tsc - initial) * 1000 / (frequency / 1000000))
      × (t ≤ t')
ktime_get_ns-bounds tsc tsc' initial frequency le le' top room fast =
    let k = frequency / 1000000 in
    (
      (tsc - initial) * 1000 / k,
      (tsc' - initial) * 1000 / k,
      ktime_get_ns-exact tsc initial frequency le (omega arith) (omega arith) fast,
      ktime_get_ns-exact tsc' initial frequency (omega arith) top room fast,
      refl,
      div_mono ((tsc - initial) * 1000) ((tsc' - initial) * 1000) k (omega arith) (omega arith),
    )
