-- ===== src/Timer/Run.antt =====
-- kernel/time/hrtimer.c: the run of the timers that have expired.
use rucix_kernel.Common.{ℕ, suc, ◌+◌, ◌<◌, ◌≡◌, refl, false, List, [], ◌∷◌, arith}
use rucix_kernel.Timer.{Timer, list_del, insert, hrtimer_start}
use rucix_kernel.Timer.Queue.{IsQueue, queued, due, IsQueue-insert}

-- What a timer's function may do to the queue, from which its timer has been taken: whatever keeps it a
-- queue and neither adds a timer that has expired nor takes one away.
abbrev pub Polite : ℕ → (ℕ → Timer → List Timer → List Timer) → Type 0
Polite now call =
    (f : ℕ) (t : Timer) (q : List Timer)
    → IsQueue q
    → queued t.node q ≡ false
    → IsQueue (call f t q) × (due now (call f t q) ≡ due now q)

due-insert :
    (now : ℕ) (t : Timer) (q : List Timer) → now < t.expires → due now (insert t q) ≡ due now q
unfolding insert
due-insert now t [] lt = ground arith
due-insert now t (x ∷ q) lt = ground (arith, due-insert now t q lt)

list_del-unqueued : (n : ℕ) (q : List Timer) → queued n q ≡ false → list_del n q ≡ q
unfolding list_del
list_del-unqueued n [] h = refl
list_del-unqueued n (t ∷ q) h = ground (arith, list_del-unqueued n q)

-- A function that starts its timer again for a time to come does neither: the timers that had expired
-- still have, and no other has. So a periodic timer runs once in each `hrtimer_run_queues`.
pub restart-Polite : (now period : ℕ) → Polite now (λ f t q. hrtimer_start t (now + suc period) q)
unfolding hrtimer_start
restart-Polite now period f t q h out =
    let t' : Timer = record { node = t.node; expires = now + suc period; function = t.function } in
    rw (list_del-unqueued t.node q out)
      (IsQueue-insert t' q h out, due-insert now t' q (omega arith))
