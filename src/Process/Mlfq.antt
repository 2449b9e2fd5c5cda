-- ===== src/Process/Mlfq.antt =====
-- kernel/process/sched_mlfq.c: one first-in first-out queue for each of four levels.
pub mod Queues
pub mod Enqueue
pub mod Dequeue
pub mod Pick
use rucix_kernel.Common.{ℕ, zero, suc, ◌+◌, Bool, Option, none, some, leb, ◌==◌, if◌then◌else◌}
use rucix_kernel.Common.Int.{ℤ, pos, negsuc, pred_ℤ, positive}
use rucix_kernel.Common.Chain.{update, walk}
use rucix_kernel.Common.Chain.Unlink.{points_to}
use rucix_kernel.Process.{Task, Sched, ready, next, set_task, set_next}

abbrev pub mlfq_levels : ℕ
mlfq_levels = 4

-- The level that a priority stands for.
abbrev pub level : ℤ → ℕ
level (pos n) = if leb mlfq_levels n then 3 else n
level (negsuc n) = 0

-- `none` is a write through a null tail pointer.
unfoldable pub enqueue_task_mlfq : ℕ → Sched → Option Sched
enqueue_task_mlfq p s =
    let s1 = set_task p (record (s.task p) { state = ready; next_ready = none }) s in
    let l = level (s.task p).priority in
    elim (s.queues l) [
      | none ↦
          some
            (record s1 { queues = update s.queues l (some p); tails = update s.tails l (some p) })
      | some _ ↦ elim (s.tails l) [
        | none ↦ none
        | some t ↦ some (record (set_next t (some p) s1) { tails = update s.tails l (some p) })
      ]
    ]

-- `*curr = p->next_ready`: `curr` is the head's cell or the `next_ready` field of `prev`.
unfoldable pub write_link : ℕ → Option ℕ → Option ℕ → Sched → Sched
write_link l none q s = record s { queues = update s.queues l q }
write_link l (some b) q s = set_next b q s

unfoldable pub unlink : ℕ → Option ℕ → ℕ → Sched → Sched
unlink l prev p s =
    let s1 = write_link l prev (next s p) s in
    let tails = if points_to (s.tails l) p then update s.tails l prev else s.tails in
    set_next p none (record s1 { tails = tails })

-- With fuel for the walk along the queue; `none` is "out of fuel".
unfoldable pub dequeue_task_mlfq : ℕ → ℕ → Sched → Option Sched
dequeue_task_mlfq fuel p s =
    let l = level (s.task p).priority in
    elim (walk (λ x. x == p) (next s) fuel none (s.queues l)) [
      | none ↦ none
      | some (prev, none) ↦ some s
      | some (prev, some q) ↦ some (unlink l prev p s)
    ]

-- The levels from `i` on, `rounds` of them.
unfoldable pub pick_from : ℕ → ℕ → Sched → Option ℕ × Sched
pick_from zero i s = (none, s)
pick_from (suc rounds) i s = elim (s.queues i) [
  | none ↦ pick_from rounds (i + 1) s
  | some p ↦
      let tails : ℕ → Option ℕ = elim (next s p) [
        | none ↦ update s.tails i none
        | some _ ↦ s.tails
      ] in
      (some p, set_next p none (record s { queues = update s.queues i (next s p); tails = tails }))
]

unfoldable pub pick_next_task_mlfq : Sched → Option ℕ × Sched
pick_next_task_mlfq s = pick_from mlfq_levels 0 s

pub task_tick_mlfq : ℕ → Sched → Sched
task_tick_mlfq p s =
    if positive (s.task p).time_slice
    then set_task p (record (s.task p) { time_slice = pred_ℤ (s.task p).time_slice }) s
    else s
