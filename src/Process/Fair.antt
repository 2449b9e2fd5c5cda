-- ===== src/Process/Fair.antt =====
-- kernel/process/sched_fair.c: one queue, sorted by virtual run time.
pub mod Sorted
pub mod Queue
pub mod Dequeue
use rucix_kernel.Common.{ℕ, ◌+◌, Option, none, some, ltb, ◌==◌, if◌then◌else◌}
use rucix_kernel.Common.Int.{pred_ℤ, positive}
use rucix_kernel.Common.Words.{u64}
use rucix_kernel.Common.Chain.{update, walk}
use rucix_kernel.Process.{Task, Sched, ready, next, set_task, set_next}

abbrev pub vruntime : Sched → ℕ → ℕ
vruntime s p = (s.task p).vruntime

-- `*curr = q`: `curr` is the cell of `cfs_queue` or the `next_ready` field of `prev`.
unfoldable pub write_cfs_link : Option ℕ → Option ℕ → Sched → Sched
write_cfs_link none q s = record s { cfs_queue = q }
write_cfs_link (some b) q s = set_next b q s

-- With fuel for the walk along the queue; `none` is "out of fuel".
unfoldable pub enqueue_task_fair : ℕ → ℕ → Sched → Option Sched
enqueue_task_fair fuel p s =
    let s1 = set_task p (record (s.task p) { state = ready }) s in
    elim (walk (λ x. ltb (vruntime s1 p) (vruntime s1 x)) (next s1) fuel none s1.cfs_queue) [
      | none ↦ none
      | some (prev, curr) ↦ some (write_cfs_link prev (some p) (set_next p curr s1))
    ]

unfoldable pub dequeue_task_fair : ℕ → ℕ → Sched → Option Sched
dequeue_task_fair fuel p s = elim (walk (λ x. x == p) (next s) fuel none s.cfs_queue) [
  | none ↦ none
  | some (prev, none) ↦ some s
  | some (prev, some q) ↦ some (set_next p none (write_cfs_link prev (next s p) s))
]

unfoldable pub pick_next_task_fair : Sched → Option ℕ × Sched
pick_next_task_fair s = elim s.cfs_queue [
  | none ↦ (none, s)
  | some p ↦ (some p, set_next p none (record s { cfs_queue = next s p }))
]

pub task_tick_fair : ℕ → Sched → Sched
task_tick_fair p s =
    let s1 = set_task p (record (s.task p) { vruntime = u64 ((s.task p).vruntime + 1) }) s in
    if positive (s.task p).time_slice
    then set_task p (record (s1.task p) { time_slice = pred_ℤ (s.task p).time_slice }) s1
    else s1
