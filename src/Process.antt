-- ===== src/Process.antt =====
-- kernel/process: the fields of `struct process` that the schedulers use, and the scheduler's
-- state. A process is named by the address of its record; `none` is the null pointer.
pub mod Mlfq
pub mod Fair
mod Tests
use rucix_kernel.Common.{ℕ, Option}
use rucix_kernel.Common.Int.{ℤ}
use rucix_kernel.Common.Chain.{update}

-- PROCESS_STATE_READY and the others
pub data State : Type 0 where
  ready running blocked terminated sleeping : State

-- SCHED_OTHER and the others
pub data Policy : Type 0 where
  other fifo rr cfs : Policy

pub data SchedClass : Type 0 where
  mlfq fair : SchedClass

pub record Task : Type 0 where
  pub pid : ℕ
  pub state : State
  pub policy : Policy
  pub sched_class : SchedClass
  pub priority : ℤ
  pub time_slice : ℤ
  pub quantum : ℤ
  pub cpu_time : ℕ
  pub vruntime : ℕ
  pub waiting_on : ℕ
  pub next_ready : Option ℕ

-- The processes, `mlfq_queues` and `mlfq_tails` by level, and `cfs_queue`.
pub record Sched : Type 0 where
  pub task : ℕ → Task
  pub queues : ℕ → Option ℕ
  pub tails : ℕ → Option ℕ
  pub cfs_queue : Option ℕ

abbrev pub next : Sched → ℕ → Option ℕ
next s p = (s.task p).next_ready

abbrev pub set_task : ℕ → Task → Sched → Sched
set_task p t s = record s { task = update s.task p t }

-- `p->next_ready = q`
abbrev pub set_next : ℕ → Option ℕ → Sched → Sched
set_next p q s = set_task p (record (s.task p) { next_ready = q }) s
