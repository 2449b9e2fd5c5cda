-- ===== src/Process/Tests.antt =====
-- Runs of the two schedulers, and their theorems at a scheduler with three processes.
use rucix_kernel.Common.{
  ℕ, zero, suc, ◌≡◌, refl, sym, ◌∙◌, true, if◌then◌else◌, some, none, Option, List, [], ◌∷◌, arith,
  ◌==◌,
}
use rucix_kernel.Common.Int.{pos}
use rucix_kernel.Common.Chain.{update, has, Chain, Distinct, last_or}
use rucix_kernel.Process.{Task, Sched, State, ready, blocked, other, mlfq, next}
use rucix_kernel.Process.Mlfq.{enqueue_task_mlfq, pick_from, pick_next_task_mlfq}
use rucix_kernel.Process.Mlfq.Queues.{Holds}
use rucix_kernel.Process.Mlfq.Enqueue.{enqueue_task_mlfq_again}
use rucix_kernel.Process.Mlfq.Dequeue.{Dequeued, dequeue_task_mlfq-erase}
use rucix_kernel.Process.Mlfq.Pick.{PickNext, pick_next_task_mlfq-PickNext}
use rucix_kernel.Process.Fair.{dequeue_task_fair, pick_next_task_fair}
use rucix_kernel.Process.Fair.Queue.{FairHolds, FairEnqueued, enqueue_task_fair-insert_by}
use rucix_kernel.Process.Fair.Dequeue.{FairPick, dequeue_task_fair-erase, pick_next_task_fair-least}

abbrev task : State → ℕ → ℕ → Option ℕ → Task
task st prio vr nx = record {
  pid = 0;
  state = st;
  policy = other;
  sched_class = mlfq;
  priority = pos prio;
  time_slice = pos 2;
  quantum = pos 2;
  cpu_time = 0;
  vruntime = vr;
  waiting_on = 0;
  next_ready = nx;
}

-- 1 and 2 wait at level 0, 3 at level 2; 4, at level 0, is blocked
abbrev tasks : ℕ → Task
tasks zero = task blocked 0 0 none
tasks (suc zero) = task ready 0 5 (some 2)
tasks (suc (suc zero)) = task ready 0 7 none
tasks (suc (suc (suc zero))) = task ready 2 0 none
tasks (suc (suc (suc (suc p)))) = task blocked 0 6 none

abbrev heads : ℕ → Option ℕ
heads zero = some 1
heads (suc zero) = none
heads (suc (suc zero)) = some 3
heads (suc (suc (suc l))) = none

abbrev ends : ℕ → Option ℕ
ends zero = some 2
ends (suc zero) = none
ends (suc (suc zero)) = some 3
ends (suc (suc (suc l))) = none

abbrev lists : ℕ → List ℕ
lists zero = 1 ∷ 2 ∷ []
lists (suc zero) = []
lists (suc (suc zero)) = 3 ∷ []
lists (suc (suc (suc l))) = []

abbrev sched : Sched
sched = record { task = tasks; queues = heads; tails = ends; cfs_queue = some 1 }

sched-Chain : (l : ℕ) → Chain (next sched) (heads l) (lists l)
sched-Chain zero = (refl, (refl, refl))
sched-Chain (suc zero) = refl
sched-Chain (suc (suc zero)) = (refl, refl)
sched-Chain (suc (suc (suc l))) = refl

sched-tail : (l : ℕ) → ends l ≡ last_or none (lists l)
sched-tail zero = refl
sched-tail (suc zero) = refl
sched-tail (suc (suc zero)) = refl
sched-tail (suc (suc (suc l))) = refl

sched-Distinct : (l : ℕ) → Distinct (lists l)
sched-Distinct zero = (refl, (refl, tt))
sched-Distinct (suc zero) = tt
sched-Distinct (suc (suc zero)) = (refl, tt)
sched-Distinct (suc (suc (suc l))) = tt

home : (l x : ℕ) → has x (lists l) ≡ true → l ≡ (if x == 3 then 2 else 0)
home zero x i = ground arith
home (suc zero) x i = ground arith
home (suc (suc zero)) x i = ground arith
home (suc (suc (suc l))) x i = ground arith

sched-Holds : Holds sched lists
sched-Holds = record {
  chain = sched-Chain;
  tail = sched-tail;
  distinct = sched-Distinct;
  apart = λ l m x i j. home l x i ∙ sym (home m x j);
}

sched-FairHolds : FairHolds sched (1 ∷ 2 ∷ [])
sched-FairHolds = record {
  chain = (refl, (refl, refl));
  distinct = (refl, (refl, tt));
  sorted = omega arith;
}

-- After an enqueue of 4, the three picks at level 0 come in the order 1, 2, 4.
picked : Sched → ℕ → List (Option ℕ)
picked s zero = []
picked s (suc n) = let (p, s') = pick_next_task_mlfq s in p ∷ picked s' n

picked_of : Option Sched → ℕ → List (Option ℕ)
picked_of none n = []
picked_of (some s) n = picked s n

round_robin :
    picked_of (enqueue_task_mlfq 4 sched) 5 ≡ some 1 ∷ some 2 ∷ some 4 ∷ some 3 ∷ none ∷ []
unfolding picked_of picked enqueue_task_mlfq pick_next_task_mlfq pick_from update
round_robin = refl

-- Enqueueing 1 again loses 2.
twice_enqueued : picked_of (enqueue_task_mlfq 1 sched) 3 ≡ some 1 ∷ some 3 ∷ none ∷ []
unfolding picked_of picked enqueue_task_mlfq pick_next_task_mlfq pick_from update
twice_enqueued = refl

enqueue_task_mlfq_again_run :
    (s' : Sched) × (enqueue_task_mlfq 1 sched ≡ some s') × Chain (next s') (s'.queues 0) (1 ∷ [])
enqueue_task_mlfq_again_run = enqueue_task_mlfq_again 1 sched lists sched-Holds [] 2 [] refl

dequeue_task_mlfq-erase_example : (s' : Sched) × Dequeued 3 2 sched lists s'
dequeue_task_mlfq-erase_example = dequeue_task_mlfq-erase 3 2 sched lists sched-Holds (omega arith)

pick_next_task_mlfq-PickNext_example : PickNext sched lists (pick_next_task_mlfq sched)
pick_next_task_mlfq-PickNext_example = pick_next_task_mlfq-PickNext sched lists sched-Holds

enqueue_task_fair-insert_by_run : (s' : Sched) × FairEnqueued 3 4 sched (1 ∷ 2 ∷ []) s'
enqueue_task_fair-insert_by_run =
    enqueue_task_fair-insert_by 3 4 sched (1 ∷ 2 ∷ []) sched-FairHolds refl (omega arith)

dequeue_task_fair-erase_run :
    (s' : Sched) × (dequeue_task_fair 3 2 sched ≡ some s') × FairHolds s' (1 ∷ [])
dequeue_task_fair-erase_run =
    dequeue_task_fair-erase 3 2 sched (1 ∷ 2 ∷ []) sched-FairHolds (omega arith)

pick_next_task_fair-least_example : FairPick sched (1 ∷ 2 ∷ []) (pick_next_task_fair sched)
pick_next_task_fair-least_example = pick_next_task_fair-least sched (1 ∷ 2 ∷ []) sched-FairHolds
