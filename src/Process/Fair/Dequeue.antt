-- ===== src/Process/Fair/Dequeue.antt =====
-- kernel/process/sched_fair.c: taking processes off the queue.
use rucix_kernel.Common.{
  ℕ, ◌≤◌, ◌<◌, ◌≡◌, sym, ap, subst, ◌∙◌, true, Option, none, some, List, [], ◌∷◌, ◌++◌, arith, ◌==◌,
  if◌then◌else◌, Bool-cases, inl, inr, length, fun_ext,
}
use rucix_kernel.Common.Chain.{has, Distinct, Chain, last_or, walk, walk-before, frame}
use rucix_kernel.Common.Chain.Unlink.{
  points_to, erase, Distinct-erase, Split, split_at, absent, unlink-Chain,
}
use rucix_kernel.Process.{Sched, next, set_next}
use rucix_kernel.Process.Fair.{vruntime, write_cfs_link, dequeue_task_fair, pick_next_task_fair}
use rucix_kernel.Process.Fair.Sorted.{IsSorted, IsSorted-erase, IsSorted-tail, head-least}
use rucix_kernel.Process.Fair.Queue.{FairHolds, write_cfs_link_fields, set_next_fields}

module _ (fuel p : ℕ) (s : Sched) (xs : List ℕ) (h : FairHolds s xs) (enough : length xs < fuel)
    (i : has p xs ≡ true) where
  r : Split p xs
  r = split_at p xs i

  abbrev prev : Option ℕ
  prev = last_or none r.front

  abbrev removed : Sched
  removed = set_next p none (write_cfs_link prev (next s p) s)

  next-removed :
      (y : ℕ)
      → next removed y ≡ (if p == y then none else if points_to prev y then next s p else next s y)
  next-removed y = ground (
    arith,
    (set_next_fields p none (write_cfs_link prev (next s p) s)).0 y,
    (write_cfs_link_fields prev (next s p) s).0 y,
  )

  key_removed : vruntime removed ≡ vruntime s
  key_removed = fun_ext (λ y. ground (
    arith,
    (set_next_fields p none (write_cfs_link prev (next s p) s)).1 y,
    (write_cfs_link_fields prev (next s p) s).2 y,
  ))

  Chain-removed : Chain (next removed) removed.cfs_queue (erase p xs)
  Chain-removed =
      subst (λ l. Chain (next removed) removed.cfs_queue l) (sym r.erased)
        (subst (λ k. Chain (next removed) k (r.front ++ r.back))
          (sym (write_cfs_link_fields prev (next s p) s).1)
          (unlink-Chain (next s) (next removed) s.cfs_queue p r.front r.back
            (subst (λ l. Chain (next s) s.cfs_queue l) r.whole h.chain)
            (subst Distinct r.whole h.distinct) next-removed))

  removed-FairHolds : FairHolds removed (erase p xs)
  removed-FairHolds = record {
    chain = Chain-removed;
    distinct = Distinct-erase p xs h.distinct;
    sorted =
        subst (λ k. IsSorted k (erase p xs)) (sym key_removed)
          (IsSorted-erase (vruntime s) p xs h.sorted);
  }

  walked : walk (λ x. x == p) (next s) fuel none s.cfs_queue ≡ some (prev, some p)
  walked =
      walk-before (λ x. x == p) (next s) fuel none s.cfs_queue xs h.chain enough
      ∙ rw r.found (ap (λ k. some (prev, k)) r.hit)

  removed_lem : dequeue_task_fair fuel p s ≡ some removed
  unfolding dequeue_task_fair
  removed_lem = rw (walked, dequeue_task_fair)

-- `dequeue_task_fair` takes the process off the queue, which stays sorted, and changes nothing
-- when the process is not in it; fuel above the length of the queue is enough for the walk.
pub dequeue_task_fair-erase :
    (fuel p : ℕ) (s : Sched) (xs : List ℕ)
    → FairHolds s xs
    → length xs < fuel
    → (s' : Sched) × (dequeue_task_fair fuel p s ≡ some s') × FairHolds s' (erase p xs)
unfolding dequeue_task_fair
dequeue_task_fair-erase fuel p s xs h enough = elim (Bool-cases (has p xs)) [
  | inl i ↦ (
    removed fuel p s xs h enough i,
    removed_lem fuel p s xs h enough i,
    removed-FairHolds fuel p s xs h enough i,
  )
  | inr o ↦ (
    s,
    rw (
      walk-before (λ x. x == p) (next s) fuel none s.cfs_queue xs h.chain enough,
      (absent p xs o).0,
      dequeue_task_fair,
    ),
    rw (absent p xs o).1 h,
  )
]

-- What `pick_next_task_fair` promises of the queue's list.
pub FairPick : Sched → List ℕ → Option ℕ × Sched → Type 0
FairPick s [] r = r ≡ (none, s)
FairPick s (p ∷ xs) r =
    (s' : Sched) × (r ≡ (some p, s'))
    × FairHolds s' xs
    × (next s' p ≡ none)
    × ((y : ℕ) → has y xs ≡ true → vruntime s p ≤ vruntime s y)

-- `pick_next_task_fair` returns the null pointer on the empty queue; otherwise it takes off the
-- first process, whose virtual run time is the least of the queue, and leaves the rest sorted.
pub pick_next_task_fair-least :
    (s : Sched) (xs : List ℕ) → FairHolds s xs → FairPick s xs (pick_next_task_fair s)
unfolding pick_next_task_fair FairPick
pick_next_task_fair-least s [] h = rw h.chain
pick_next_task_fair-least s (p ∷ xs) h = (
  picked,
  rw h.chain.0,
  record {
    chain =
        frame (next s) (next picked) (next s p) xs h.chain.1
          (λ y i. ground (arith, fields.0 y, h.distinct.0));
    distinct = h.distinct.1;
    sorted =
        subst (λ k. IsSorted k xs) (sym (fun_ext fields.1))
          (IsSorted-tail (vruntime s) p xs h.sorted);
  },
  ground (arith, fields.0 p),
  λ y i. head-least (vruntime s) p y xs h.sorted i,
)
  where
    popped : Sched
    popped = record s { cfs_queue = next s p }

    picked : Sched
    picked = set_next p none popped

    fields :
        ((y : ℕ) → next picked y ≡ (if p == y then none else next s y))
        × ((y : ℕ) → vruntime picked y ≡ vruntime s y)
    fields = ((set_next_fields p none popped).0, (set_next_fields p none popped).1)
