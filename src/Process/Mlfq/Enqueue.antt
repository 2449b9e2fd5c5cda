-- ===== src/Process/Mlfq/Enqueue.antt =====
-- kernel/process/sched_mlfq.c : `enqueue_task_mlfq` against a list for each level.
use rucix_kernel.Common.{
  ℕ, ◌≡◌, ap, subst, ◌∙◌, true, false, none, some, List, [], ◌∷◌, ◌++◌, arith, ◌==◌, if◌then◌else◌,
}
use rucix_kernel.Common.Chain.{
  update, has, Distinct, Chain, last_or, Distinct-append, last_or-append, last_of,
}
use rucix_kernel.Common.Chain.Unlink.{cut, Chain-head}
use rucix_kernel.Process.{Sched, ready, next, set_task, set_next}
use rucix_kernel.Process.Mlfq.{level, enqueue_task_mlfq}
use rucix_kernel.Process.Mlfq.Queues.{Holds}

-- What `enqueue_task_mlfq` promises: `p` is ready and stands at the end of its level's list.
pub record Enqueued (p : ℕ) (s : Sched) (q : ℕ → List ℕ) (s' : Sched) : Type 0 where
  pub no_fault : enqueue_task_mlfq p s ≡ some s'
  pub holds : let l = level (s.task p).priority in Holds s' (update q l (q l ++ p ∷ []))
  pub is_ready : (s'.task p).state ≡ ready

module _ (p : ℕ) (s : Sched) (q : ℕ → List ℕ) (h : Holds s q)
    (out : (l : ℕ) → has p (q l) ≡ false) where
  abbrev enqueue_level : ℕ
  enqueue_level = level (s.task p).priority

  abbrev readied : Sched
  readied = set_task p (record (s.task p) { state = ready; next_ready = none }) s

  abbrev alone : Sched
  alone = record readied {
    queues = update s.queues enqueue_level (some p);
    tails = update s.tails enqueue_level (some p);
  }

  abbrev behind : ℕ → Sched
  behind t = record (set_next t (some p) readied) { tails = update s.tails enqueue_level (some p) }

module _ (p : ℕ) (s : Sched) (q : ℕ → List ℕ) (h : Holds s q) (front : List ℕ) (b : ℕ)
    (back : List ℕ) (e : q (level (s.task p).priority) ≡ front ++ p ∷ b ∷ back) where
  again_at :
      (t : ℕ)
      → s.tails (level (s.task p).priority) ≡ some t
      → has t (b ∷ back) ≡ true
      → (s' : Sched) × (enqueue_task_mlfq p s ≡ some s')
        × Chain (next s') (s'.queues (level (s.task p).priority)) (front ++ p ∷ [])
  unfolding enqueue_task_mlfq update
  again_at t tail mem = (again, ground (arith, nonempty, tail), chained)
    where
      l : ℕ
      l = level (s.task p).priority

      again : Sched
      again =
          record (set_next t (some p)
            (set_task p (record (s.task p) { state = ready; next_ready = none }) s)) {
              tails = update s.tails l (some p);
            }

      whole : Chain (next s) (s.queues l) (front ++ p ∷ b ∷ back)
      whole = subst (λ xs. Chain (next s) (s.queues l) xs) e (h.chain l)

      parts :
          Distinct front
          × Distinct (p ∷ b ∷ back)
          × ((y : ℕ) → has y front ≡ true → has y (p ∷ b ∷ back) ≡ false)
      parts = Distinct-append front (p ∷ b ∷ back) (subst Distinct e (h.distinct l))

      next_again :
          (y : ℕ) → next again y ≡ (if t == y then some p else if p == y then none else next s y)
      next_again y = ground arith

      nonempty : (x : ℕ) × (s.queues l ≡ some x)
      nonempty = Chain-head (next s) (s.queues l) p front (b ∷ back) whole

      chained : Chain (next again) (s.queues l) (front ++ p ∷ [])
      chained =
          cut (next s) (next again) (s.queues l) p front (b ∷ back) whole
            (λ y i. ground (arith, next_again y, parts.2 y)) (ground (arith, next_again p, parts.1))

  -- Enqueueing a process that stands in the list of its level already, with others behind it, cuts
  -- those off: the level's links then lead through the processes before it and end at the process.
  pub enqueue_task_mlfq_again :
      (s' : Sched) × (enqueue_task_mlfq p s ≡ some s')
      × Chain (next s') (s'.queues (level (s.task p).priority)) (front ++ p ∷ [])
  enqueue_task_mlfq_again =
      let (t, last, _, mem) = last_of b back in
      again_at t
        (h.tail (level (s.task p).priority)
          ∙ ap (last_or none) e
          ∙ last_or-append none front (p ∷ b ∷ back)
          ∙ last)
        mem
