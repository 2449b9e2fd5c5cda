-- ===== src/Process/Mlfq/Dequeue.antt =====
-- kernel/process/sched_mlfq.c: `dequeue_task_mlfq` against a list for each level.
use rucix_kernel.Common.{
  ℕ, ◌<◌, ◌≡◌, refl, ap, subst, true, false, Option, none, some, List, ◌∷◌, ◌++◌, arith, ◌==◌,
  if◌then◌else◌, Bool-cases, inl, inr, length,
}
use rucix_kernel.Common.Chain.{
  update, has, Distinct, Chain, last_or, head?, before, from_first, walk, walk-before, is_last-mem,
  has-append,
}
use rucix_kernel.Common.Chain.Unlink.{
  erase, has-erase, Distinct-erase, Split, split_at, absent, unlink-Chain, unlink-tail, or_head,
  points_to, points_to-last_or,
}
use rucix_kernel.Process.{Sched, next}
use rucix_kernel.Process.Mlfq.{level, write_link, unlink, dequeue_task_mlfq}
use rucix_kernel.Process.Mlfq.Queues.{Holds, Holds-update}

-- What `dequeue_task_mlfq` promises: the list of the level of `p` loses `p`, whose link is reset, if it
-- held it; if not, the state is the old one.
pub record Dequeued (fuel p : ℕ) (s : Sched) (q : ℕ → List ℕ) (s' : Sched) : Type 0 where
  pub no_fault : dequeue_task_mlfq fuel p s ≡ some s'
  pub holds : let l = level (s.task p).priority in Holds s' (update q l (erase p (q l)))
  pub removed : has p (q (level (s.task p).priority)) ≡ true → next s' p ≡ none
  pub unchanged : has p (q (level (s.task p).priority)) ≡ false → s' ≡ s

module _ (fuel p : ℕ) (s : Sched) (q : ℕ → List ℕ) (h : Holds s q)
    (enough : length (q (level (s.task p).priority)) < fuel) where
  abbrev l : ℕ
  l = level (s.task p).priority

  erase_apart : (m x : ℕ) → has x (erase p (q l)) ≡ true → has x (q m) ≡ true → l ≡ m
  erase_apart m x i j = h.apart l m x (has-erase p x (q l) i) j

  walked :
      walk (λ x. x == p) (next s) fuel none (s.queues l)
      ≡ some (last_or none (before (λ x. x == p) (q l)), head? (from_first (λ x. x == p) (q l)))
  walked = walk-before (λ x. x == p) (next s) fuel none (s.queues l) (q l) (h.chain l) enough

  dequeue_absent : has p (q l) ≡ false → Dequeued fuel p s q s
  unfolding dequeue_task_mlfq
  dequeue_absent o = record {
    no_fault = rw (walked, (absent p (q l) o).0, dequeue_task_mlfq);
    holds =
        Holds-update s s q l (erase p (q l)) h (λ m ne. (refl, refl)) (λ m y ne i. refl)
          (rw (absent p (q l) o).1 (h.chain l)) (rw (absent p (q l) o).1 (h.tail l))
          (Distinct-erase p (q l) (h.distinct l)) erase_apart;
    removed = λ i. ground (arith, o);
    unchanged = λ e. refl;
  }

  next-unlink :
      (prev : Option ℕ) (y : ℕ)
      → next (unlink l prev p s) y
        ≡ (if p == y then none else if points_to prev y then next s p else next s y)
  unfolding unlink write_link update
  next-unlink none y = ground arith
  next-unlink (some b) y = ground arith

  rest_unlink :
      (prev : Option ℕ) (m : ℕ)
      → ((unlink l prev p s).queues m
          ≡ (if l == m then or_head (s.queues l) prev (next s p) else s.queues m))
        × ((unlink l prev p s).tails m
            ≡ (if l == m then (if points_to (s.tails l) p then prev else s.tails l) else s.tails m))
  unfolding unlink write_link update
  rest_unlink none m = ground arith
  rest_unlink (some b) m = ground arith

  dequeue_present : has p (q l) ≡ true → (s' : Sched) × Dequeued fuel p s q s'
  unfolding dequeue_task_mlfq
  dequeue_present i = (
    unlink l prev p s,
    record {
      no_fault = rw (stop, dequeue_task_mlfq);
      holds =
          Holds-update s (unlink l prev p s) q l (erase p (q l)) h
            (λ m ne. ground (arith, rest_unlink prev m)) (λ m y ne j. spared m y ne j)
            (rw (head, r.erased) chained)
            (rw (tail, r.erased) (unlink-tail p r.front r.back split_distinct))
            (Distinct-erase p (q l) (h.distinct l)) erase_apart;
      removed = λ e. ground (arith, next-unlink prev p);
      unchanged = λ o. ground (arith, i);
    },
  )
    where
      r : Split p (q l)
      r = split_at p (q l) i

      prev : Option ℕ
      prev = last_or none r.front

      split_chain : Chain (next s) (s.queues l) (r.front ++ p ∷ r.back)
      split_chain = subst (λ xs. Chain (next s) (s.queues l) xs) r.whole (h.chain l)

      split_distinct : Distinct (r.front ++ p ∷ r.back)
      split_distinct = subst Distinct r.whole (h.distinct l)

      spared :
          (m y : ℕ) → (l == m) ≡ false → has y (q m) ≡ true → next (unlink l prev p s) y ≡ next s y
      spared m y ne j = ground (
        arith,
        next-unlink prev y,
        points_to-last_or r.front y,
        is_last-mem y r.front,
        has-append y r.front (p ∷ r.back),
        ap (has y) r.whole,
        h.apart l m y,
      )

      stop : walk (λ x. x == p) (next s) fuel none (s.queues l) ≡ some (prev, some p)
      stop = rw (walked, r.found) (ap (λ k. some (prev, k)) r.hit)

      head : (unlink l prev p s).queues l ≡ or_head (s.queues l) prev (next s p)
      head = ground (arith, (rest_unlink prev l).0)

      tail : (unlink l prev p s).tails l ≡ (
          let old = last_or none (r.front ++ p ∷ r.back) in if points_to old p then prev else old)
      tail = ground (arith, (rest_unlink prev l).1, h.tail l, ap (last_or none) r.whole)

      chained :
          Chain
            (next (unlink l prev p s))
            (or_head (s.queues l) prev (next s p))
            (r.front ++ r.back)
      chained =
          unlink-Chain (next s) (next (unlink l prev p s)) (s.queues l) p r.front r.back split_chain
            split_distinct (next-unlink prev)

-- `dequeue_task_mlfq` unlinks the process from the list of its level, with head, links and tail
-- pointer kept right, and resets the link of the process; it changes nothing at all when the process
-- is not in that list. Fuel above the length of the list is enough for the walk.
pub dequeue_task_mlfq-erase :
    (fuel p : ℕ) (s : Sched) (q : ℕ → List ℕ)
    → Holds s q
    → length (q (level (s.task p).priority)) < fuel
    → (s' : Sched) × Dequeued fuel p s q s'
dequeue_task_mlfq-erase fuel p s q h enough =
    elim (Bool-cases (has p (q (level (s.task p).priority)))) [
      | inl i ↦ dequeue_present fuel p s q h enough i
      | inr o ↦ (s, dequeue_absent fuel p s q h enough o)
    ]
