-- ===== src/Process/Fair/Queue.antt =====
-- kernel/process/sched_fair.c against a list sorted by virtual run time.
use rucix_kernel.Common.{
  ℕ, ◌<◌, ◌≡◌, refl, sym, ap, subst, ◌∙◌, Bool, true, false, Option, none, some, List, ◌∷◌, ◌++◌,
  arith, ltb, ◌==◌, if◌then◌else◌, length, fun_ext,
}
use rucix_kernel.Common.Chain.{
  update, has, Distinct, Chain, last_or, head?, before, from_first, walk, walk-before,
  before-append-from_first, splice, frame, has-append, Distinct-append, is_last-mem,
}
use rucix_kernel.Common.Chain.Unlink.{
  or_head, relink-or_head, Chain-suffix, points_to, points_to-last_or,
}
use rucix_kernel.Process.{Sched, ready, next, set_task, set_next}
use rucix_kernel.Process.Fair.{vruntime, write_cfs_link, enqueue_task_fair}
use rucix_kernel.Process.Fair.Sorted.{
  IsSorted, insert_by, insert_by-split, Distinct-insert_by, IsSorted-insert_by,
}

-- The queue holds the processes `xs`, in the order of their virtual run times.
pub record FairHolds (s : Sched) (xs : List ℕ) : Type 0 where
  pub chain : Chain (next s) s.cfs_queue xs
  pub distinct : Distinct xs
  pub sorted : IsSorted (vruntime s) xs

-- The three fields that a write through `curr` may touch.
pub write_cfs_link_fields :
    (prev t : Option ℕ) (s : Sched)
    → let s' = write_cfs_link prev t s in
      ((y : ℕ) → next s' y ≡ (if points_to prev y then t else next s y))
      × (s'.cfs_queue ≡ or_head s.cfs_queue prev t)
      × ((y : ℕ) → vruntime s' y ≡ vruntime s y)
      × ((y : ℕ) → (s'.task y).state ≡ (s.task y).state)
unfolding write_cfs_link update
write_cfs_link_fields none t s = (λ y. refl, refl, λ y. refl, λ y. refl)
write_cfs_link_fields (some b) t s = (λ y. ground arith, refl, λ y. ground arith, λ y. ground arith)

pub set_next_fields :
    (p : ℕ) (t : Option ℕ) (s : Sched)
    → let s' = set_next p t s in
      ((y : ℕ) → next s' y ≡ (if p == y then t else next s y))
      × ((y : ℕ) → vruntime s' y ≡ vruntime s y)
      × ((y : ℕ) → (s'.task y).state ≡ (s.task y).state)
unfolding update
set_next_fields p t s = (λ y. ground arith, λ y. ground arith, λ y. ground arith)

-- What `enqueue_task_fair` promises.
pub record FairEnqueued (fuel p : ℕ) (s : Sched) (xs : List ℕ) (s' : Sched) : Type 0 where
  pub no_fault : enqueue_task_fair fuel p s ≡ some s'
  pub holds : FairHolds s' (insert_by (vruntime s) p xs)
  pub is_ready : (s'.task p).state ≡ ready
  pub same_key : vruntime s' ≡ vruntime s

module _ (fuel p : ℕ) (s : Sched) (xs : List ℕ) (h : FairHolds s xs) (out : has p xs ≡ false)
    (enough : length xs < fuel) where
  abbrev readied : Sched
  readied = set_task p (record (s.task p) { state = ready }) s

  abbrev stop : ℕ → Bool
  stop x = ltb (vruntime s p) (vruntime s x)

  abbrev ys : List ℕ
  ys = before stop xs

  abbrev zs : List ℕ
  zs = from_first stop xs

  abbrev inserted : Sched
  inserted = write_cfs_link (last_or none ys) (some p) (set_next p (head? zs) readied)

  readied_fields :
      ((y : ℕ) → vruntime readied y ≡ vruntime s y)
      × ((y : ℕ) → next readied y ≡ next s y)
      × ((readied.task p).state ≡ ready)
  unfolding update
  readied_fields = (λ y. ground arith, λ y. ground arith, ground arith)

  stop-readied : (λ x. ltb (vruntime readied p) (vruntime readied x)) ≡ stop
  stop-readied = fun_ext (λ x. ground (arith, readied_fields.0 p, readied_fields.0 x))

  next-inserted :
      (y : ℕ)
      → next inserted y
        ≡ (if points_to (last_or none ys) y then some p else if p == y then head? zs else next s y)
  next-inserted y = ground (
    arith,
    (write_cfs_link_fields (last_or none ys) (some p) (set_next p (head? zs) readied)).0 y,
    (set_next_fields p (head? zs) readied).0 y,
    readied_fields.1 y,
  )

  key_inserted : vruntime inserted ≡ vruntime s
  key_inserted = fun_ext (λ y. ground (
    arith,
    (write_cfs_link_fields (last_or none ys) (some p) (set_next p (head? zs) readied)).2 y,
    (set_next_fields p (head? zs) readied).1 y,
    readied_fields.0 y,
  ))

  parts :
      Chain (next s) s.cfs_queue (ys ++ zs)
      × Distinct ys
      × Distinct zs
      × ((y : ℕ) → has y ys ≡ true → has y zs ≡ false)
      × (has p ys ≡ false)
      × (has p zs ≡ false)
  parts =
      let e = before-append-from_first stop xs in
      let d = Distinct-append ys zs (subst Distinct (sym e) h.distinct) in
      (
        subst (λ l. Chain (next s) s.cfs_queue l) (sym e) h.chain,
        d.0,
        d.1,
        d.2,
        ground (arith, out, ap (has p) e, has-append p ys zs),
        ground (arith, out, ap (has p) e, has-append p ys zs),
      )

  Chain-inserted : Chain (next inserted) inserted.cfs_queue (ys ++ p ∷ zs)
  Chain-inserted =
      let c = parts in
      let prev = last_or none ys in
      let q = set_next p (head? zs) readied in
      subst (λ k. Chain (next inserted) k (ys ++ p ∷ zs))
        (relink-or_head s.cfs_queue (some p) ys ∙ sym (write_cfs_link_fields prev (some p) q).1)
        (splice (next s) (next inserted) s.cfs_queue (some p) ys zs (p ∷ zs) c.0 c.1
          (λ y i. ground (arith, next-inserted y, points_to-last_or ys y, c.4))
          (refl, subst (λ k. Chain (next inserted) k zs) (sym link) back))
    where
      link : next inserted p ≡ head? zs
      link = ground (arith, next-inserted p, points_to-last_or ys p, is_last-mem p ys, parts.4)

      back : Chain (next inserted) (head? zs) zs
      back =
          frame (next s) (next inserted) (head? zs) zs
            (Chain-suffix (next s) s.cfs_queue ys zs parts.0)
            (λ y i. ground (
              arith,
              next-inserted y,
              points_to-last_or ys y,
              is_last-mem y ys,
              parts.3 y,
              parts.5,
            ))

  walked :
      walk (λ x. ltb (vruntime readied p) (vruntime readied x)) (next readied) fuel none s.cfs_queue
      ≡ some (last_or none ys, head? zs)
  walked =
      ap (λ f. walk f (next readied) fuel none s.cfs_queue) stop-readied
      ∙ ap (λ n. walk stop n fuel none s.cfs_queue) (fun_ext readied_fields.1)
      ∙ walk-before stop (next s) fuel none s.cfs_queue xs h.chain enough

  enqueue_inserted : FairEnqueued fuel p s xs inserted
  unfolding enqueue_task_fair
  enqueue_inserted = record {
    no_fault = rw (walked, enqueue_task_fair);
    holds = record {
      chain =
          subst (λ l. Chain (next inserted) inserted.cfs_queue l)
            (insert_by-split (vruntime s) p xs) Chain-inserted;
      distinct = Distinct-insert_by (vruntime s) p xs h.distinct out;
      sorted =
          subst (λ k. IsSorted k (insert_by (vruntime s) p xs)) (sym key_inserted)
            (IsSorted-insert_by (vruntime s) p xs h.sorted);
    };
    is_ready =
        (write_cfs_link_fields (last_or none ys) (some p) (set_next p (head? zs) readied)).3 p
        ∙ (set_next_fields p (head? zs) readied).2 p
        ∙ readied_fields.2;
    same_key = key_inserted;
  }

-- `enqueue_task_fair` of a process that is not in the queue makes it ready and inserts it behind
-- all processes with the same or a smaller virtual run time, so the queue stays sorted; fuel above
-- the length of the queue is enough for the walk.
pub enqueue_task_fair-insert_by :
    (fuel p : ℕ) (s : Sched) (xs : List ℕ)
    → FairHolds s xs
    → has p xs ≡ false
    → length xs < fuel
    → (s' : Sched) × FairEnqueued fuel p s xs s'
enqueue_task_fair-insert_by fuel p s xs h out enough =
    (inserted fuel p s xs h out enough, enqueue_inserted fuel p s xs h out enough)
