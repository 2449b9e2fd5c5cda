-- ===== src/Process/Mlfq/Pick.antt =====
-- kernel/process/sched_mlfq.c: `pick_next_task_mlfq` against a list for each level.
use rucix_kernel.Common.{
  ℕ, zero, suc, ◌+◌, ◌<◌, ◌≡◌, refl, ap, subst, false, Option, none, some, List, [], ◌∷◌, arith,
  ◌==◌, if◌then◌else◌, Bool-cases, inl, inr, ◌⊎◌, ==_iff, ==_refl,
}
use rucix_kernel.Common.Chain.{update, has, Distinct, Chain, last_or, frame}
use rucix_kernel.Process.{Sched, next, set_next}
use rucix_kernel.Process.Mlfq.{mlfq_levels, pick_from, pick_next_task_mlfq}
use rucix_kernel.Process.Mlfq.Queues.{Holds, Holds-update}

-- The process `p` at the head of the first level `m` that is not empty is taken off its list.
pub record Picked (s : Sched) (q : ℕ → List ℕ) (p m : ℕ) (rest : List ℕ) (s' : Sched) : Type 0 where
  pub in_range : m < mlfq_levels
  pub first : q m ≡ p ∷ rest
  pub higher : (k : ℕ) → k < m → q k ≡ []
  pub holds : Holds s' (update q m rest)
  pub detached : next s' p ≡ none

-- What `pick_next_task_mlfq` promises.
pub PickNext : Sched → (ℕ → List ℕ) → Option ℕ × Sched → Type 0
PickNext s q r =
    ((p : ℕ) × (m : ℕ) × (rest : List ℕ) × (s' : Sched) × (r ≡ (some p, s'))
      × Picked s q p m rest s')
    ⊎ ((r ≡ (none, s)) × ((k : ℕ) → k < mlfq_levels → q k ≡ []))

module _ (s : Sched) (q : ℕ → List ℕ) (h : Holds s q) where
  abbrev tails_after : ℕ → ℕ → ℕ → Option ℕ
  tails_after p i = elim (next s p) [ none ↦ update s.tails i none | some _ ↦ s.tails ]

  abbrev after_pick : ℕ → ℕ → Sched
  after_pick p i =
      set_next p none (record s { queues = update s.queues i (next s p); tails = tails_after p i })

  tail_after :
      (p i : ℕ) (xs : List ℕ)
      → Chain (next s) (next s p) xs
      → s.tails i ≡ last_or (some p) xs
      → tails_after p i i ≡ last_or none xs
  unfolding update
  tail_after p i [] c t = ground (arith, c)
  tail_after p i (x ∷ xs) c t = ground (arith, c.0, t)

  tails_other : (p i m : ℕ) → (i == m) ≡ false → tails_after p i m ≡ s.tails m
  unfolding update
  tails_other p i m ne = ground arith

  next_after : (p i y : ℕ) → next (after_pick p i) y ≡ (if p == y then none else next s y)
  unfolding update
  next_after p i y = ground arith

  after_pick-Holds : (p i : ℕ) (xs : List ℕ) → q i ≡ p ∷ xs → Holds (after_pick p i) (update q i xs)
  unfolding update
  after_pick-Holds p i xs e =
      Holds-update s (after_pick p i) q i xs h (λ m ne. (ground arith, tails_other p i m ne))
        (λ m y ne j. ground (arith, next_after p i y, h.apart i m p, ap (has p) e))
        (rw (==_refl i) (
          frame (next s) (next (after_pick p i)) (next s p) xs front.1
            (λ y j. ground (arith, next_after p i y, distinct.0))))
        (tail_after p i xs front.1 (ground (arith, h.tail i, ap (last_or none) e))) distinct.1
        (λ m x j k. ground (arith, h.apart i m x, ap (has x) e))
    where
      front : Chain (next s) (s.queues i) (p ∷ xs)
      front = subst (λ l. Chain (next s) (s.queues i) l) e (h.chain i)

      distinct : Distinct (p ∷ xs)
      distinct = subst Distinct e (h.distinct i)

  detached_after : (p i : ℕ) → next (after_pick p i) p ≡ none
  detached_after p i = ground (arith, next_after p i p)

  pick_from-PickNext :
      (rounds i : ℕ)
      → i + rounds ≡ mlfq_levels
      → ((k : ℕ) → k < i → q k ≡ [])
      → PickNext s q (pick_from rounds i s)
  unfolding pick_from PickNext
  pick_from-PickNext zero i e above = inr (refl, λ k lt. above k (omega arith))
  pick_from-PickNext (suc rounds) i e above =
      go (q i) refl (λ up. pick_from-PickNext rounds (i + 1) (omega arith) up)
    where
      head : (xs : List ℕ) → q i ≡ xs → Chain (next s) (s.queues i) xs
      head xs here = subst (λ l. Chain (next s) (s.queues i) l) here (h.chain i)

      go :
          (xs : List ℕ)
          → q i ≡ xs
          → (((k : ℕ) → k < i + 1 → q k ≡ []) → PickNext s q (pick_from rounds (i + 1) s))
          → PickNext s q (pick_from (suc rounds) i s)
      go [] here rec = subst (PickNext s q) skip (rec up)
        where
          skip : pick_from rounds (i + 1) s ≡ pick_from (suc rounds) i s
          skip = ground (arith, head [] here)

          up : (k : ℕ) → k < i + 1 → q k ≡ []
          up k lt = elim (Bool-cases (i == k)) [
            | inl e ↦ ground (arith, here, ap q ((==_iff i k).0 e))
            | inr ne ↦ above k (ground arith)
          ]
      go (p ∷ xs) here rec = inl (
        p,
        i,
        xs,
        after_pick p i,
        ground (arith, (head (p ∷ xs) here).0),
        record {
          in_range = omega arith;
          first = here;
          higher = above;
          holds = after_pick-Holds p i xs here;
          detached = detached_after p i;
        },
      )

-- `pick_next_task_mlfq` takes the process at the head of the first level that is not empty, so no
-- process of a lower level is chosen while a higher level holds one; it returns the null pointer
-- exactly when the four levels are empty, and keeps the queues' links and tails right.
pub pick_next_task_mlfq-PickNext :
    (s : Sched) (q : ℕ → List ℕ) → Holds s q → PickNext s q (pick_next_task_mlfq s)
unfolding pick_next_task_mlfq
pick_next_task_mlfq-PickNext s q h =
    pick_from-PickNext s q h 4 0 refl (λ k lt. absurd (omega arith))
