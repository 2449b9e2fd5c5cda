-- ===== src/Process/Mlfq/Queues.antt =====
-- kernel/process/sched_mlfq.c against a list for each level.
use rucix_kernel.Common.{
  ℕ, ◌≡◌, subst, true, false, none, List, arith, ◌==◌, Bool-cases, inl, inr, ==_iff,
}
use rucix_kernel.Common.Chain.{update, has, Distinct, Chain, last_or, frame}
use rucix_kernel.Process.{Sched, next}

-- At level `l` the scheduler holds the processes `q l`, in order.
pub record Holds (s : Sched) (q : ℕ → List ℕ) : Type 0 where
  pub chain : (l : ℕ) → Chain (next s) (s.queues l) (q l)
  pub tail : (l : ℕ) → s.tails l ≡ last_or none (q l)
  pub distinct : (l : ℕ) → Distinct (q l)
  pub apart : (l m x : ℕ) → has x (q l) ≡ true → has x (q m) ≡ true → l ≡ m

-- A step that changes one level, and spares the cells of the others.
pub Holds-update :
    (s s' : Sched) (q : ℕ → List ℕ) (l : ℕ) (xs : List ℕ)
    → Holds s q
    → ((m : ℕ) → (l == m) ≡ false → (s'.queues m ≡ s.queues m) × (s'.tails m ≡ s.tails m))
    → ((m y : ℕ) → (l == m) ≡ false → has y (q m) ≡ true → next s' y ≡ next s y)
    → Chain (next s') (s'.queues l) xs
    → s'.tails l ≡ last_or none xs
    → Distinct xs
    → ((m x : ℕ) → has x xs ≡ true → has x (q m) ≡ true → l ≡ m)
    → Holds s' (update q l xs)
unfolding update
Holds-update s s' q l xs h rest spared chain tail distinct apart = record {
  chain = λ m. elim (Bool-cases (l == m)) [
    | inl e ↦ rw e (subst (λ k. Chain (next s') (s'.queues k) xs) ((==_iff l m).0 e) chain)
    | inr ne ↦
        rw (ne, (rest m ne).0)
          (frame (next s) (next s') (s.queues m) (q m) (h.chain m) (λ y i. spared m y ne i))
  ];
  tail = λ m. ground (arith, rest m, h.tail m);
  distinct =
      λ m. elim (Bool-cases (l == m)) [ inl e ↦ rw e distinct | inr ne ↦ rw ne (h.distinct m) ];
  apart = λ m n x i j. ground (arith, apart n x, apart m x, h.apart m n x);
}
