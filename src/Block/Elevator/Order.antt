-- ===== src/Block/Elevator/Order.antt =====
-- kernel/drivers/block/elevator.c: the order of the deadline scheduler's queue.
use rucix_kernel.Common.{
  ℕ, suc, ◌≤◌, ◌≡◌, ◌≢◌, refl, sym, ap, subst, some, List, [], ◌∷◌, ◌++◌, ltb, arith, inl, inr,
  Bool-cases, ltb→lt,
}
use rucix_kernel.Block.Elevator.{
  Request, Where, back, front, sort, deadline, insert_before, deadline_add_req, elv_add_request,
  elv_next_request,
}

abbrev pub AllAtMost : ℕ → List Request → Type 0
AllAtMost n [] = Unit {0}
AllAtMost n (r ∷ q) = (r.sector ≤ n) × AllAtMost n q

abbrev pub AllFrom : ℕ → List Request → Type 0
AllFrom n [] = Unit {0}
AllFrom n (r ∷ q) = (n ≤ r.sector) × AllFrom n q

abbrev pub Sorted : List Request → Type 0
Sorted [] = Unit {0}
Sorted (r ∷ q) = AllFrom r.sector q × Sorted q

-- The request stands behind those with a sector no higher and before those with a higher one.
abbrev pub Placed : Request → List Request → List Request → Type 0
Placed rq q r =
    (pre : List Request) × (post : List Request) × (q ≡ pre ++ post)
    × (r ≡ pre ++ rq ∷ post)
    × AllAtMost rq.sector pre
    × AllFrom (suc rq.sector) post
    × Sorted r

AllFrom-le : (n m : ℕ) (q : List Request) → n ≤ m → AllFrom m q → AllFrom n q
AllFrom-le n m [] le a = tt
AllFrom-le n m (r ∷ q) le (h, a) = (omega arith, AllFrom-le n m q le a)

AllFrom-insert :
    (n : ℕ) (rq : Request) (q : List Request)
    → n ≤ rq.sector
    → AllFrom n q
    → AllFrom n (insert_before rq q)
AllFrom-insert n rq [] le a = (le, tt)
AllFrom-insert n rq (c ∷ q) le (h, a) = elim (Bool-cases (ltb rq.sector c.sector)) [
  | inl t ↦ rw t (le, (h, a))
  | inr t ↦ rw t (h, AllFrom-insert n rq q le a)
]

insert-Placed : (rq : Request) (q : List Request) → Sorted q → Placed rq q (insert_before rq q)
insert-Placed rq [] s = ([], [], refl, refl, tt, tt, (tt, tt))
insert-Placed rq (c ∷ q) (a, s) = elim (Bool-cases (ltb rq.sector c.sector)) [
  | inl t ↦
      let lower = ltb→lt rq.sector c.sector t in
      let above = AllFrom-le (suc rq.sector) c.sector q lower a in
      let above' = AllFrom-le rq.sector c.sector q (omega arith) a in
      ([], c ∷ q, refl, rw t refl, tt, (lower, above), rw t ((omega arith, above'), (a, s)))
  | inr t ↦
      let (pre, post, e, f, low, high, sorted) = insert-Placed rq q s in
      (
        c ∷ pre,
        post,
        ap (λ l. c ∷ l) e,
        rw t (ap (λ l. c ∷ l) f),
        (ground arith, low),
        high,
        rw t (AllFrom-insert c.sector rq q (ground arith) a, sorted),
      )
]

-- The next request of a sorted queue.
next_request-least :
    (pre : List Request) (rq : Request) (post : List Request)
    → Sorted (pre ++ rq ∷ post)
    → (r : Request) × (elv_next_request (pre ++ rq ∷ post) ≡ some r)
      × AllFrom r.sector (pre ++ rq ∷ post)
unfolding elv_next_request
next_request-least [] rq post (a, s) = (rq, refl, (omega arith, a))
next_request-least (x ∷ pre) rq post (a, s) = (x, refl, (omega arith, a))

-- What is promised of the queue after an insertion, and of its next request.
abbrev pub Inserted : Request → List Request → List Request → Type 0
Inserted rq q q' =
    Placed rq q q' × ((r : Request) × (elv_next_request q' ≡ some r) × AllFrom r.sector q')

insert-Inserted : (rq : Request) (q : List Request) → Sorted q → Inserted rq q (insert_before rq q)
insert-Inserted rq q s =
    let placed = insert-Placed rq q s in
    let (pre, post, e, f, low, high, sorted) = placed in
    let least = next_request-least pre rq post (subst Sorted f sorted) in
    (
      placed,
      subst (λ l. (r : Request) × (elv_next_request l ≡ some r) × AllFrom r.sector l) (sym f) least,
    )

-- The deadline scheduler keeps a sorted queue sorted: a request that is not sent to the front goes
-- behind all requests with a sector no higher, so that requests for the same sector keep their
-- order, and before all with a higher one; nothing else moves. `elv_next_request` of the new queue
-- then returns a request, whose sector is the lowest in that queue.
pub elv_add_request-Placed :
    (rq : Request) (w : Where) (q : List Request)
    → w ≢ front
    → Sorted q
    → Inserted rq q (elv_add_request deadline rq w q)
unfolding elv_add_request deadline_add_req
elv_add_request-Placed rq front q n s = absurd (n refl)
elv_add_request-Placed rq back q n s = insert-Inserted rq q s
elv_add_request-Placed rq sort q n s = insert-Inserted rq q s
