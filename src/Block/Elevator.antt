-- ===== src/Block/Elevator.antt =====
-- kernel/drivers/block/elevator.c: the I/O schedulers. A queue is the list of its requests, in the
-- order of the doubly linked list.
pub mod Order
pub mod Merge
mod Tests
use rucix_kernel.Common.{
  ℕ, zero, suc, ◌+◌, ◌/◌, ◌%◌, ◌^◌, Bool, true, false, Option, none, some, List, [], ◌∷◌, ◌++◌, ltb,
  ◌==◌, if◌then◌else◌,
}
use rucix_kernel.Common.Words.{u64}

-- The fields of `struct bio` that the schedulers read.
pub record Bio : Type 0 where
  pub sector : ℕ
  pub size : ℕ

-- `struct request`, with its chain of bios.
pub record Request : Type 0 where
  pub sector : ℕ
  pub nr_sectors : ℕ
  pub bios : List Bio

-- `ELEVATOR_INSERT_BACK`, `ELEVATOR_INSERT_FRONT` and `ELEVATOR_INSERT_SORT`
pub data Where : Type 0 where
  back front sort : Where

pub data Scheduler : Type 0 where
  noop deadline : Scheduler

unfoldable pub noop_add_req : Request → Where → List Request → List Request
noop_add_req rq front q = rq ∷ q
noop_add_req rq back q = q ++ rq ∷ []
noop_add_req rq sort q = q ++ rq ∷ []

-- The loop of `deadline_add_req`: before the first request with a higher sector, or at the end.
abbrev pub insert_before : Request → List Request → List Request
insert_before rq [] = rq ∷ []
insert_before rq (curr ∷ q) =
    if ltb rq.sector curr.sector then rq ∷ curr ∷ q else curr ∷ insert_before rq q

unfoldable pub deadline_add_req : Request → Where → List Request → List Request
deadline_add_req rq front q = rq ∷ q
deadline_add_req rq back q = insert_before rq q
deadline_add_req rq sort q = insert_before rq q

-- `elv_next_request`, for both schedulers: the request stays in the queue.
unfoldable pub elv_next_request : List Request → Option Request
elv_next_request [] = none
elv_next_request (rq ∷ q) = some rq

-- `noop_merge_req` and `deadline_merge_req`, which have the same text
unfoldable pub merge_req : Request → Bio → Option Request
merge_req req bio =
    if u64 (req.sector + req.nr_sectors) == bio.sector
    then some (record req {
      bios = req.bios ++ bio ∷ [];
      nr_sectors = (req.nr_sectors + bio.size / 512) % 2 ^ 32;
    })
    else none

-- `elv_merge_bio`: the queue after it if a request took the bio.
unfoldable pub elv_merge_bio : Bio → List Request → Option (List Request)
elv_merge_bio bio [] = none
elv_merge_bio bio (curr ∷ q) =
    let rest : Option (List Request) = elim (elv_merge_bio bio q) [
      | none ↦ none
      | some q' ↦ some (curr ∷ q')
    ] in
    elim (merge_req curr bio) [ some req ↦ some (req ∷ q) | none ↦ rest ]

-- `__elv_add_request`
unfoldable pub elv_add_request : Scheduler → Request → Where → List Request → List Request
elv_add_request noop rq w q = noop_add_req rq w q
elv_add_request deadline rq w q = deadline_add_req rq w q
