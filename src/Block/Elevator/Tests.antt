-- ===== src/Block/Elevator/Tests.antt =====
-- kernel/drivers/block/elevator.c: runs on concrete queues.
use rucix_kernel.Common.{ℕ, ◌≡◌, ◌≢◌, refl, List, [], ◌∷◌, arith}
use rucix_kernel.Block.Elevator.{
  Request, back, front, deadline, elv_add_request, elv_merge_bio, deadline_add_req,
}
use rucix_kernel.Block.Elevator.Order.{Sorted, Inserted, elv_add_request-Placed}
use rucix_kernel.Block.Elevator.Merge.{Merged, elv_merge_bio-Merged}

abbrev at : ℕ → Request
at n = record { sector = n; nr_sectors = 8; bios = record { sector = n; size = 4096 } ∷ [] }

abbrev waiting : List Request
waiting = at 8 ∷ at 24 ∷ at 64 ∷ []

waiting-Sorted : Sorted waiting
waiting-Sorted = ((omega arith, (omega arith, tt)), ((omega arith, tt), (tt, tt)))

between : elv_add_request deadline (at 40) back waiting ≡ at 8 ∷ at 24 ∷ at 40 ∷ at 64 ∷ []
unfolding elv_add_request deadline_add_req
between = refl

back_is_not_front : back ≢ front
back_is_not_front e = cc

elv_add_request-Placed_example :
    Inserted (at 40) waiting (elv_add_request deadline (at 40) back waiting)
elv_add_request-Placed_example =
    elv_add_request-Placed (at 40) back waiting back_is_not_front waiting-Sorted

elv_merge_bio-Merged_run :
    Merged
      (record { sector = 32; size = 1024 })
      waiting
      (elv_merge_bio (record { sector = 32; size = 1024 }) waiting)
elv_merge_bio-Merged_run = elv_merge_bio-Merged (record { sector = 32; size = 1024 }) waiting
