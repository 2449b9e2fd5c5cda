-- ===== src/Ipc/Shm/Tests.antt =====
-- The theorems on shared memory at two segments.
use rucix_kernel.Common.{◌≡◌, ◌⊎◌, arith, [], ◌∷◌, none, some}
use rucix_kernel.Common.Int.{pos}
use rucix_kernel.Ipc.Shm.{Segment, Shm, find_shm, sys_shmget, sys_shmat, sys_shmdt}
use rucix_kernel.Ipc.Shm.Segments.{IsValid, shmdt-shmat}
use rucix_kernel.Ipc.Shm.Get.{Got, shmget-Got}

abbrev two : Shm
two = record {
  segments =
      record { id = 2; key = 7; size = 64; phys_addr = 8192; ref_count = pos 1 }
      ∷ record { id = 1; key = 5; size = 32; phys_addr = 4096; ref_count = pos 0 }
      ∷ [];
  next_shm_id = 3;
  memory = λ x. 1;
  freed = [];
}

two-IsValid : IsValid two
unfolding IsValid
two-IsValid = (
  ((omega arith, (λ e. omega arith), (λ e. omega arith), tt), (tt, tt)),
  (omega arith, (omega arith, tt)),
)

shmget-Got_example :
    IsValid (sys_shmget 9 16 100 200 two).1 × Got 9 16 100 200 two (sys_shmget 9 16 100 200 two)
shmget-Got_example =
    shmget-Got 9 16 100 200 two two-IsValid ((λ e. omega arith), ((λ e. omega arith), tt))

shmdt-shmat_run :
    ((find_shm 1 two.segments ≡ none) × (sys_shmat 1 two ≡ (none, two)))
    ⊎ ((s : Segment) × (find_shm 1 two.segments ≡ some s)
        × ((sys_shmat 1 two).0 ≡ some s.phys_addr)
        × (sys_shmdt s.phys_addr (sys_shmat 1 two).1 ≡ some two))
shmdt-shmat_run = shmdt-shmat two 1 two-IsValid
