-- ===== src/Ipc/Shm.antt =====
-- kernel/ipc/shm.c: segments of shared memory. Keys, which are only compared, are bit patterns; the
-- mutex that each call holds is left out.
pub mod Segments
pub mod Get
mod Tests
use rucix_kernel.Common.{
  ℕ, zero, suc, ◌+◌, Option, none, some, List, [], ◌∷◌, ◌++◌, ◌==◌, if◌then◌else◌,
}
use rucix_kernel.Strings.{Mem, memset}
use rucix_kernel.Common.Int.{ℤ, pos, suc_ℤ, pred_ℤ}

-- `struct shm_segment`; `next` is the order of the list
pub record Segment : Type 0 where
  pub id : ℕ
  pub key : ℕ
  pub size : ℕ
  pub phys_addr : ℕ
  pub ref_count : ℤ

-- `segments` and `next_shm_id`, with the bytes of the memory and the addresses that `kfree` was called
-- with, in order
pub record Shm : Type 0 where
  pub segments : List Segment
  pub next_shm_id : ℕ
  pub memory : Mem
  pub freed : List ℕ

-- after `shm_init`
abbrev pub shm_init : Mem → Shm
shm_init memory = record { segments = []; next_shm_id = 1; memory = memory; freed = [] }

unfoldable pub find_shm : ℕ → List Segment → Option Segment
find_shm id [] = none
find_shm id (s ∷ rest) = let found = find_shm id rest in if s.id == id then some s else found

unfoldable pub find_shm_key : ℕ → List Segment → Option Segment
find_shm_key key [] = none
find_shm_key key (s ∷ rest) =
    let found = find_shm_key key rest in if s.key == key then some s else found

-- A new segment at the front of the list, and `memset` of its bytes.
unfoldable pub create : ℕ → ℕ → ℕ → Shm → Option ℕ × Shm
create key size addr m =
    let s : Segment = record {
      id = m.next_shm_id;
      key = key;
      size = size;
      phys_addr = addr;
      ref_count = pos 0;
    } in
    (
      some s.id,
      record {
        segments = s ∷ m.segments;
        next_shm_id = m.next_shm_id + 1;
        memory = memset m.memory addr 0 size;
        freed = m.freed;
      },
    )

-- `kfree(s)`
abbrev pub give_back : ℕ → Shm → Shm
give_back addr m = record {
  segments = m.segments;
  next_shm_id = m.next_shm_id;
  memory = m.memory;
  freed = m.freed ++ addr ∷ [];
}

-- `sys_shmget`; the two calls of `kmalloc`, for the record and for the bytes, return `record_addr` and
-- `addr`, 0 for none; what `kmalloc` and `kfree` write themselves is left out. `none` is -1.
unfoldable pub sys_shmget : ℕ → ℕ → ℕ → ℕ → Shm → Option ℕ × Shm
sys_shmget key size record_addr addr m = elim (find_shm_key key m.segments) [
  | some s ↦ (some s.id, m)
  | none ↦
      if record_addr == 0
      then (none, m)
      else if addr == 0
      then (none, give_back record_addr m)
      else create key size addr m
]

abbrev pub with_count : ℤ → Segment → Segment
with_count c s = record {
  id = s.id;
  key = s.key;
  size = s.size;
  phys_addr = s.phys_addr;
  ref_count = c;
}

-- `ref_count++` of the segment that `find_shm` finds
unfoldable pub attach : ℕ → List Segment → List Segment
attach id [] = []
attach id (s ∷ rest) =
    let others = attach id rest in
    if s.id == id then with_count (suc_ℤ s.ref_count) s ∷ rest else s ∷ others

abbrev pub with_segments : List Segment → Shm → Shm
with_segments l m = record {
  segments = l;
  next_shm_id = m.next_shm_id;
  memory = m.memory;
  freed = m.freed;
}

-- `none` is `(void*)-1`.
unfoldable pub sys_shmat : ℕ → Shm → Option ℕ × Shm
sys_shmat shmid m = elim (find_shm shmid m.segments) [
  | none ↦ (none, m)
  | some s ↦ (some s.phys_addr, with_segments (attach shmid m.segments) m)
]

-- The loop of `sys_shmdt`: `none` when no segment has the address.
unfoldable pub detach : ℕ → List Segment → Option (List Segment)
detach addr [] = none
detach addr (s ∷ rest) =
    let others = detach addr rest in
    if s.phys_addr == addr
    then some (with_count (pred_ℤ s.ref_count) s ∷ rest)
    else elim others [ none ↦ none | some l ↦ some (s ∷ l) ]

-- `some` of the state for 0
unfoldable pub sys_shmdt : ℕ → Shm → Option Shm
sys_shmdt addr m = elim (detach addr m.segments) [ none ↦ none | some l ↦ some (with_segments l m) ]
