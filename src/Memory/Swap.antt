-- ===== src/Memory/Swap.antt =====
-- kernel/memory/swap.c: pages of memory moved to the slots of a swap device and back.
pub mod Slots
pub mod RoundTrip
mod Tests
use rucix_kernel.Common.{
  ℕ, zero, suc, ◌+◌, ◌-◌, ◌*◌, ◌/◌, ◌%◌, ◌^◌, Bool, true, false, ◌&&◌, ◌||◌, not, Option, none,
  some, ltb, leb, ◌==◌, if◌then◌else◌,
}
use rucix_kernel.Common.Chain.{update}
use rucix_kernel.Strings.{Mem, memcpy}
use rucix_kernel.Memory.Pmm.{Pmm, alloc_page_fuel}

-- `swap_device_t`; the bitmap has a byte for each slot.
pub record Device : Type 0 where
  pub active : Bool
  pub storage : ℕ
  pub size : ℕ
  pub bitmap : ℕ → ℕ

-- `swap_devices`, with the memory and the page allocator
pub record Swap : Type 0 where
  pub devices : ℕ → Device
  pub mem : Mem
  pub pmm : Pmm

-- `swap_entry_t`
pub record Entry : Type 0 where
  pub device_id : ℕ
  pub offset : ℕ

abbrev pub swap_page_size : ℕ
swap_page_size = 4096

abbrev pub max_swap_devices : ℕ
max_swap_devices = 4

abbrev pub set_bitmap : ℕ → ℕ → Device → Device
set_bitmap i v dev = record {
  active = dev.active;
  storage = dev.storage;
  size = dev.size;
  bitmap = update dev.bitmap i v;
}

-- `swap_init`, with the addresses that the two calls of `kmalloc` return, 0 for none. A device without
-- storage stays active.
unfoldable pub swap_init : ℕ → ℕ → Swap → Swap
swap_init storage bitmap s =
    let old = (s.devices 0).bitmap in
    let cleared = λ (i : ℕ). if ltb i 1024 then 0 else old i in
    let dev : Device = record {
      active = true;
      storage = storage;
      size = 1024;
      bitmap = if (storage == 0) || (bitmap == 0) then old else cleared;
    } in
    record { devices = update s.devices 0 dev; mem = s.mem; pmm = s.pmm }

-- The loop of `find_free_swap_slot`, with `n` slots left from `i` on.
unfoldable pub find_slot : (ℕ → ℕ) → ℕ → ℕ → Option ℕ
find_slot bitmap zero i = none
find_slot bitmap (suc n) i =
    let rest = find_slot bitmap n (i + 1) in if bitmap i == 0 then some i else rest

unfoldable pub find_free_swap_slot : Device → Option (ℕ × Device)
find_free_swap_slot dev = elim (find_slot dev.bitmap dev.size 0) [
  | none ↦ none
  | some i ↦ some (i, set_bitmap i 1 dev)
]

-- `phys_addr & 0xFFFFFFFFFFFFF000`
abbrev pub page_of : ℕ → ℕ
page_of a = a - a % 4096

-- What `swap_out` does with the slot that it has found.
unfoldable pub store_page : ℕ → ℕ → Device → Swap → Entry × Swap
store_page phys offset dev s = (
  record { device_id = 0; offset = offset },
  record {
    devices = update s.devices 0 dev;
    mem = memcpy s.mem (dev.storage + offset * swap_page_size) (page_of phys) swap_page_size;
    pmm = s.pmm;
  },
)

-- `none` for -1
unfoldable pub swap_out : ℕ → Swap → Option (Entry × Swap)
swap_out phys s =
    if not (s.devices 0).active then none else elim (find_free_swap_slot (s.devices 0)) [
      | none ↦ none
      | some (offset, dev) ↦ some (store_page phys offset dev s)
    ]

-- What `swap_in` does with the page that it has got.
unfoldable pub load_page : Entry → ℕ → Pmm → Swap → Swap
load_page e page pmm s =
    let dev = s.devices e.device_id in
    record {
      devices = update s.devices e.device_id (set_bitmap e.offset 0 dev);
      mem = memcpy s.mem page (dev.storage + e.offset * swap_page_size) swap_page_size;
      pmm = pmm;
    }

-- The page and the state; `none` for -1, with the state
unfoldable pub swap_in : Entry → Swap → Option ℕ × Swap
swap_in e s =
    if leb max_swap_devices e.device_id || not (s.devices e.device_id).active
    then (none, s)
    else if leb (s.devices e.device_id).size e.offset
    then (none, s)
    else elim (alloc_page_fuel 2 s.pmm) [
      | none ↦ (none, s)
      | some (none, pmm) ↦ (none, record { devices = s.devices; mem = s.mem; pmm = pmm })
      | some (some page, pmm) ↦ (some page, load_page e page pmm s)
    ]

-- The entry that a page table entry holds: bit 0 is PTE_PRESENT, bit 9 PTE_SWAPPED.
unfoldable pub entry_of : ℕ → Entry
entry_of pte = record { device_id = pte / 2 % 256; offset = pte / 4096 }

-- `handle_swap_fault`: `pte` is what `vmm_get_pte` returns, and the result the page that is mapped by
-- `vmm_map_page` as present, writable and open to the user.
unfoldable pub handle_swap_fault : ℕ → Swap → Option ℕ × Swap
handle_swap_fault pte s =
    if (pte % 2 == 1) || not (pte / 512 % 2 == 1) then (none, s) else swap_in (entry_of pte) s
