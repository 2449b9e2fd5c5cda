-- ===== src/Memory/Swap/Slots.antt =====
-- kernel/memory/swap.c: the choice of a slot, and what a page is written to.
use rucix_kernel.Common.{
  ℕ, zero, suc, ◌+◌, ◌*◌, ◌≤◌, ◌<◌, ◌≡◌, ◌≢◌, ◌⊎◌, refl, ap, subst, true, false, Option, none, some,
  ◌==◌, Bool-cases, inl, inr, arith,
}
use rucix_kernel.Common.Chain.{update}
use rucix_kernel.Strings.{Mem}
use rucix_kernel.Strings.Blocks.{copied, memcpy-copied, Apart}
use rucix_kernel.Memory.Swap.{
  Device, Swap, Entry, swap_page_size, set_bitmap, find_slot, find_free_swap_slot, page_of,
  store_page, swap_out,
}

-- What the loop over the slots finds.
unfoldable pub Chosen : (ℕ → ℕ) → ℕ → ℕ → Option ℕ → Type 0
Chosen bitmap i n none = (j : ℕ) → i ≤ j → j < i + n → bitmap j ≢ 0
Chosen bitmap i n (some k) = (i ≤ k) × (k < i + n) × (bitmap k ≡ 0)

step-Chosen :
    (bitmap : ℕ → ℕ) (n i : ℕ) (o : Option ℕ)
    → bitmap i ≢ 0
    → Chosen bitmap (i + 1) n o
    → Chosen bitmap i (suc n) o
unfolding Chosen
step-Chosen bitmap n i none used h = λ j lo hi. elim (Bool-cases (i == j)) [
  | inl e ↦ let same : i ≡ j = ground arith in subst (λ k. bitmap k ≢ 0) same used
  | inr e ↦ h j (ground arith) (omega arith)
]
step-Chosen bitmap n i (some k) used (lo, hi, z) = (omega arith, omega arith, z)

find_slot-Chosen : (bitmap : ℕ → ℕ) (n i : ℕ) → Chosen bitmap i n (find_slot bitmap n i)
unfolding find_slot Chosen
find_slot-Chosen bitmap zero i = λ j lo hi. absurd (omega arith)
find_slot-Chosen bitmap (suc n) i = elim (Bool-cases (bitmap i == 0)) [
  | inl e ↦ rw e (omega arith, omega arith, ground arith)
  | inr e ↦ rw e (
      step-Chosen bitmap n i (find_slot bitmap n (i + 1)) (λ z. ground arith)
        (find_slot-Chosen bitmap n (i + 1)))
]

-- A page that lies outside the storage of a device.
abbrev pub Outside : Device → ℕ → Type 0
Outside dev page =
    (page + swap_page_size ≤ dev.storage) ⊎ (dev.storage + dev.size * swap_page_size ≤ page)

-- The address of a slot.
abbrev pub slot : Device → ℕ → ℕ
slot dev i = dev.storage + i * swap_page_size

slot-fits :
    (dev : Device) (i : ℕ)
    → i < dev.size
    → slot dev i + swap_page_size ≤ dev.storage + dev.size * swap_page_size
slot-fits dev i lt = omega arith

pub Outside-apart :
    (dev : Device) (i page : ℕ)
    → i < dev.size
    → Outside dev page
    → Apart (slot dev i) page swap_page_size
Outside-apart dev i page lt (inl h) = inr (omega arith)
Outside-apart dev i page lt (inr h) = inl (omega arith)

pub Outside-apart_back :
    (dev : Device) (i page : ℕ)
    → i < dev.size
    → Outside dev page
    → Apart page (slot dev i) swap_page_size
Outside-apart_back dev i page lt (inl h) = inl (omega arith)
Outside-apart_back dev i page lt (inr h) = inr (omega arith)

-- What `swap_out` leads to.
unfoldable pub Stored : ℕ → Swap → Option (Entry × Swap) → Type 0
Stored phys s none =
    ((s.devices 0).active ≡ false) ⊎ ((i : ℕ) → i < (s.devices 0).size → (s.devices 0).bitmap i ≢ 0)
Stored phys s (some (e, s')) =
    (e.device_id ≡ 0)
    × (e.offset < (s.devices 0).size)
    × ((s.devices 0).bitmap e.offset ≡ 0)
    × (s' ≡ record {
      devices = update s.devices 0 (set_bitmap e.offset 1 (s.devices 0));
      mem = copied s.mem (slot (s.devices 0) e.offset) (page_of phys) swap_page_size;
      pmm = s.pmm;
    })

found-Stored :
    (phys i : ℕ) (s : Swap)
    → Outside (s.devices 0) (page_of phys)
    → (0 ≤ i) × (i < 0 + (s.devices 0).size) × ((s.devices 0).bitmap i ≡ 0)
    → Stored phys s (some (store_page phys i (set_bitmap i 1 (s.devices 0)) s))
unfolding Stored store_page
found-Stored phys i s out (lo, hi, z) = (
  refl,
  omega arith,
  z,
  ap
      (λ (m : Mem). record {
        devices = update s.devices 0 (set_bitmap i 1 (s.devices 0));
        mem = m;
        pmm = s.pmm;
      })
      (memcpy-copied s.mem (slot (s.devices 0) i) (page_of phys) swap_page_size
        (Outside-apart (s.devices 0) i (page_of phys) (omega arith) out)),
)

full-Stored :
    (phys : ℕ) (s : Swap)
    → ((i : ℕ) → i < (s.devices 0).size → (s.devices 0).bitmap i ≢ 0)
    → Stored phys s none
unfolding Stored
full-Stored phys s h = inr h

off-Stored : (phys : ℕ) (s : Swap) → (s.devices 0).active ≡ false → Stored phys s none
unfolding Stored
off-Stored phys s h = inl h

swap_out_by :
    (phys : ℕ) (s : Swap) (o : Option ℕ)
    → find_slot (s.devices 0).bitmap (s.devices 0).size 0 ≡ o
    → Chosen (s.devices 0).bitmap 0 (s.devices 0).size o
    → Outside (s.devices 0) (page_of phys)
    → (s.devices 0).active ≡ true
    → Stored phys s (swap_out phys s)
unfolding swap_out find_free_swap_slot Chosen
swap_out_by phys s none e h out on =
    rw (on, e) (full-Stored phys s (λ i lt. h i (omega arith) (omega arith)))
swap_out_by phys s (some i) e h out on = rw (on, e) (found-Stored phys i s out h)

-- `swap_out` fails only if the device is not active or all its slots are in use. Otherwise it takes a
-- slot that was free, marks it, writes the page to it and changes no other byte and no other slot. The
-- page lies outside the storage.
pub swap_out-Stored :
    (phys : ℕ) (s : Swap) → Outside (s.devices 0) (page_of phys) → Stored phys s (swap_out phys s)
unfolding swap_out
swap_out-Stored phys s out = elim (Bool-cases (s.devices 0).active) [
  | inl on ↦
      swap_out_by phys s (find_slot (s.devices 0).bitmap (s.devices 0).size 0) refl
        (find_slot-Chosen (s.devices 0).bitmap (s.devices 0).size 0) out on
  | inr off ↦ rw off (off-Stored phys s off)
]
