-- ===== src/Memory/Swap/RoundTrip.antt =====
-- kernel/memory/swap.c: a page that is swapped out and in again.
use mathlib.Core.Option.{none-ne-some}
use rucix_kernel.Common.{
  ℕ, ◌+◌, ◌-◌, ◌<◌, ◌≡◌, refl, sym, ◌∙◌, ap, subst, Bool, true, false, Option, none, some, leb,
  ==_refl, if◌then◌else◌, Bool-cases, inl, inr, arith,
}
use rucix_kernel.Common.Chain.{update}
use rucix_kernel.Strings.{Mem}
use rucix_kernel.Strings.Blocks.{copied, within, memcpy-copied}
use rucix_kernel.Memory.Pmm.{Pmm, alloc_page_fuel}
use rucix_kernel.Memory.Swap.{
  Device, Swap, Entry, swap_page_size, set_bitmap, page_of, swap_out, load_page, swap_in,
}
use rucix_kernel.Memory.Swap.Slots.{Outside, Outside-apart_back, slot, Stored, swap_out-Stored}

-- The state after a page has been written to a slot.
abbrev written : Swap → ℕ → ℕ → Swap
written s phys i = record {
  devices = update s.devices 0 (set_bitmap i 1 (s.devices 0));
  mem = copied s.mem (slot (s.devices 0) i) (page_of phys) swap_page_size;
  pmm = s.pmm;
}

swap_in-run :
    (s : Swap) (e : Entry) (new : ℕ) (pmm : Pmm)
    → e.device_id < 4
    → (s.devices e.device_id).active ≡ true
    → e.offset < (s.devices e.device_id).size
    → alloc_page_fuel 2 s.pmm ≡ some (some new, pmm)
    → swap_in e s ≡ (some new, load_page e new pmm s)
unfolding swap_in
swap_in-run s e new pmm known on lt got =
    let device : leb 4 e.device_id ≡ false = ground arith in
    let inside : leb (s.devices e.device_id).size e.offset ≡ false = ground arith in
    rw (device, on, inside, got) refl

copied_back :
    (dev : Device) (m : Mem) (i page new x : ℕ)
    → i < dev.size
    → Outside dev page
    → Outside dev new
    → copied (copied m (slot dev i) page swap_page_size) new (slot dev i) swap_page_size x ≡ (
        if within new swap_page_size x
        then m (page + (x - new))
        else if within (slot dev i) swap_page_size x
        then m (page + (x - slot dev i))
        else m x)
copied_back dev m i page new x lt (inl a) (inl b) = ground arith
copied_back dev m i page new x lt (inl a) (inr b) = ground arith
copied_back dev m i page new x lt (inr a) (inl b) = ground arith
copied_back dev m i page new x lt (inr a) (inr b) = ground arith

-- What has become of a page that was swapped out to the slot `i` and in again at `new`.
abbrev Back : Swap → ℕ → ℕ → ℕ → Option ℕ × Swap → Type 0
Back s phys i new (o, s') =
    (o ≡ some new)
    × ((k : ℕ) → k < swap_page_size → s'.mem (new + k) ≡ s.mem (page_of phys + k))
    × ((x : ℕ)
        → within new swap_page_size x ≡ false
        → within (slot (s.devices 0) i) swap_page_size x ≡ false
        → s'.mem x ≡ s.mem x)
    × ((s'.devices 0).bitmap i ≡ 0)

load_page-mem :
    (s : Swap) (phys i new x : ℕ) (pmm : Pmm)
    → i < (s.devices 0).size
    → Outside (s.devices 0) (page_of phys)
    → Outside (s.devices 0) new
    → (load_page (record { device_id = 0; offset = i }) new pmm (written s phys i)).mem x ≡ (
        if within new swap_page_size x
        then s.mem (page_of phys + (x - new))
        else if within (slot (s.devices 0) i) swap_page_size x
        then s.mem (page_of phys + (x - slot (s.devices 0) i))
        else s.mem x)
unfolding load_page update
load_page-mem s phys i new x pmm lt out out' =
    ap (λ (m : Mem). m x)
      (memcpy-copied (written s phys i).mem new (slot (s.devices 0) i) swap_page_size
        (Outside-apart_back (s.devices 0) i new lt out'))
    ∙ copied_back (s.devices 0) s.mem i (page_of phys) new x lt out out'

at_offset :
    (new k : ℕ) (b : Bool) (f : ℕ → ℕ) (y z : ℕ)
    → k < swap_page_size
    → (if within new swap_page_size (new + k) then f (new + k - new) else if b then y else z) ≡ f k
at_offset new k b f y z h =
    let inside : within new swap_page_size (new + k) ≡ true = ground arith in
    let d : new + k - new ≡ k = omega arith in rw (inside, d) refl

loaded-Back :
    (s : Swap) (phys i new : ℕ) (pmm : Pmm)
    → i < (s.devices 0).size
    → Outside (s.devices 0) (page_of phys)
    → Outside (s.devices 0) new
    → Back s phys i new
        (some new, load_page (record { device_id = 0; offset = i }) new pmm (written s phys i))
unfolding load_page update
loaded-Back s phys i new pmm lt out out' = (
  refl,
  λ k h.
      load_page-mem s phys i new (new + k) pmm lt out out'
      ∙ at_offset new k (within (slot (s.devices 0) i) swap_page_size (new + k))
          (λ d. s.mem (page_of phys + d)) (s.mem (page_of phys + (new + k - slot (s.devices 0) i)))
          (s.mem (new + k)) h,
  λ x h g. load_page-mem s phys i new x pmm lt out out' ∙ (rw (h, g) refl),
  rw (==_refl i) refl,
)

swapped_out-active :
    (s s1 : Swap) (phys : ℕ) (e : Entry)
    → swap_out phys s ≡ some (e, s1)
    → (s.devices 0).active ≡ true
unfolding swap_out
swapped_out-active s s1 phys e h = elim (Bool-cases (s.devices 0).active) [
  | inl on ↦ on
  | inr off ↦
      let never : swap_out phys s ≡ none = rw off refl in
      absurd (none-ne-some (e, s1) (sym never ∙ h))
]

back :
    (s s1 : Swap) (phys i d new : ℕ) (pmm : Pmm)
    → d ≡ 0
    → i < (s.devices 0).size
    → s1 ≡ written s phys i
    → (s.devices 0).active ≡ true
    → Outside (s.devices 0) (page_of phys)
    → Outside (s.devices 0) new
    → alloc_page_fuel 2 s.pmm ≡ some (some new, pmm)
    → Back s phys i new (swap_in (record { device_id = d; offset = i }) s1)
unfolding update
back s s1 phys i d new pmm zero_id lt same on out out' got =
    let run =
      swap_in-run (written s phys i) (record { device_id = 0; offset = i }) new pmm (omega arith) on
        lt got in
    rw (same, zero_id, run) (loaded-Back s phys i new pmm lt out out')

-- A page that `swap_out` has put into a slot and that `swap_in` takes back into a page that the allocator
-- gives it has its old bytes there. The slot is free again; outside the slot and the new page no byte has
-- changed. Both pages lie outside the storage of the device.
pub swap_in-swap_out :
    (s s1 : Swap) (phys new : ℕ) (e : Entry) (pmm : Pmm)
    → Outside (s.devices 0) (page_of phys)
    → Outside (s.devices 0) new
    → swap_out phys s ≡ some (e, s1)
    → alloc_page_fuel 2 s.pmm ≡ some (some new, pmm)
    → let s2 = (swap_in e s1).1 in
      ((swap_in e s1).0 ≡ some new)
      × ((k : ℕ) → k < swap_page_size → s2.mem (new + k) ≡ s.mem (page_of phys + k))
      × ((x : ℕ)
          → within new swap_page_size x ≡ false
          → within (slot (s.devices 0) e.offset) swap_page_size x ≡ false
          → s2.mem x ≡ s.mem x)
      × ((s2.devices 0).bitmap e.offset ≡ 0)
unfolding Stored
swap_in-swap_out s s1 phys new e pmm out out' run got =
    let (id, lt, free, same) = subst (Stored phys s) run (swap_out-Stored phys s out) in
    back s s1 phys e.offset e.device_id new pmm id lt same (swapped_out-active s s1 phys e run) out
      out' got
