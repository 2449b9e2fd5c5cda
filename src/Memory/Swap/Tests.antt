-- ===== src/Memory/Swap/Tests.antt =====
-- The theorems on swap at a device of four slots.
use rucix_kernel.Common.{ℕ, ◌+◌, ◌<◌, ◌≡◌, inl, refl, arith, true, false, some, if◌then◌else◌, ◌==◌}
use rucix_kernel.Common.Words.{and_bit, or_bit}
use rucix_kernel.Common.Chain.{update}
use rucix_kernel.Strings.Blocks.{within}
use rucix_kernel.Memory.Pmm.{
  Pmm, alloc_page_fuel, find_first_free, find_clear, test_bit, take_page, set_bit, write_byte,
}
use rucix_kernel.Memory.Swap.{
  Swap, Entry, swap_page_size, set_bitmap, swap_out, swap_in, find_free_swap_slot, find_slot,
  store_page,
}
use rucix_kernel.Memory.Swap.Slots.{Stored, slot, swap_out-Stored}
use rucix_kernel.Memory.Swap.RoundTrip.{swap_in-swap_out}

-- pages 0, 1 and 3 in use, of 16
abbrev cells : ℕ → ℕ
cells i = if i == 0 then 0b1011 else 0

abbrev pages : Pmm
pages = record { bitmap = cells; total_pages = 16; free_memory = 53248; last_free_index = 0 }

-- slot 0 in use, of 4
abbrev machine : Swap
machine = record {
  devices = λ d. record {
    active = true;
    storage = 1048576;
    size = 4;
    bitmap = λ i. if i == 0 then 1 else 0;
  };
  mem = λ x. x;
  pmm = pages;
}

swap_out-Stored_example : Stored 12300 machine (swap_out 12300 machine)
swap_out-Stored_example = swap_out-Stored 12300 machine (inl (omega arith))

abbrev pages_after : Pmm
pages_after = record {
  bitmap = update cells 0 0b1111;
  total_pages = 16;
  free_memory = 49152;
  last_free_index = 2;
}

taken : alloc_page_fuel 2 pages ≡ some (some 8192, pages_after)
unfolding alloc_page_fuel find_first_free find_clear test_bit and_bit take_page set_bit write_byte
    or_bit update
taken = refl

-- The machine with the page 3 in the slot 1.
abbrev swapped : Entry × Swap
swapped = store_page 12300 1 (set_bitmap 1 1 (machine.devices 0)) machine

swapped_out : swap_out 12300 machine ≡ some (swapped.0, swapped.1)
unfolding swap_out find_free_swap_slot find_slot
swapped_out = refl

swap_in-swap_out_example :
    let s2 = (swap_in swapped.0 swapped.1).1 in
    ((swap_in swapped.0 swapped.1).0 ≡ some 8192)
    × ((k : ℕ) → k < swap_page_size → s2.mem (8192 + k) ≡ machine.mem (12288 + k))
    × ((x : ℕ)
        → within 8192 swap_page_size x ≡ false
        → within (slot (machine.devices 0) 1) swap_page_size x ≡ false
        → s2.mem x ≡ machine.mem x)
    × ((s2.devices 0).bitmap 1 ≡ 0)
unfolding store_page
swap_in-swap_out_example =
    swap_in-swap_out machine swapped.1 12300 8192 swapped.0 pages_after (inl (omega arith))
      (inl (omega arith)) swapped_out taken
