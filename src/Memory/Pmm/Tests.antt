-- ===== src/Memory/Pmm/Tests.antt =====
-- Runs of the page allocator, and its theorems at a machine of 16 pages.
use rucix_kernel.Common.{ℕ, zero, suc, ◌*◌, ◌≡◌, refl, some, none, Option, arith}
use rucix_kernel.Memory.Pmm.{
  Pmm, page_size, set_bit, test_bit, find_clear, find_first_free, take_page, alloc_page_fuel,
  find_set, set_bits, scan_run, take_pages, alloc_pages_fuel, free_page,
}
use rucix_kernel.Common.Words.{and_bit}
use rucix_kernel.Memory.Pmm.Bits.{used, IsBytes}
use rucix_kernel.Memory.Pmm.Count.{count_free, IsValid}
use rucix_kernel.Memory.Pmm.Alloc.{AllocResult, alloc_page-AllocResult}
use rucix_kernel.Memory.Pmm.AllocRun.{AllocRun, alloc_pages-AllocRun}
use rucix_kernel.Memory.Pmm.Free.{
  Returns, free_page-Returns, free_page_double, free_page-alloc_page,
}

-- pages 0, 1 and 3 in use, of 16
abbrev cells : ℕ → ℕ
cells zero = 0b1011
cells (suc i) = 0

abbrev small : Pmm
small = record {
  bitmap = cells;
  total_pages = 16;
  free_memory = 13 * page_size;
  last_free_index = 0;
}

small-IsBytes : IsBytes small
small-IsBytes zero = omega arith
small-IsBytes (suc i) = omega arith

small-IsValid : IsValid small
unfolding count_free test_bit and_bit
small-IsValid = record {
  bytes = small-IsBytes;
  capped = omega arith;
  has_pages = omega arith;
  hint_in = omega arith;
  zero_used = refl;
  accounted = refl;
}

-- the address of the page that a call returned
addr_of : Option (Option ℕ × Pmm) → Option ℕ
addr_of none = none
addr_of (some (a, p)) = a

alloc_small : addr_of (alloc_page_fuel 2 small) ≡ some (2 * page_size)
unfolding addr_of alloc_page_fuel find_first_free find_clear test_bit take_page set_bit and_bit
alloc_small = refl

alloc_run_small : addr_of (alloc_pages_fuel 18 3 small) ≡ some (4 * page_size)
unfolding addr_of alloc_pages_fuel scan_run find_set test_bit take_pages set_bits set_bit and_bit
alloc_run_small = refl

alloc_page-AllocResult_example : AllocResult small (alloc_page_fuel 2 small)
alloc_page-AllocResult_example = alloc_page-AllocResult small 1 small-IsValid

alloc_pages-AllocRun_example : AllocRun small 3 (alloc_pages_fuel 18 3 small)
alloc_pages-AllocRun_example =
    alloc_pages-AllocRun small 3 small-IsValid (omega arith) (omega arith)

free_page-Returns_run : Returns small 3 (free_page (3 * page_size) small)
unfolding test_bit and_bit
free_page-Returns_run =
    free_page-Returns small (3 * page_size) 3 refl (omega arith) small-IsValid (omega arith) refl

free_page_double_run : ¬ IsValid (free_page (2 * page_size) small)
unfolding test_bit and_bit
free_page_double_run =
    free_page_double small (2 * page_size) 2 refl (omega arith) small-IsValid refl

-- `small` after page 2 has been taken
abbrev after : Pmm
after = (take_page 2 (record small { last_free_index = 2 })).1

takes_page_2 : alloc_page_fuel 2 small ≡ some (some (2 * page_size), after)
unfolding alloc_page_fuel find_first_free find_clear test_bit take_page and_bit
takes_page_2 = refl

free_page-alloc_page_example :
    let r = free_page (2 * page_size) after in
    ((j : ℕ) → used r j ≡ used small j) × (r.free_memory ≡ small.free_memory) × IsValid r
free_page-alloc_page_example =
    free_page-alloc_page small after 1 (2 * page_size) small-IsValid takes_page_2
