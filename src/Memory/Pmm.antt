-- ===== src/Memory/Pmm.antt =====
-- kernel/memory/pmm.c: the page allocator over a bitmap of one bit for each physical page.
-- The bitmap is the memory from its address on, a byte at each offset: an index is not checked
-- against `bitmap_size`, as in the source.
pub mod Bits
pub mod Count
pub mod Alloc
pub mod Free
pub mod Runs
pub mod AllocRun
mod Tests
use rucix_kernel.Common.{
  ℕ, zero, suc, ◌+◌, ◌-◌, ◌*◌, ◌/◌, ◌%◌, Option, none, some, ltb, leb, ◌==◌, if◌then◌else◌,
}
use rucix_kernel.Common.Words.{u64, sub_u64, and_bit, or_bit, clear_bit}

abbrev pub page_size : ℕ
page_size = 4096

-- The file's static variables that the operations below read or write.
pub record Pmm : Type 0 where
  pub bitmap : ℕ → ℕ
  pub total_pages : ℕ
  pub free_memory : ℕ
  pub last_free_index : ℕ

unfoldable pub write_byte : (ℕ → ℕ) → ℕ → ℕ → ℕ → ℕ
write_byte m a v i = if a == i then v else m i

unfoldable pub set_bit : ℕ → Pmm → Pmm
unfolding write_byte or_bit
set_bit bit p = record p {
  bitmap = write_byte p.bitmap (bit / 8) (or_bit (p.bitmap (bit / 8)) (bit % 8));
}

pub clear_page_bit : ℕ → Pmm → Pmm
unfolding write_byte clear_bit
clear_page_bit bit p = record p {
  bitmap = write_byte p.bitmap (bit / 8) (clear_bit (p.bitmap (bit / 8)) (bit % 8));
}

unfoldable pub test_bit : Pmm → ℕ → ℕ
unfolding and_bit
test_bit p bit = and_bit (p.bitmap (bit / 8)) (bit % 8)

-- `for (i = from; i < from + rounds; i++) if (!pmm_test_bit(i)) return i;`
unfoldable pub find_clear : Pmm → ℕ → ℕ → Option ℕ
unfolding test_bit
find_clear p zero i = none
find_clear p (suc rounds) i =
    let rest = find_clear p rounds (i + 1) in if test_bit p i == 0 then some i else rest

-- `none` is the source's -1.
unfoldable pub find_first_free : Pmm → Option ℕ × Pmm
find_first_free p = elim (find_clear p (p.total_pages - p.last_free_index) p.last_free_index) [
  | some i ↦ (some i, record p { last_free_index = i })
  | none ↦ elim (find_clear p p.last_free_index 0) [
    | some i ↦ (some i, record p { last_free_index = i })
    | none ↦ (none, p)
  ]
]

-- What `pmm_alloc_page` does with the bit that it found, page 0 apart.
unfoldable pub take_page : ℕ → Pmm → Option ℕ × Pmm
take_page bit p =
    let q = set_bit bit p in
    (some (u64 (bit * page_size)), record q { free_memory = sub_u64 q.free_memory page_size })

-- `pmm_alloc_page`, with fuel for its call of itself. The outer `none` is "out of fuel", the inner
-- one the null pointer.
unfoldable pub alloc_page_fuel : ℕ → Pmm → Option (Option ℕ × Pmm)
alloc_page_fuel zero p = none
alloc_page_fuel (suc fuel) p =
    let (found, q) = find_first_free p in
    elim found [
      | none ↦ some (none, q)
      | some zero ↦ alloc_page_fuel fuel (set_bit 0 q)
      | some (suc n) ↦ some (take_page (suc n) q)
    ]

-- `for (j = 0; j < count; j++) if (pmm_test_bit(i + j)) …`: the `j` of the first page in use.
pub find_set : Pmm → ℕ → ℕ → ℕ → Option ℕ
unfolding test_bit
find_set p i zero j = none
find_set p i (suc rounds) j =
    let rest = find_set p i rounds (j + 1) in if test_bit p (i + j) == 0 then rest else some j

-- `for (j = 0; j < count; j++) pmm_set_bit(i + j);`
pub set_bits : ℕ → ℕ → ℕ → Pmm → Pmm
set_bits i zero j p = p
set_bits i (suc rounds) j p = set_bits i rounds (j + 1) (set_bit (i + j) p)

-- The outer loop of `pmm_alloc_pages`; the outer `none` is "out of fuel". After the jump `i += j`
-- the loop's `i++` goes to the page behind the one in use.
pub scan_run : ℕ → Pmm → ℕ → ℕ → Option (Option ℕ)
scan_run zero p count i = none
scan_run (suc fuel) p count i =
    let next : Option (Option ℕ) = elim (find_set p i count 0) [
      | none ↦ some (some i)
      | some j ↦ scan_run fuel p count (u64 (i + j + 1))
    ] in
    if leb i (sub_u64 p.total_pages count) then next else some none

pub take_pages : ℕ → ℕ → Pmm → Option ℕ × Pmm
take_pages i count p =
    let q = set_bits i count 0 p in
    (
      some (u64 (i * page_size)),
      record q { free_memory = sub_u64 q.free_memory (u64 (count * page_size)) },
    )

pub alloc_pages_fuel : ℕ → ℕ → Pmm → Option (Option ℕ × Pmm)
alloc_pages_fuel fuel count p =
    if count == 0 then some (none, p) else elim (scan_run fuel p count 0) [
      | none ↦ none
      | some none ↦ some (none, p)
      | some (some i) ↦ some (take_pages i count p)
    ]

pub free_page : ℕ → Pmm → Pmm
free_page addr p =
    let bit = addr / page_size in
    let q = clear_page_bit bit p in
    if ltb bit p.total_pages
    then record q {
      free_memory = u64 (q.free_memory + page_size);
      last_free_index = if ltb bit q.last_free_index then bit else q.last_free_index;
    }
    else p

-- `for (i = 0; i < count; i++) if (start_bit + i < total_pages) pmm_clear_bit(start_bit + i);`
pub clear_bits : ℕ → ℕ → ℕ → Pmm → Pmm
clear_bits start zero i p = p
clear_bits start (suc rounds) i p =
    clear_bits start rounds (i + 1)
      (if ltb (start + i) p.total_pages then clear_page_bit (start + i) p else p)

pub free_pages : ℕ → ℕ → Pmm → Pmm
free_pages addr count p =
    let start = addr / page_size in
    let q = clear_bits start count 0 p in
    record q {
      free_memory = u64 (q.free_memory + u64 (count * page_size));
      last_free_index = if ltb start q.last_free_index then start else q.last_free_index;
    }
