-- ===== src/Memory/Heap.antt =====
-- kernel/memory/heap.c: the kernel's heap, a doubly linked list of blocks with a header in front of
-- each, allocation by first fit and release with coalescing.
pub mod Layout
pub mod Alloc
pub mod Take
pub mod Kmalloc
pub mod Free
pub mod Release
pub mod Kfree
pub mod Coalesced
pub mod Ops
pub mod Fuel
pub mod Reach
pub mod Disjoint
mod Tests
use rucix_kernel.Common.{
  ℕ, zero, suc, ◌+◌, ◌-◌, ◌*◌, ◌/◌, ◌%◌, ◌^◌, Bool, true, false, ◌&&◌, not, Option, none, some, ltb,
  leb, ◌==◌, if◌then◌else◌,
}
use rucix_kernel.Common.Words.{u64}
use rucix_kernel.Common.Chain.{update}

-- `struct heap_block`
pub record Block : Type 0 where
  pub size : ℕ
  pub next : Option ℕ
  pub prev : Option ℕ
  pub free : Bool
  pub magic : ℕ

-- The headers by their address, and `free_list`.
pub record Heap : Type 0 where
  pub blocks : ℕ → Block
  pub free_list : Option ℕ

-- `HEAP_BLOCK_SIZE`, the size of `struct heap_block` with its padding
abbrev pub header_size : ℕ
header_size = 40

abbrev pub heap_magic : ℕ
heap_magic = 0x1234_5678

-- `(size + 7) & ~7`
abbrev pub align_8 : ℕ → ℕ
align_8 size = u64 (size + 7) / 8 * 8

-- `if (p) p->prev = v`
unfoldable pub relink : (ℕ → Block) → Option ℕ → Option ℕ → ℕ → Block
relink h none v = h
relink h (some p) v = update h p (record (h p) { prev = v })

-- The block splits when what is left holds a header and more than 16 bytes.
unfoldable pub split_block : (ℕ → Block) → ℕ → ℕ → ℕ → Block
split_block h curr n =
    let c = h curr in
    let new = curr + header_size + n in
    let rest : Block = record {
      size = c.size - n - header_size;
      next = c.next;
      prev = some curr;
      free = true;
      magic = heap_magic;
    } in
    let h1 = update h new rest in
    let h2 = relink h1 c.next (some new) in
    update h2 curr (record (h2 curr) { size = n; next = some new })

unfoldable pub take_block : (ℕ → Block) → ℕ → ℕ → ℕ → Block
take_block h curr n =
    let h1 = if ltb (u64 (n + header_size + 16)) (h curr).size then split_block h curr n else h in
    update h1 curr (record (h1 curr) { free = false })

-- The loop of `kmalloc` from `curr` on. The outer `none` is the end of the fuel.
unfoldable pub kmalloc_from : ℕ → (ℕ → Block) → ℕ → Option ℕ → Option ((ℕ → Block) × Option ℕ)
kmalloc_from zero h n curr = none
kmalloc_from (suc fuel) h n none = some (h, none)
kmalloc_from (suc fuel) h n (some curr) =
    let next = kmalloc_from fuel h n (h curr).next in
    if (h curr).free && leb n (h curr).size
    then some (take_block h curr n, some (curr + header_size))
    else next

unfoldable pub kmalloc : ℕ → ℕ → Heap → Option (Heap × Option ℕ)
kmalloc fuel size s =
    let found = kmalloc_from fuel s.blocks (align_8 size) s.free_list in
    let result : Option (Heap × Option ℕ) = elim found [
      | none ↦ none
      | some (h, p) ↦ some (record s { blocks = h }, p)
    ] in
    if size == 0 then some (s, none) else result

-- `block->size += HEAP_BLOCK_SIZE + second->size; block->next = second->next`
abbrev pub absorb : (ℕ → Block) → ℕ → ℕ → ℕ → Block
absorb h block second = update h block (record (h block) {
  size = u64 ((h block).size + header_size + (h second).size);
  next = (h second).next;
})

-- The block takes in the next one if that is free.
unfoldable pub merge_next : (ℕ → Block) → ℕ → ℕ → Block
merge_next h block = elim (h block).next [
  | none ↦ h
  | some n ↦
      let h1 = absorb h block n in if (h n).free then relink h1 (h1 block).next (some block) else h
]

-- The previous block takes in this one if it is free.
unfoldable pub merge_prev : (ℕ → Block) → ℕ → ℕ → Block
merge_prev h block = elim (h block).prev [
  | none ↦ h
  | some p ↦
      let h1 = absorb h p block in
      if (h p).free then relink h1 (h1 block).next (h1 block).prev else h
]

unfoldable pub kfree : Option ℕ → Heap → Heap
kfree none s = s
kfree (some ptr) s =
    let block = ptr - header_size in
    let h1 = update s.blocks block (record (s.blocks block) { free = true }) in
    let h3 = merge_prev (merge_next h1 block) block in
    if (s.blocks block).magic == heap_magic then record s { blocks = h3 } else s

-- The writes of `heap_init`, behind the mapping of the heap's pages: one free block.
unfoldable pub heap_init : ℕ → ℕ → Heap → Heap
heap_init start_virt size s =
    let whole : Block = record {
      size = size - header_size;
      next = none;
      prev = none;
      free = true;
      magic = heap_magic;
    } in
    record { blocks = update s.blocks start_virt whole; free_list = some start_virt }
