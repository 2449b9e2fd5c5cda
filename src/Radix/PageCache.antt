-- ===== src/Radix/PageCache.antt =====
-- kernel/mm/page_cache.c and include/mm/page.h: the pages of a file, found by their offset in a radix
-- tree.
pub mod Knows
pub mod Add
pub mod Delete
mod Tests
use rucix_kernel.Common.{
  ℕ, zero, suc, ◌+◌, ◌-◌, ◌%◌, ◌^◌, Bool, true, false, ◌&&◌, ◌||◌, Option, none, some, List, [],
  ◌∷◌, ◌==◌, if◌then◌else◌,
}
use rucix_kernel.Common.Chain.{update}
use rucix_kernel.Common.Int.{ℤ, suc_ℤ, pred_ℤ, pos}
use rucix_kernel.Radix.{
  Pointer, null, item, Root, radix_tree_insert, radix_tree_lookup, radix_tree_delete, is_null,
}

-- `struct page`; a mapping is named by its address, 0 for none
pub record Page : Type 0 where
  pub count : ℤ
  pub mapping : ℕ
  pub index : ℕ

-- The part of `struct address_space` that the page cache uses.
pub record AddressSpace : Type 0 where
  pub page_tree : Root
  pub nrpages : ℕ

pub record Cache : Type 0 where
  pub spaces : ℕ → AddressSpace
  pub pages : ℕ → Page

abbrev pub set_page : ℕ → Page → Cache → Cache
set_page p page c = record { spaces = c.spaces; pages = update c.pages p page }

abbrev pub set_space : ℕ → AddressSpace → Cache → Cache
set_space a space c = record { spaces = update c.spaces a space; pages = c.pages }

-- `_count++` and `_count--`
unfoldable pub get_page : ℕ → Cache → Cache
get_page p c =
    let page = c.pages p in
    set_page p (record { count = suc_ℤ page.count; mapping = page.mapping; index = page.index }) c

unfoldable pub put_page : ℕ → Cache → Cache
put_page p c =
    let page = c.pages p in
    set_page p (record { count = pred_ℤ page.count; mapping = page.mapping; index = page.index }) c

-- A page that was found is held.
unfoldable pub hold : Pointer → Cache → Pointer × Cache
hold null c = (null, c)
hold (item p) c = (item p, get_page p c)
hold (Pointer.node n s) c = (Pointer.node n s, c)

unfoldable pub find_get_page : ℕ → ℕ → Cache → Pointer × Cache
find_get_page mapping offset c =
    if mapping == 0
    then (null, c)
    else hold (radix_tree_lookup (c.spaces mapping).page_tree offset) c

-- What follows the insertion into the tree: `some` of whether 0 is returned, not -1
unfoldable pub added : ℕ → ℕ → ℕ → Cache → Bool × Root × List Bool → Bool × Cache
added p mapping offset c (false, tree, left) =
    (false, set_space mapping (record { page_tree = tree; nrpages = (c.spaces mapping).nrpages }) c)
added p mapping offset c (true, tree, left) = (
  true,
  set_page p (record { count = (c.pages p).count; mapping = mapping; index = offset })
      (set_space mapping
        (record { page_tree = tree; nrpages = ((c.spaces mapping).nrpages + 1) % 2 ^ 64 }) c),
)

-- With the fuel of the insertion, and the memory that `kmalloc` finds.
unfoldable pub add_to_page_cache : ℕ → ℕ → ℕ → ℕ → List Bool → Cache → Option (Bool × Cache)
add_to_page_cache fuel p mapping offset m c =
    if (mapping == 0) || (p == 0)
    then some (false, c)
    else elim (radix_tree_insert fuel (c.spaces mapping).page_tree offset (item p) m) [
      | none ↦ none
      | some x ↦ some (added p mapping offset c x)
    ]

-- `nrpages--`, when the tree held something
unfoldable pub removed : ℕ → Pointer × Root → Cache → Cache
removed mapping (it, tree) c =
    let n = (c.spaces mapping).nrpages in
    set_space mapping
      (record { page_tree = tree; nrpages = if is_null it then n else (n + (2 ^ 64 - 1)) % 2 ^ 64 })
      c

unfoldable pub delete_from_page_cache : ℕ → Cache → Cache
delete_from_page_cache p c =
    let page = c.pages p in
    let c1 =
      removed page.mapping (radix_tree_delete (c.spaces page.mapping).page_tree page.index) c in
    if page.mapping == 0
    then c
    else put_page p (set_page p (record { count = page.count; mapping = 0; index = page.index }) c1)
