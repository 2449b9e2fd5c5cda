-- ===== src/Radix.antt =====
-- kernel/lib/radix-tree.c and include/radix-tree.h: the map from indices to items that the page
-- cache stands on. A tree owns its nodes, so that a node is the value of the one pointer to it.
pub mod Digits
pub mod Find
pub mod Insert
pub mod Delete
pub mod Extend
pub mod Heights
pub mod Put
pub mod Refine
pub mod Remove
pub mod PageCache
mod Tests
use rucix_kernel.Common.{
  ℕ, zero, suc, ◌+◌, ◌-◌, ◌*◌, ◌/◌, ◌%◌, ◌^◌, Bool, true, false, ◌&&◌, ◌||◌, not, Option, none,
  some, List, [], ◌∷◌, ltb, ◌==◌, if◌then◌else◌,
}
use rucix_kernel.Common.Chain.{update}

-- `void *`: the null pointer, an item of the user, or a `struct radix_tree_node`
pub data Pointer : Type 0 where
  null : Pointer
  item : ℕ → Pointer
  node : ℕ → (ℕ → Pointer) → Pointer

abbrev pub count : Pointer → ℕ
count null = 0
count (item v) = 0
count (node c s) = c

abbrev pub slots : Pointer → ℕ → Pointer
slots null o = null
slots (item v) o = null
slots (node c s) o = s o

abbrev pub is_null : Pointer → Bool
is_null null = true
is_null (item v) = false
is_null (node c s) = false

pub record Root : Type 0 where
  pub height : ℕ
  pub rnode : Pointer

-- `count++` and `count--` on `unsigned int`
abbrev pub inc : ℕ → ℕ
inc c = (c + 1) % 2 ^ 32

abbrev pub dec : ℕ → ℕ
dec c = (c + (2 ^ 32 - 1)) % 2 ^ 32

-- `1UL << (height * RADIX_TREE_MAP_SHIFT)`, for the heights up to 10, whose shift is below 64
unfoldable pub capacity : ℕ → ℕ
capacity zero = 1
capacity (suc h) = 64 * capacity h

-- `(index >> shift) & RADIX_TREE_MAP_MASK` for a shift by `h` times RADIX_TREE_MAP_SHIFT
unfoldable pub digit : ℕ → ℕ → ℕ
digit zero index = index % 64
digit (suc h) index = digit h (index / 64)

-- Whether the next calls of `kmalloc` find memory; none is left behind the list. A node comes back
-- filled with zeros.
unfoldable pub radix_tree_node_alloc : List Bool → Pointer × List Bool
radix_tree_node_alloc [] = (null, [])
radix_tree_node_alloc (b ∷ m) = (if b then node 0 (λ o. null) else null, m)

abbrev pub radix_tree_init : Root
radix_tree_init = record { height = 0; rnode = null }

-- `while (index > max) height++`, with fuel
unfoldable pub grow : ℕ → ℕ → ℕ → Option ℕ
grow zero index height = none
grow (suc fuel) index height =
    let next = grow fuel index (height + 1) in
    if ltb (capacity height - 1) index then next else some height

-- `while (root->height < height)`: `n` levels are missing. The result is the code's failure.
unfoldable pub extend_levels : ℕ → Root → List Bool → Bool × Root × List Bool
extend_levels zero root m = (false, root, m)
extend_levels (suc n) root m =
    let fresh = radix_tree_node_alloc m in
    let taller : Root = record {
      height = root.height + 1;
      rnode = node 1 (update (slots fresh.0) 0 root.rnode);
    } in
    let rest = extend_levels n taller fresh.1 in
    if is_null fresh.0 then (true, root, fresh.1) else rest

unfoldable pub radix_tree_extend : ℕ → Root → ℕ → List Bool → Option (Bool × Root × List Bool)
radix_tree_extend fuel root index m = elim (grow fuel index (root.height + 1)) [
  | none ↦ none
  | some height ↦
      let root' : Root =
        if is_null root.rnode then record { height = height; rnode = root.rnode } else root in
      some (extend_levels (height - root'.height) root' m)
]

-- The rounds of `while (height > 0)` in `radix_tree_insert`: whether the item is stored, the node, and
-- the memory.
unfoldable pub insert_walk : ℕ → ℕ → Pointer → Pointer → List Bool → Bool × Pointer × List Bool
insert_walk zero index it p m = (false, p, m)
insert_walk (suc zero) index it p m =
    let offset = digit 0 index in
    if is_null (slots p offset)
    then (true, node (inc (count p)) (update (slots p) offset it), m)
    else (false, p, m)
insert_walk (suc (suc h)) index it p m =
    let offset = digit (suc h) index in
    let missing = is_null (slots p offset) in
    let slot = radix_tree_node_alloc m in
    let next = if missing then slot.0 else slots p offset in
    let left = if missing then slot.1 else m in
    let rest = insert_walk (suc h) index it next left in
    if is_null next then (false, p, left) else (
      rest.0,
      node (if missing then inc (count p) else count p) (update (slots p) offset rest.1),
      rest.2,
    )

-- `while (tmp > 0) { tmp >>= RADIX_TREE_MAP_SHIFT; h++; }`, with fuel
unfoldable pub levels : ℕ → ℕ → ℕ → Option ℕ
levels zero tmp h = none
levels (suc fuel) tmp h =
    let rest = levels fuel (tmp / 64) (h + 1) in if tmp == 0 then some h else rest

-- The height that the first insertion gives an empty tree.
unfoldable pub start_height : ℕ → Root → ℕ → Option Root
start_height fuel root index =
    if is_null root.rnode && (root.height == 0)
    then elim (levels fuel index 0) [
      | none ↦ none
      | some h ↦ some (record { height = if h == 0 then 1 else h; rnode = null })
    ]
    else some root

-- The root node, if there is none yet, and the walk down.
unfoldable pub insert_root : Root → ℕ → Pointer → List Bool → Bool × Root × List Bool
insert_root root index it m =
    let missing = is_null root.rnode in
    let fresh = radix_tree_node_alloc m in
    let top = if missing then fresh.0 else root.rnode in
    let left = if missing then fresh.1 else m in
    let done = insert_walk root.height index it top left in
    if is_null top
    then (false, root, left)
    else (done.0, record { height = root.height; rnode = done.1 }, done.2)

-- `some` of whether 0 is returned, not -1; `none` when the fuel does not suffice
unfoldable pub radix_tree_insert :
    ℕ → Root → ℕ → Pointer → List Bool → Option (Bool × Root × List Bool)
radix_tree_insert fuel root index it m = elim (start_height fuel root index) [
  | none ↦ none
  | some root' ↦
      if ltb (capacity root'.height - 1) index
      then elim (radix_tree_extend fuel root' index m) [
        | none ↦ none
        | some (failed, taller, left) ↦
            some (if failed then (false, taller, left) else insert_root taller index it left)
      ]
      else some (insert_root root' index it m)
]

unfoldable pub lookup_walk : ℕ → ℕ → Pointer → Pointer
lookup_walk zero index p = null
lookup_walk (suc zero) index p = slots p (digit 0 index)
lookup_walk (suc (suc h)) index p =
    let child = slots p (digit (suc h) index) in
    let rest = lookup_walk (suc h) index child in if is_null child then null else rest

unfoldable pub radix_tree_lookup : Root → ℕ → Pointer
radix_tree_lookup root index =
    if (root.height == 0) || is_null root.rnode
    then null
    else if ltb (capacity root.height - 1) index
    then null
    else lookup_walk root.height index root.rnode

-- `if (node->count > 0) break`: a node that is empty is freed.
abbrev pub kept : ℕ → (ℕ → Pointer) → Option Pointer
kept c s = if c == 0 then none else some (node c s)

-- The walk down, and the way back over the stack: the item, and the node if it is not freed.
unfoldable pub delete_walk : ℕ → ℕ → Pointer → Option (Pointer × Option Pointer)
delete_walk zero index p = none
delete_walk (suc zero) index p =
    let offset = digit 0 index in
    if is_null (slots p offset)
    then none
    else some (slots p offset, kept (dec (count p)) (update (slots p) offset null))
delete_walk (suc (suc h)) index p =
    let offset = digit (suc h) index in
    let rest = delete_walk (suc h) index (slots p offset) in
    if is_null (slots p offset) then none else elim rest [
      | none ↦ none
      | some (it, none) ↦ some (it, kept (dec (count p)) (update (slots p) offset null))
      | some (it, some child) ↦ some (it, some (node (count p) (update (slots p) offset child)))
    ]

-- `while (root->height > 0)`
unfoldable pub radix_tree_shrink : ℕ → Pointer → Root
radix_tree_shrink zero p = record { height = 0; rnode = p }
radix_tree_shrink (suc h) p =
    let rest = radix_tree_shrink h (slots p 0) in
    if is_null p
    then record { height = 0; rnode = p }
    else if not (count p == 1) || is_null (slots p 0) || (h == 0)
    then record { height = suc h; rnode = p }
    else rest

unfoldable pub radix_tree_delete : Root → ℕ → Pointer × Root
radix_tree_delete root index =
    if (root.height == 0) || is_null root.rnode
    then (null, root)
    else if ltb (capacity root.height - 1) index
    then (null, root)
    else elim (delete_walk root.height index root.rnode) [
      | none ↦ (null, root)
      | some (it, none) ↦ (it, radix_tree_shrink 0 null)
      | some (it, some p) ↦ (it, radix_tree_shrink root.height p)
    ]
