-- ===== src/Memory/Heap/Kmalloc.antt =====
-- kernel/memory/heap.c: what `kmalloc` gives.
use rucix_kernel.Common.{
  ℕ, ◌+◌, ◌-◌, ◌*◌, ◌/◌, ◌^◌, ◌≤◌, ◌<◌, ◌≡◌, refl, ap, ap₂, sym, ◌∙◌, true, false, Option, none,
  some, List, [], ◌∷◌, ◌++◌, arith, ◌==◌, inl, inr, Bool-cases, length, ◌⊎◌,
}
use rucix_kernel.Memory.Heap.{Block, Heap, header_size, kmalloc_from, kmalloc, align_8}
use rucix_kernel.Memory.Heap.Layout.{Area, first, Layout, Tiles}
use rucix_kernel.Memory.Heap.Alloc.{carve, fits, first_fit, fit, first_fit-Tiles}
use rucix_kernel.Memory.Heap.Take.{first-first_fit, kmalloc_from-first_fit}

-- The heap consists of the blocks `bs`, which fill the memory from `lo` to `hi`.
pub record IsHeap (s : Heap) (lo hi : ℕ) (bs : List Area) : Type 0 where
  pub starts : s.free_list ≡ first bs
  pub stands : Layout s.blocks none bs
  pub tiles : Tiles lo hi bs
  pub top : hi < 2 ^ 63

-- None of the blocks is free and has `n` bytes.
abbrev pub NoneFits : ℕ → List Area → Type 0
NoneFits n [] = Unit {0}
NoneFits n (b ∷ bs) = (fits n b ≡ false) × NoneFits n bs

-- How an allocation of `n` bytes changes the blocks `bs` to `cs`, and the pointer it returns: the
-- first free block that is large enough becomes used, the rest of it is split off, and all other
-- blocks stay; or no block is large enough and nothing changes.
abbrev pub FirstFit : ℕ → List Area → List Area → Option ℕ → Type 0
FirstFit n bs cs p =
    ((p ≡ none) × (cs ≡ bs) × NoneFits n bs)
    ⊎ ((pre : List Area) × (b : Area) × (post : List Area) × (bs ≡ pre ++ b ∷ post)
        × (cs ≡ pre ++ carve n b post)
        × (p ≡ some (b.at + header_size))
        × NoneFits n pre
        × (b.unused ≡ true)
        × (n ≤ b.bytes))

pub first_fit-FirstFit : (n : ℕ) (bs : List Area) → FirstFit n bs (first_fit n bs) (fit n bs)
first_fit-FirstFit n [] = inl (refl, refl, tt)
first_fit-FirstFit n (b ∷ bs) = elim (Bool-cases (fits n b)) [
  | inl c ↦ inr ([], b, bs, refl, rw c refl, rw c refl, tt, ground arith, ground arith)
  | inr c ↦ elim (first_fit-FirstFit n bs) [
    | inl (p, same, all) ↦ inl (rw c p, rw c (ap (λ l. b ∷ l) same), (c, all))
    | inr (pre, x, post, e, q, p, all, free, room) ↦ inr (
      b ∷ pre,
      x,
      post,
      ap (λ l. b ∷ l) e,
      rw c (ap (λ l. b ∷ l) q),
      rw c p,
      (c, all),
      free,
      room,
    )
  ]
]

kmalloc-found :
    (fuel size : ℕ) (s : Heap) (g : ℕ → Block) (p : Option ℕ)
    → 0 < size
    → kmalloc_from fuel s.blocks (align_8 size) s.free_list ≡ some (g, p)
    → kmalloc fuel size s ≡ some (record s { blocks = g }, p)
unfolding kmalloc
kmalloc-found fuel size s g p pos e =
    let nonzero : (size == 0) ≡ false = ground arith in rw (e, nonzero) refl

pub run_found :
    (fuel size n : ℕ) (s : Heap) (lo hi : ℕ) (bs : List Area)
    → IsHeap s lo hi bs
    → length bs < fuel
    → 0 < size
    → align_8 size ≡ n
    → (s' : Heap) × (kmalloc fuel size s ≡ some (s', fit n bs)) × IsHeap s' lo hi (first_fit n bs)
run_found fuel size n s lo hi bs heap enough pos wide =
    let (g, run, (stands, below)) =
      kmalloc_from-first_fit fuel n s.blocks none lo hi bs enough heap.top heap.tiles heap.stands in
    (
      record s { blocks = g },
      kmalloc-found fuel size s g (fit n bs) pos
          (ap₂ (λ m q. kmalloc_from fuel s.blocks m q) wide heap.starts ∙ run),
      record {
        starts = heap.starts ∙ sym (first-first_fit n bs);
        stands = stands;
        tiles = first_fit-Tiles n lo hi bs heap.tiles;
        top = heap.top;
      },
    )

-- On a heap of blocks that fill its memory without gaps, and with more rounds of fuel than there are
-- blocks, a request of at least one byte and less than 2^63 bytes ends. The size is rounded up to a
-- multiple of 8. The first free block with that many bytes becomes used and what is left of it is
-- split off when it holds a header and more than 16 bytes; the pointer behind its header is returned.
-- If there is no such block the result is the null pointer and the blocks are the same. In both
-- cases the heap consists of blocks that fill the same memory, linked in both directions.
pub kmalloc-FirstFit :
    (fuel size : ℕ) (s : Heap) (lo hi : ℕ) (bs : List Area)
    → IsHeap s lo hi bs
    → length bs < fuel
    → 0 < size
    → size < 2 ^ 63
    → (s' : Heap) × (p : Option ℕ) × (cs : List Area) × (kmalloc fuel size s ≡ some (s', p))
      × IsHeap s' lo hi cs
      × FirstFit ((size + 7) / 8 * 8) bs cs p
kmalloc-FirstFit fuel size s lo hi bs heap enough pos small =
    let n = (size + 7) / 8 * 8 in
    let (s', run, after) =
      run_found fuel size n s lo hi bs heap enough pos (ap (λ x. x / 8 * 8) (omega arith)) in
    (s', fit n bs, first_fit n bs, run, after, first_fit-FirstFit n bs)

-- A request of 2^64 - 7 bytes or more is rounded up to 0 bytes: it does not fail, but returns the
-- first free block of any size, and keeps none of its bytes when it splits it.
pub kmalloc_wraps :
    (fuel size : ℕ) (s : Heap) (lo hi : ℕ) (bs : List Area)
    → IsHeap s lo hi bs
    → length bs < fuel
    → 2 ^ 64 - 7 ≤ size
    → size < 2 ^ 64
    → (s' : Heap) × (p : Option ℕ) × (cs : List Area) × (kmalloc fuel size s ≡ some (s', p))
      × IsHeap s' lo hi cs
      × FirstFit 0 bs cs p
kmalloc_wraps fuel size s lo hi bs heap enough big small =
    let (s', run, after) =
      run_found fuel size 0 s lo hi bs heap enough (omega arith) (omega arith) in
    (s', fit 0 bs, first_fit 0 bs, run, after, first_fit-FirstFit 0 bs)
