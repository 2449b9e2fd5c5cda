-- ===== src/Memory/Heap/Alloc.antt =====
-- kernel/memory/heap.c: first fit on the list of blocks.
use rucix_kernel.Common.{
  ℕ, ◌+◌, ◌-◌, ◌≤◌, subst, Bool, true, false, ◌&&◌, Option, none, some, List, [], ◌∷◌, arith, ltb,
  leb, if◌then◌else◌, inl, inr, Bool-cases, ltb→lt,
}
use rucix_kernel.Memory.Heap.{header_size}
use rucix_kernel.Memory.Heap.Layout.{Area, Tiles}

-- The block becomes used, and what is left over of it a free block of its own.
abbrev pub carve : ℕ → Area → List Area → List Area
carve n b bs =
    let used : Area = record { at = b.at; bytes = n; unused = false } in
    let left : Area = record {
      at = b.at + header_size + n;
      bytes = b.bytes - n - header_size;
      unused = true;
    } in
    if ltb (n + header_size + 16) b.bytes
    then used ∷ left ∷ bs
    else record b { unused = false } ∷ bs

abbrev pub fits : ℕ → Area → Bool
fits n b = b.unused && leb n b.bytes

abbrev pub first_fit : ℕ → List Area → List Area
first_fit n [] = []
first_fit n (b ∷ bs) = if fits n b then carve n b bs else b ∷ first_fit n bs

abbrev pub fit : ℕ → List Area → Option ℕ
fit n [] = none
fit n (b ∷ bs) = if fits n b then some (b.at + header_size) else fit n bs

pub carve-Tiles :
    (n lo hi : ℕ) (b : Area) (bs : List Area)
    → n ≤ b.bytes
    → Tiles lo hi (b ∷ bs)
    → Tiles lo hi (carve n b bs)
carve-Tiles n lo hi b bs h (e, t) = elim (Bool-cases (ltb (n + header_size + 16) b.bytes)) [
  | inr c ↦ rw c (e, t)
  | inl c ↦
      let room = ltb→lt (n + header_size + 16) b.bytes c in
      rw c (e, (omega arith, subst (λ x. Tiles x hi bs) (omega arith) t))
]

pub first_fit-Tiles : (n lo hi : ℕ) (bs : List Area) → Tiles lo hi bs → Tiles lo hi (first_fit n bs)
first_fit-Tiles n lo hi [] t = t
first_fit-Tiles n lo hi (b ∷ bs) (e, t) = elim (Bool-cases (fits n b)) [
  | inl c ↦ rw c (carve-Tiles n lo hi b bs (ground arith) (e, t))
  | inr c ↦ rw c (e, first_fit-Tiles n (lo + header_size + b.bytes) hi bs t)
]
