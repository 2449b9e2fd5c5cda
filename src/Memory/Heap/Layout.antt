-- ===== src/Memory/Heap/Layout.antt =====
-- kernel/memory/heap.c: the blocks of a heap as a list, and the store that holds them.
use rucix_kernel.Common.{
  ℕ, ◌+◌, ◌≤◌, ◌<◌, ◌≡◌, ◌≢◌, refl, ap, ◌∙◌, Bool, Option, none, some, List, [], ◌∷◌, arith,
  ==_refl,
}
use rucix_kernel.Common.Chain.{update}
use rucix_kernel.Memory.Heap.{Block, header_size, heap_magic, relink}

-- A block: the address of its header, the bytes behind the header, whether it is free.
pub record Area : Type 0 where
  pub at : ℕ
  pub bytes : ℕ
  pub unused : Bool

abbrev pub first : List Area → Option ℕ
first [] = none
first (b ∷ bs) = some b.at

abbrev pub header : Option ℕ → Area → List Area → Block
header prev b bs = record {
  size = b.bytes;
  next = first bs;
  prev = prev;
  free = b.unused;
  magic = heap_magic;
}

-- The store holds the blocks' headers, linked in both directions.
abbrev pub Layout : (ℕ → Block) → Option ℕ → List Area → Type 0
Layout h prev [] = Unit {0}
Layout h prev (b ∷ bs) = (h b.at ≡ header prev b bs) × Layout h (some b.at) bs

-- The blocks fill the memory from `lo` to `hi` without gaps.
abbrev pub Tiles : ℕ → ℕ → List Area → Type 0
Tiles lo hi [] = lo ≡ hi
Tiles lo hi (b ∷ bs) = (b.at ≡ lo) × Tiles (lo + header_size + b.bytes) hi bs

pub Tiles-le : (lo hi : ℕ) (bs : List Area) → Tiles lo hi bs → lo ≤ hi
Tiles-le lo hi [] t = omega arith
Tiles-le lo hi (b ∷ bs) (e, t) = omega (arith, Tiles-le (lo + header_size + b.bytes) hi bs t)

-- What stands outside the blocks' memory does not matter.
pub Layout-frame :
    (h g : ℕ → Block) (prev : Option ℕ) (lo hi : ℕ) (bs : List Area)
    → Tiles lo hi bs
    → ((x : ℕ) → lo ≤ x → x < hi → g x ≡ h x)
    → Layout h prev bs
    → Layout g prev bs
Layout-frame h g prev lo hi [] t same l = l
Layout-frame h g prev lo hi (b ∷ bs) (e, t) same (here, l) =
    let le = Tiles-le (lo + header_size + b.bytes) hi bs t in
    (
      same b.at (omega arith) (omega arith) ∙ here,
      Layout-frame h g (some b.at) (lo + header_size + b.bytes) hi bs t
          (λ x p q. same x (omega arith) q) l,
    )

pub update_same : (h : ℕ → Block) (i : ℕ) (v : Block) → update h i v i ≡ v
unfolding update
update_same h i v = rw (==_refl i) refl

pub update_other : (h : ℕ → Block) (i : ℕ) (v : Block) (x : ℕ) → i ≢ x → update h i v x ≡ h x
unfolding update
update_other h i v x n = ground arith

-- A write below the blocks keeps them.
pub Layout-update :
    (h : ℕ → Block) (prev : Option ℕ) (lo hi i : ℕ) (v : Block) (bs : List Area)
    → Tiles lo hi bs
    → i < lo
    → Layout h prev bs
    → Layout (update h i v) prev bs
Layout-update h prev lo hi i v bs t out l =
    Layout-frame h (update h i v) prev lo hi bs t (λ x p q. update_other h i v x (λ e. omega arith))
      l

-- The first block of a list gets another predecessor.
pub relink-Layout :
    (h : ℕ → Block) (old new : Option ℕ) (lo hi : ℕ) (bs : List Area)
    → Tiles lo hi bs
    → Layout h old bs
    → Layout (relink h (first bs) new) new bs
unfolding relink
relink-Layout h old new lo hi [] t l = l
relink-Layout h old new lo hi (b ∷ bs) (e, t) (here, l) = (
  update_same h b.at (record (h b.at) { prev = new })
      ∙ ap {A = Block} (λ c. record c { prev = new }) here,
  Layout-update h (some b.at) (lo + header_size + b.bytes) hi b.at (record (h b.at) { prev = new })
      bs t (omega arith) l,
)

-- It changes nothing below the blocks.
pub relink_below :
    (h : ℕ → Block) (new : Option ℕ) (lo hi x : ℕ) (bs : List Area)
    → Tiles lo hi bs
    → x < lo
    → relink h (first bs) new x ≡ h x
unfolding relink
relink_below h new lo hi x [] t out = refl
relink_below h new lo hi x (b ∷ bs) (e, t) out =
    update_other h b.at (record (h b.at) { prev = new }) x (λ q. omega arith)

-- What a change of the store means for the blocks: the new list stands there, and nothing below
-- has changed.
abbrev pub Rebuilt : (ℕ → Block) → (ℕ → Block) → Option ℕ → ℕ → List Area → Type 0
Rebuilt h g prev lo bs = Layout g prev bs × ((x : ℕ) → x < lo → g x ≡ h x)

-- A header is written at the front of the blocks.
pub front :
    (h : ℕ → Block) (prev : Option ℕ) (lo hi : ℕ) (v : Block) (b : Area) (bs : List Area)
    → b.at ≡ lo
    → v ≡ header prev b bs
    → Tiles (lo + header_size + b.bytes) hi bs
    → Layout h (some b.at) bs
    → Layout (update h b.at v) prev (b ∷ bs)
front h prev lo hi v b bs e q t l = (
  update_same h b.at v ∙ q,
  Layout-update h (some b.at) (lo + header_size + b.bytes) hi b.at v bs t (omega arith) l,
)
