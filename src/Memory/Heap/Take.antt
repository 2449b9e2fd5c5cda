-- ===== src/Memory/Heap/Take.antt =====
-- kernel/memory/heap.c: the walk of `kmalloc` and the split of a block.
use rucix_kernel.Common.{
  ℕ, zero, suc, ◌+◌, ◌-◌, ◌^◌, ◌≤◌, ◌<◌, ◌≡◌, refl, ap, ap₂, sym, ◌∙◌, subst, Bool, true, false,
  Option, some, List, [], ◌∷◌, arith, ltb, if◌then◌else◌, inl, inr, Bool-cases, length, ltb→lt,
}
use rucix_kernel.Common.Words.{u64}
use rucix_kernel.Common.Chain.{update}
use rucix_kernel.Memory.Heap.{
  Block, header_size, heap_magic, relink, split_block, take_block, kmalloc_from,
}
use rucix_kernel.Memory.Heap.Layout.{
  Area, first, header, Layout, Tiles, Tiles-le, update_same, update_other, Layout-update,
  relink-Layout, relink_below, Rebuilt, front,
}
use rucix_kernel.Memory.Heap.Alloc.{carve, fits, first_fit, fit}

abbrev rest_of : Block → ℕ → ℕ → Block
rest_of c curr n = record {
  size = c.size - n - header_size;
  next = c.next;
  prev = some curr;
  free = true;
  magic = heap_magic;
}

-- The store after the split, from the header `c` of the block.
abbrev split_to : Block → (ℕ → Block) → ℕ → ℕ → ℕ → Block
split_to c h curr n =
    let h1 = update h (curr + header_size + n) (rest_of c curr n) in
    let h2 = relink h1 c.next (some (curr + header_size + n)) in
    update h2 curr (record (h2 curr) { size = n; next = some (curr + header_size + n) })

split_block-split_to :
    (h : ℕ → Block) (c : Block) (curr n : ℕ)
    → h curr ≡ c
    → split_block h curr n ≡ split_to c h curr n
unfolding split_block
split_block-split_to h c curr n e = ap (λ d. split_to d h curr n) e

split_to-Layout :
    (h : ℕ → Block) (prev : Option ℕ) (n lo hi : ℕ) (b : Area) (bs : List Area)
    → n + header_size ≤ b.bytes
    → b.at ≡ lo
    → Tiles (lo + header_size + b.bytes) hi bs
    → Layout h (some b.at) bs
    → h b.at ≡ header prev b bs
    → let used : Area = record { at = b.at; bytes = n; unused = b.unused } in
      let left : Area = record {
        at = b.at + header_size + n;
        bytes = b.bytes - n - header_size;
        unused = true;
      } in
      Layout (split_to (header prev b bs) h b.at n) prev (used ∷ left ∷ bs)
split_to-Layout h prev n lo hi b bs room e t l here =
    let new = b.at + header_size + n in
    let r = rest_of (header prev b bs) b.at n in
    let h1 = update h new r in
    let h2 = relink h1 (first bs) (some new) in
    let used : Area = record { at = b.at; bytes = n; unused = b.unused } in
    let left : Area = record { at = new; bytes = b.bytes - n - header_size; unused = true } in
    let behind = lo + header_size + b.bytes in
    let old : h2 b.at ≡ header prev b bs =
      relink_below h1 (some new) behind hi b.at bs t (omega arith)
      ∙ update_other h new r b.at (λ q. omega arith)
      ∙ here in
    let tail : Layout h2 (some new) bs =
      relink-Layout h1 (some b.at) (some new) behind hi bs t
        (Layout-update h (some b.at) behind hi new r bs t (omega arith) l) in
    let left_at : h2 new ≡ r =
      relink_below h1 (some new) behind hi new bs t (omega arith) ∙ update_same h new r in
    front h2 prev lo hi (record (h2 b.at) { size = n; next = some new }) used (left ∷ bs) e
      (ap {A = Block} (λ c. record c { size = n; next = some new }) old)
      (omega arith, subst (λ x. Tiles x hi bs) (omega arith) t) (left_at, tail)

split_to_below :
    (h : ℕ → Block) (prev : Option ℕ) (n lo hi x : ℕ) (b : Area) (bs : List Area)
    → b.at ≡ lo
    → Tiles (lo + header_size + b.bytes) hi bs
    → x < lo
    → split_to (header prev b bs) h b.at n x ≡ h x
split_to_below h prev n lo hi x b bs e t out =
    let new = b.at + header_size + n in
    let r = rest_of (header prev b bs) b.at n in
    let h1 = update h new r in
    let h2 = relink h1 (first bs) (some new) in
    update_other h2 b.at (record (h2 b.at) { size = n; next = some new }) x (λ q. omega arith)
    ∙ relink_below h1 (some new) (lo + header_size + b.bytes) hi x bs t (omega arith)
    ∙ update_other h new r x (λ q. omega arith)

set_used-Rebuilt :
    (h : ℕ → Block) (prev : Option ℕ) (lo hi : ℕ) (b : Area) (bs : List Area)
    → Tiles lo hi (b ∷ bs)
    → Layout h prev (b ∷ bs)
    → Rebuilt h
        (update h b.at (record (h b.at) { free = false }))
        prev
        lo
        (record b { unused = false } ∷ bs)
set_used-Rebuilt h prev lo hi b bs (e, t) (here, l) =
    let used : Area = record b { unused = false } in
    (
      front h prev lo hi (record (h b.at) { free = false }) used bs e
          (ap {A = Block} (λ c. record c { free = false }) here) t l,
      λ x out. update_other h b.at (record (h b.at) { free = false }) x (λ q. omega arith),
    )

set_used-both :
    (h g : ℕ → Block) (prev : Option ℕ) (lo hi : ℕ) (b : Area) (bs : List Area)
    → Tiles lo hi (b ∷ bs)
    → Rebuilt h g prev lo (b ∷ bs)
    → Rebuilt h
        (update g b.at (record (g b.at) { free = false }))
        prev
        lo
        (record b { unused = false } ∷ bs)
set_used-both h g prev lo hi b bs t (l, below) =
    let (stands, under) = set_used-Rebuilt g prev lo hi b bs t l in
    (stands, λ x out. under x out ∙ below x out)

abbrev set_used : (ℕ → Block) → ℕ → ℕ → Block
set_used h a = update h a (record (h a) { free = false })

splits : (ℕ → Block) → ℕ → ℕ → Bool
splits h curr n = ltb (u64 (n + header_size + 16)) (h curr).size

take_block-cases :
    (h : ℕ → Block) (curr n : ℕ) (d : Bool)
    → splits h curr n ≡ d
    → take_block h curr n ≡ set_used (if d then split_block h curr n else h) curr
unfolding take_block splits
take_block-cases h curr n d e = ap (λ x. set_used (if x then split_block h curr n else h) curr) e

splits_iff :
    (h : ℕ → Block) (curr n : ℕ) (c : Block)
    → h curr ≡ c
    → n < 2 ^ 63
    → splits h curr n ≡ ltb (n + header_size + 16) c.size
unfolding splits
splits_iff h curr n c e le =
    let wide : u64 (n + header_size + 16) ≡ n + header_size + 16 = omega arith in
    ap₂ ltb wide (ap {A = Block} (λ x. x.size) e)

take_block-Rebuilt :
    (h : ℕ → Block) (prev : Option ℕ) (n lo hi : ℕ) (b : Area) (bs : List Area)
    → n ≤ b.bytes
    → hi < 2 ^ 63
    → Tiles lo hi (b ∷ bs)
    → Layout h prev (b ∷ bs)
    → Rebuilt h (take_block h b.at n) prev lo (carve n b bs)
take_block-Rebuilt h prev n lo hi b bs le top (e, t) (here, l) =
    let high = Tiles-le (lo + header_size + b.bytes) hi bs t in
    let test = splits_iff h b.at n (header prev b bs) here (omega arith) in
    elim (Bool-cases (ltb (n + header_size + 16) b.bytes)) [
      | inr c ↦
          rw (take_block-cases h b.at n false (test ∙ c), c)
            (set_used-Rebuilt h prev lo hi b bs (e, t) (here, l))
      | inl c ↦
          let room = ltb→lt (n + header_size + 16) b.bytes c in
          let whole = split_to-Layout h prev n lo hi b bs (omega arith) e t l here in
          let same =
            take_block-cases h b.at n true (test ∙ c)
            ∙ ap (λ g. set_used g b.at) (split_block-split_to h (header prev b bs) b.at n here) in
          subst (λ g. Rebuilt h g prev lo (carve n b bs)) (sym same)
            (rw c (
              set_used-both h (split_to (header prev b bs) h b.at n) prev lo hi
                (record { at = b.at; bytes = n; unused = b.unused })
                (record {
                  at = b.at + header_size + n;
                  bytes = b.bytes - n - header_size;
                  unused = true;
                }
                  ∷ bs)
                (e, (omega arith, subst (λ x. Tiles x hi bs) (omega arith) t))
                (whole, λ x out. split_to_below h prev n lo hi x b bs e t out)))
    ]

pub first-first_fit : (n : ℕ) (bs : List Area) → first (first_fit n bs) ≡ first bs
first-first_fit n [] = refl
first-first_fit n (b ∷ bs) = ground arith

relabel :
    (n : ℕ) (prev : Option ℕ) (b : Area) (bs : List Area)
    → header prev b bs ≡ header prev b (first_fit n bs)
relabel n prev b bs =
    ap {A = Option ℕ} {B = Block} (λ p. record (header prev b bs) { next = p })
      (sym (first-first_fit n bs))

-- The result of the loop from the first of the blocks on.
pub kmalloc_from-first_fit :
    (fuel n : ℕ) (h : ℕ → Block) (prev : Option ℕ) (lo hi : ℕ) (bs : List Area)
    → length bs < fuel
    → hi < 2 ^ 63
    → Tiles lo hi bs
    → Layout h prev bs
    → (g : ℕ → Block) × (kmalloc_from fuel h n (first bs) ≡ some (g, fit n bs))
      × Rebuilt h g prev lo (first_fit n bs)
unfolding kmalloc_from
kmalloc_from-first_fit zero n h prev lo hi bs enough top t l = absurd (omega arith)
kmalloc_from-first_fit (suc fuel) n h prev lo hi [] enough top t l = (h, refl, (l, λ x out. refl))
kmalloc_from-first_fit (suc fuel) n h prev lo hi (b ∷ bs) enough top (e, t) (here, l) =
    elim (Bool-cases (fits n b)) [
      | inl c ↦ (
        take_block h b.at n,
        rw (here, c) refl,
        rw c (take_block-Rebuilt h prev n lo hi b bs (ground arith) top (e, t) (here, l)),
      )
      | inr c ↦
          let (g, run, (stands, below)) =
            kmalloc_from-first_fit fuel n h (some b.at) (lo + header_size + b.bytes) hi bs
              (omega arith) top t l in
          (
            g,
            rw (here, c) run,
            rw c (
              (below b.at (omega arith) ∙ here ∙ relabel n prev b bs, stands),
              λ x out. below x (omega arith),
            ),
          )
    ]
