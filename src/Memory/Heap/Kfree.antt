-- ===== src/Memory/Heap/Kfree.antt =====
-- kernel/memory/heap.c: `kfree` as a whole.
use rucix_kernel.Common.{
  ℕ, ◌+◌, ◌-◌, ◌^◌, ◌<◌, ◌≡◌, refl, ap, sym, ◌∙◌, subst, Bool, true, Option, none, some, List, [],
  ◌∷◌, ◌++◌, arith, if◌then◌else◌, inl, inr, Bool-cases,
}
use rucix_kernel.Memory.Heap.{Block, Heap, header_size, heap_magic, merge_prev, kfree}
use rucix_kernel.Memory.Heap.Layout.{Area, Layout, Tiles}
use rucix_kernel.Memory.Heap.Kmalloc.{IsHeap}
use rucix_kernel.Memory.Heap.Free.{join, forward, backward, released, merge_prev-none}
use rucix_kernel.Memory.Heap.Release.{
  Stands, freed, freed-Stands, behind-Stands, backward-Stands, first-forward, first-released,
}

forward-cons :
    (b : Area) (bs : List Area)
    → (c : Area) × (cs : List Area) × (forward b bs ≡ c ∷ cs) × (c.at ≡ b.at)
forward-cons b [] = (b, [], refl, refl)
forward-cons b (c ∷ cs) =
    let pick : Bool → List Area = λ x. if x then join b c ∷ cs else b ∷ c ∷ cs in
    elim (Bool-cases c.unused) [
      | inl v ↦ (join b c, cs, ap pick v, refl)
      | inr v ↦ (b, c ∷ cs, ap pick v, refl)
    ]

-- The release of the first block.
first-Stands :
    (h : ℕ → Block) (lo hi : ℕ) (b : Area) (post : List Area)
    → hi < 2 ^ 63
    → Tiles lo hi (b ∷ post)
    → Layout h none (b ∷ post)
    → Stands h
        (merge_prev (freed h b.at) b.at)
        none
        lo
        hi
        (forward (record b { unused = true }) post)
first-Stands h lo hi b post top t l =
    let ((l1, below), t1) = freed-Stands h none lo hi b post top t l in
    let (c, cs, e, at) = forward-cons (record b { unused = true }) post in
    let (here, rest) = subst (λ bs. Layout (freed h b.at) none bs) e l1 in
    let start : (freed h b.at b.at).prev ≡ none =
      ap {A = ℕ} (λ a. (freed h b.at a).prev) (sym at) ∙ ap {A = Block} (λ x. x.prev) here in
    subst (λ g. Stands h g none lo hi (forward (record b { unused = true }) post))
      (sym (merge_prev-none (freed h b.at) b.at start)) ((l1, below), t1)

-- The release of a block with a block `p` in front.
second-Stands :
    (h : ℕ → Block) (prev : Option ℕ) (lo hi : ℕ) (p b : Area) (post : List Area)
    → hi < 2 ^ 63
    → Tiles lo hi (p ∷ b ∷ post)
    → Layout h prev (p ∷ b ∷ post)
    → Stands h
        (merge_prev (freed h b.at) b.at)
        prev
        lo
        hi
        (backward p (forward (record b { unused = true }) post))
second-Stands h prev lo hi p b post top (e, t) (here, l) =
    let b' : Area = record b { unused = true } in
    let one = freed-Stands h (some p.at) (lo + header_size + p.bytes) hi b post top t l in
    let ((l1, below1), t1) =
      behind-Stands h (freed h b.at) prev lo hi p (b ∷ post) (forward b' post)
        (first-forward b' post) (e, t) (here, l) one in
    let (c, cs, f, at) = forward-cons b' post in
    let ((l2, below2), t2) =
      backward-Stands (freed h b.at) prev lo hi p c cs top (subst (λ bs. Tiles lo hi (p ∷ bs)) f t1)
        (subst (λ bs. Layout (freed h b.at) prev (p ∷ bs)) f l1) in
    subst (λ a. Stands h (merge_prev (freed h b.at) a) prev lo hi (backward p (forward b' post))) at
      (subst (λ bs. Stands h (merge_prev (freed h b.at) c.at) prev lo hi (backward p bs)) (sym f)
        ((l2, λ x out. below2 x out ∙ below1 x out), t2))

deep-Stands :
    (h : ℕ → Block) (prev : Option ℕ) (lo hi : ℕ) (p : Area) (pre : List Area) (b : Area)
    (post : List Area)
    → hi < 2 ^ 63
    → Tiles lo hi ((p ∷ pre) ++ b ∷ post)
    → Layout h prev ((p ∷ pre) ++ b ∷ post)
    → Stands h (merge_prev (freed h b.at) b.at) prev lo hi (released (p ∷ pre) b post)
deep-Stands h prev lo hi p [] b post top t l = second-Stands h prev lo hi p b post top t l
deep-Stands h prev lo hi p (q ∷ pre) b post top (e, t) (here, l) =
    behind-Stands h (merge_prev (freed h b.at) b.at) prev lo hi p ((q ∷ pre) ++ b ∷ post)
      (released (q ∷ pre) b post) (first-released (q ∷ pre) b post) (e, t) (here, l)
      (deep-Stands h (some p.at) (lo + header_size + p.bytes) hi q pre b post top t l)

all-Stands :
    (h : ℕ → Block) (lo hi : ℕ) (pre : List Area) (b : Area) (post : List Area)
    → hi < 2 ^ 63
    → Tiles lo hi (pre ++ b ∷ post)
    → Layout h none (pre ++ b ∷ post)
    → Stands h (merge_prev (freed h b.at) b.at) none lo hi (released pre b post)
all-Stands h lo hi [] b post top t l = first-Stands h lo hi b post top t l
all-Stands h lo hi (p ∷ pre) b post top t l = deep-Stands h none lo hi p pre b post top t l

marked :
    (h : ℕ → Block) (prev : Option ℕ) (pre : List Area) (b : Area) (post : List Area)
    → Layout h prev (pre ++ b ∷ post)
    → (h b.at).magic ≡ heap_magic
marked h prev [] b post (here, l) = ap {A = Block} (λ x. x.magic) here
marked h prev (p ∷ pre) b post (here, l) = marked h (some p.at) pre b post l

kfree-freed :
    (a : ℕ) (s : Heap)
    → (s.blocks a).magic ≡ heap_magic
    → kfree (some (a + header_size)) s ≡ record s { blocks = merge_prev (freed s.blocks a) a }
unfolding kfree freed
kfree-freed a s e = let back : a + header_size - header_size ≡ a = omega arith in rw (back, e) refl

-- The release of a block of the heap, by the pointer that `kmalloc` returned for it, ends with a
-- heap of blocks that fill the same memory, linked in both directions: the block is free, it has
-- taken in the next block if that was free, the block in front has taken it in if that was free,
-- and all other blocks are the same. The null pointer changes nothing.
pub kfree-released :
    (s : Heap) (lo hi : ℕ) (pre : List Area) (b : Area) (post : List Area)
    → IsHeap s lo hi (pre ++ b ∷ post)
    → IsHeap (kfree (some (b.at + header_size)) s) lo hi (released pre b post) × (kfree none s ≡ s)
unfolding kfree
kfree-released s lo hi pre b post heap =
    let ((l, below), t) = all-Stands s.blocks lo hi pre b post heap.top heap.tiles heap.stands in
    let whole : IsHeap (record s { blocks = merge_prev (freed s.blocks b.at) b.at }) lo hi
        (released pre b post) =
      record {
        starts = heap.starts ∙ sym (first-released pre b post);
        stands = l;
        tiles = t;
        top = heap.top;
      } in
    (
      subst (λ x. IsHeap x lo hi (released pre b post))
          (sym (kfree-freed b.at s (marked s.blocks none pre b post heap.stands))) whole,
      refl,
    )
