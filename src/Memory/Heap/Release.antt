-- ===== src/Memory/Heap/Release.antt =====
-- kernel/memory/heap.c: what `kfree` does to the blocks.
use rucix_kernel.Common.{
  ℕ, ◌+◌, ◌^◌, ◌<◌, ◌≡◌, refl, ap, sym, ◌∙◌, subst, Bool, true, false, Option, some, List, [], ◌∷◌,
  ◌++◌, arith, if◌then◌else◌,
}
use rucix_kernel.Common.Chain.{update}
use rucix_kernel.Memory.Heap.{Block, header_size, merge_next, merge_prev}
use rucix_kernel.Memory.Heap.Layout.{
  Area, first, header, Layout, Tiles, update_other, Rebuilt, front,
}
use rucix_kernel.Memory.Heap.Free.{
  join, forward, backward, released, merged, merged-Rebuilt, join-Tiles, merge_next-none,
  merge_next-some, merge_prev-some,
}

abbrev pub Stands : (h g : ℕ → Block) (prev : Option ℕ) (lo hi : ℕ) (bs : List Area) → Type 0
Stands h g prev lo hi bs = Rebuilt h g prev lo bs × Tiles lo hi bs

pub same-Rebuilt :
    (h g : ℕ → Block) (prev : Option ℕ) (lo hi : ℕ) (bs : List Area)
    → g ≡ h
    → Layout h prev bs
    → Tiles lo hi bs
    → Stands h g prev lo hi bs
same-Rebuilt h g prev lo hi bs e l t =
    subst (λ x. Stands h x prev lo hi bs) (sym e) ((l, λ x out. refl), t)

-- A store that a test chooses, and the blocks in it.
chosen-Stands :
    (v : Bool) (h g x : ℕ → Block) (prev : Option ℕ) (lo hi : ℕ) (bs cs : List Area)
    → g ≡ (if v then x else h)
    → Stands h x prev lo hi bs
    → Stands h h prev lo hi cs
    → Stands h g prev lo hi (if v then bs else cs)
chosen-Stands true h g x prev lo hi bs cs e yes_case no_case =
    subst (λ y. Stands h y prev lo hi bs) (sym e) yes_case
chosen-Stands false h g x prev lo hi bs cs e yes_case no_case =
    subst (λ y. Stands h y prev lo hi cs) (sym e) no_case

forward-Stands :
    (h : ℕ → Block) (prev : Option ℕ) (lo hi : ℕ) (b : Area) (bs : List Area)
    → hi < 2 ^ 63
    → Tiles lo hi (b ∷ bs)
    → Layout h prev (b ∷ bs)
    → Stands h (merge_next h b.at) prev lo hi (forward b bs)
forward-Stands h prev lo hi b [] top t (here, l) =
    same-Rebuilt h (merge_next h b.at) prev lo hi (b ∷ [])
      (merge_next-none h b.at (ap {A = Block} (λ x. x.next) here)) (here, l) t
forward-Stands h prev lo hi b (c ∷ cs) top t (here, (there, l)) =
    let same =
      merge_next-some h b.at c.at (first cs) c.unused (ap {A = Block} (λ x. x.next) here)
        (ap {A = Block} (λ x. x.next) there) (ap {A = Block} (λ x. x.free) there) in
    chosen-Stands c.unused h (merge_next h b.at) (merged h b c cs) prev lo hi (join b c ∷ cs)
      (b ∷ c ∷ cs) same
      (merged-Rebuilt h prev lo hi b c cs top t (here, (there, l)), join-Tiles lo hi b c cs t)
      (((here, (there, l)), λ x out. refl), t)

pub backward-Stands :
    (h : ℕ → Block) (prev : Option ℕ) (lo hi : ℕ) (p b : Area) (bs : List Area)
    → hi < 2 ^ 63
    → Tiles lo hi (p ∷ b ∷ bs)
    → Layout h prev (p ∷ b ∷ bs)
    → Stands h (merge_prev h b.at) prev lo hi (backward p (b ∷ bs))
backward-Stands h prev lo hi p b bs top (e, (f, t)) (here, (there, l)) =
    let same =
      merge_prev-some h b.at p.at (first bs) p.unused (λ q. omega arith)
        (ap {A = Block} (λ x. x.prev) there) (ap {A = Block} (λ x. x.next) there)
        (ap {A = Block} (λ x. x.free) here) in
    chosen-Stands p.unused h (merge_prev h b.at) (merged h p b bs) prev lo hi (join p b ∷ bs)
      (p ∷ b ∷ bs) same
      (
        merged-Rebuilt h prev lo hi p b bs top (e, (f, t)) (here, (there, l)),
        join-Tiles lo hi p b bs (e, (f, t)),
      )
      (((here, (there, l)), λ x out. refl), (e, (f, t)))

-- `block->free = 1`
abbrev pub set_free : (ℕ → Block) → ℕ → ℕ → Block
set_free h a = update h a (record (h a) { free = true })

set_free-Stands :
    (h : ℕ → Block) (prev : Option ℕ) (lo hi : ℕ) (b : Area) (bs : List Area)
    → Tiles lo hi (b ∷ bs)
    → Layout h prev (b ∷ bs)
    → Stands h (set_free h b.at) prev lo hi (record b { unused = true } ∷ bs)
set_free-Stands h prev lo hi b bs (e, t) (here, l) = (
  (
    front h prev lo hi (record (h b.at) { free = true }) (record b { unused = true }) bs e
        (ap {A = Block} (λ c. record c { free = true }) here) t l,
    λ x out. update_other h b.at (record (h b.at) { free = true }) x (λ q. omega arith),
  ),
  (e, t),
)

-- The block is free and has taken in the next one.
unfoldable pub freed : (ℕ → Block) → ℕ → ℕ → Block
freed h a = merge_next (set_free h a) a

pub freed-Stands :
    (h : ℕ → Block) (prev : Option ℕ) (lo hi : ℕ) (b : Area) (bs : List Area)
    → hi < 2 ^ 63
    → Tiles lo hi (b ∷ bs)
    → Layout h prev (b ∷ bs)
    → Stands h (freed h b.at) prev lo hi (forward (record b { unused = true }) bs)
unfolding freed
freed-Stands h prev lo hi b bs top t l =
    let ((l1, below1), t1) = set_free-Stands h prev lo hi b bs t l in
    let ((l2, below2), t2) =
      forward-Stands (set_free h b.at) prev lo hi (record b { unused = true }) bs top t1 l1 in
    ((l2, λ x out. below2 x out ∙ below1 x out), t2)

-- A block in front stays when the first of the blocks behind it keeps its address.
pub behind-Stands :
    (h g : ℕ → Block) (prev : Option ℕ) (lo hi : ℕ) (p : Area) (bs cs : List Area)
    → first cs ≡ first bs
    → Tiles lo hi (p ∷ bs)
    → Layout h prev (p ∷ bs)
    → Stands h g (some p.at) (lo + header_size + p.bytes) hi cs
    → Stands h g prev lo hi (p ∷ cs)
behind-Stands h g prev lo hi p bs cs same (e, t) (here, l) ((stands, below), tiles) = (
  (
    (
      below p.at (omega arith)
          ∙ here
          ∙ ap {A = Option ℕ} {B = Block} (λ q. record (header prev p bs) { next = q }) (sym same),
      stands,
    ),
    λ x out. below x (omega arith),
  ),
  (e, tiles),
)

pub first-forward : (b : Area) (bs : List Area) → first (forward b bs) ≡ some b.at
first-forward b [] = refl
first-forward b (c ∷ cs) = ground arith

pub first-backward : (b : Area) (bs : List Area) → first (backward b bs) ≡ some b.at
first-backward b [] = refl
first-backward b (c ∷ cs) = ground arith

pub first-released :
    (pre : List Area) (b : Area) (post : List Area)
    → first (released pre b post) ≡ first (pre ++ b ∷ post)
first-released [] b post = first-forward (record b { unused = true }) post
first-released (p ∷ []) b post = first-backward p (forward (record b { unused = true }) post)
first-released (q ∷ p ∷ pre) b post = refl
