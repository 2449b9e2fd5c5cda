-- ===== src/Memory/Heap/Free.antt =====
-- kernel/memory/heap.c: `kfree` on the list of blocks.
use rucix_kernel.Common.{
  ℕ, ◌+◌, ◌^◌, ◌<◌, ◌≡◌, ◌≢◌, refl, ap, ap₂, ◌∙◌, subst, Bool, true, Option, none, some, List, [],
  ◌∷◌, arith, if◌then◌else◌,
}
use rucix_kernel.Common.Words.{u64}
use rucix_kernel.Memory.Heap.{Block, header_size, relink, absorb, merge_next, merge_prev}
use rucix_kernel.Memory.Heap.Layout.{
  Area, first, header, Layout, Tiles, Tiles-le, update_same, update_other, Layout-update,
  relink-Layout, relink_below, Rebuilt,
}

abbrev pub join : Area → Area → Area
join b c = record b { bytes = b.bytes + header_size + c.bytes }

-- A free block takes in the next one if that is free.
abbrev pub forward : Area → List Area → List Area
forward b [] = b ∷ []
forward b (c ∷ cs) = if c.unused then join b c ∷ cs else b ∷ c ∷ cs

-- A block takes in the next one, which is free, if it is free itself.
abbrev pub backward : Area → List Area → List Area
backward p [] = p ∷ []
backward p (c ∷ cs) = if p.unused then join p c ∷ cs else p ∷ c ∷ cs

-- The blocks after the release of `b`, which stands between `pre` and `post`.
abbrev pub released : List Area → Area → List Area → List Area
released [] b post = forward (record b { unused = true }) post
released (p ∷ []) b post = backward p (forward (record b { unused = true }) post)
released (q ∷ p ∷ pre) b post = q ∷ released (p ∷ pre) b post

-- The store after two neighbours have become one.
abbrev pub merged : (ℕ → Block) → Area → Area → List Area → ℕ → Block
merged h b c cs = relink (absorb h b.at c.at) (first cs) (some b.at)

pub merged-Rebuilt :
    (h : ℕ → Block) (prev : Option ℕ) (lo hi : ℕ) (b c : Area) (cs : List Area)
    → hi < 2 ^ 63
    → Tiles lo hi (b ∷ c ∷ cs)
    → Layout h prev (b ∷ c ∷ cs)
    → Rebuilt h (merged h b c cs) prev lo (join b c ∷ cs)
merged-Rebuilt h prev lo hi b c cs top (e, (f, t)) (here, (there, l)) =
    let behind = lo + header_size + b.bytes + header_size + c.bytes in
    let high = Tiles-le behind hi cs t in
    let h1 = absorb h b.at c.at in
    let sum : u64 (b.bytes + header_size + c.bytes) ≡ b.bytes + header_size + c.bytes =
      omega arith in
    let value : h1 b.at ≡ header prev (join b c) cs =
      update_same h b.at _
      ∙ ap₂ {A = Block} {B = Block} {C = Block}
          (λ x y. record x { size = u64 (x.size + header_size + y.size); next = y.next }) here there
      ∙ ap {A = ℕ} {B = Block} (λ n. record (header prev (join b c) cs) { size = n }) sum in
    (
      (
        relink_below h1 (some b.at) behind hi b.at cs t (omega arith) ∙ value,
        relink-Layout h1 (some c.at) (some b.at) behind hi cs t
            (Layout-update h (some c.at) behind hi b.at _ cs t (omega arith) l),
      ),
      λ x out.
          relink_below h1 (some b.at) behind hi x cs t (omega arith)
          ∙ update_other h b.at _ x (λ q. omega arith),
    )

pub join-Tiles :
    (lo hi : ℕ) (b c : Area) (cs : List Area)
    → Tiles lo hi (b ∷ c ∷ cs)
    → Tiles lo hi (join b c ∷ cs)
join-Tiles lo hi b c cs (e, (f, t)) = (e, subst (λ x. Tiles x hi cs) (omega arith) t)

absorb_next : (h : ℕ → Block) (a n : ℕ) (q : Option ℕ) → (h n).next ≡ q → (absorb h a n a).next ≡ q
absorb_next h a n q e = ap {A = Block} (λ x. x.next) (update_same h a _) ∙ e

pub merge_next-none : (h : ℕ → Block) (a : ℕ) → (h a).next ≡ none → merge_next h a ≡ h
unfolding merge_next
merge_next-none h a e = rw (e, merge_next) refl

pub merge_next-some :
    (h : ℕ → Block) (a n : ℕ) (q : Option ℕ) (v : Bool)
    → (h a).next ≡ some n
    → (h n).next ≡ q
    → (h n).free ≡ v
    → merge_next h a ≡ (if v then relink (absorb h a n) q (some a) else h)
unfolding merge_next
merge_next-some h a n q v e f g =
    let last = absorb_next h a n q f in
    rw (e, merge_next) (ap₂ (λ x y. if x then relink (absorb h a n) y (some a) else h) g last)

pub merge_prev-none : (h : ℕ → Block) (a : ℕ) → (h a).prev ≡ none → merge_prev h a ≡ h
unfolding merge_prev
merge_prev-none h a e = rw (e, merge_prev) refl

pub merge_prev-some :
    (h : ℕ → Block) (a p : ℕ) (q : Option ℕ) (v : Bool)
    → p ≢ a
    → (h a).prev ≡ some p
    → (h a).next ≡ q
    → (h p).free ≡ v
    → merge_prev h a ≡ (if v then relink (absorb h p a) q (some p) else h)
unfolding merge_prev
merge_prev-some h a p q v n e f g =
    let kept : absorb h p a a ≡ h a = update_other h p _ a n in
    rw (e, merge_prev)
      (ap₂ (λ x (c : Block). if x then relink (absorb h p a) c.next c.prev else h) g kept
        ∙ ap₂ (λ x y. if v then relink (absorb h p a) x y else h) f e)
