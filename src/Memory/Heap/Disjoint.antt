-- ===== src/Memory/Heap/Disjoint.antt =====
-- kernel/memory/heap.c: the memory of two owned pointers.
use rucix_kernel.Common.{
  ℕ, ◌+◌, ◌-◌, ◌≤◌, ◌<◌, ◌≡◌, ap, ◌∙◌, true, false, Option, none, some, List, [], ◌∷◌, arith, inl,
  inr, Bool-cases, ◌^◌,
}
use rucix_kernel.Common.Steps.{Reachable}
use rucix_kernel.Memory.Heap.{Block, Heap, header_size, heap_init}
use rucix_kernel.Memory.Heap.Layout.{Area, Layout, Tiles}
use rucix_kernel.Memory.Heap.Reach.{Clients, Step, used_at, Reachable-Safe}

used_at-le :
    (lo hi p : ℕ) (bs : List Area) → Tiles lo hi bs → used_at bs p ≡ true → lo + header_size ≤ p
used_at-le lo hi p [] t u = ground arith
used_at-le lo hi p (b ∷ bs) (e, t) u = elim (Bool-cases (used_at bs p)) [
  | inl v ↦ omega (arith, used_at-le (lo + header_size + b.bytes) hi p bs t v)
  | inr v ↦ ground arith
]

used_at-apart :
    (h : ℕ → Block) (prev : Option ℕ) (lo hi p q : ℕ) (bs : List Area)
    → Layout h prev bs
    → Tiles lo hi bs
    → used_at bs p ≡ true
    → used_at bs q ≡ true
    → p < q
    → p + (h (p - header_size)).size + header_size ≤ q
used_at-apart h prev lo hi p q [] l t u v lt = ground arith
used_at-apart h prev lo hi p q (b ∷ bs) (here, l) (e, t) u v lt = elim (Bool-cases (used_at bs p)) [
  | inl inside ↦
      let low = used_at-le (lo + header_size + b.bytes) hi p bs t inside in
      used_at-apart h (some b.at) (lo + header_size + b.bytes) hi p q bs l t inside (ground arith)
        lt
  | inr front ↦
      let at : p ≡ b.at + header_size = ground arith in
      let back : p - header_size ≡ b.at = omega arith in
      let size : (h (p - header_size)).size ≡ b.bytes =
        ap {A = ℕ} (λ x. (h x).size) back ∙ ap {A = Block} (λ x. x.size) here in
      let behind : used_at bs q ≡ true = ground arith in
      omega (arith, used_at-le (lo + header_size + b.bytes) hi q bs t behind, size)
]

-- In every state that requests and releases of owned pointers lead to from a heap that `heap_init`
-- set up, the memory of two owned pointers does not overlap: from the lower one, the bytes that its
-- block has, and the other block's header, end at or below the higher one.
pub owned_apart :
    (start_virt size : ℕ) (s : Heap) (c : Clients) (p q : ℕ)
    → header_size ≤ size
    → start_virt + size < 2 ^ 63
    → Reachable Step (record { heap = heap_init start_virt size s; owned = λ p. false }) c
    → c.owned p ≡ true
    → c.owned q ≡ true
    → p < q
    → p + (c.heap.blocks (p - header_size)).size + header_size ≤ q
owned_apart start_virt size s c p q room top r op oq lt =
    let (bs, heap, co, own) = Reachable-Safe start_virt size s c room top r in
    used_at-apart c.heap.blocks none start_virt (start_virt + size) p q bs heap.stands heap.tiles
      (own p op) (own q oq) lt
