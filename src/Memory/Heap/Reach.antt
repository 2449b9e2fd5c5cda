-- ===== src/Memory/Heap/Reach.antt =====
-- kernel/memory/heap.c: the states that the heap reaches when its clients release only pointers that
-- they were given.
use rucix_kernel.Common.{
  ℕ, suc, ◌+◌, ◌^◌, ◌≤◌, ◌<◌, ◌≡◌, refl, ap, sym, ◌∙◌, subst, Bool, true, false, ◌&&◌, ◌||◌, not,
  Option, none, some, List, [], ◌∷◌, ◌++◌, arith, length, inl, inr, Bool-cases, Option-cases, ◌==◌,
  if◌then◌else◌,
}
use mathlib.Core.Option.{some-injective}
use rucix_kernel.Memory.Heap.Fuel.{kmalloc_add, kmalloc_zero}
use rucix_kernel.Common.Steps.{Reachable, invariant}
use rucix_kernel.Memory.Heap.{Heap, header_size, heap_init, kmalloc, kfree, align_8}
use rucix_kernel.Memory.Heap.Layout.{Area}
use rucix_kernel.Memory.Heap.Alloc.{first_fit, fit}
use rucix_kernel.Memory.Heap.Kmalloc.{IsHeap, run_found}
use rucix_kernel.Memory.Heap.Free.{forward, backward, released}
use rucix_kernel.Memory.Heap.Kfree.{kfree-released}
use rucix_kernel.Memory.Heap.Coalesced.{
  Coalesced, opens, forward_unused, first_fit-Coalesced, released-Coalesced,
}
use rucix_kernel.Memory.Heap.Ops.{heap_init-IsHeap}

-- The heap, and which pointers its clients own.
pub record Clients : Type 0 where
  pub heap : Heap
  pub owned : ℕ → Bool

abbrev pub gain : (ℕ → Bool) → Option ℕ → ℕ → Bool
gain o none q = o q
gain o (some p) q = if q == p then true else o q

abbrev pub lose : (ℕ → Bool) → ℕ → ℕ → Bool
lose o p q = if q == p then false else o q

-- A request that returns, and a release of a pointer that is owned.
pub data Step : Clients → Clients → Type 0 where
  malloc :
      (fuel size : ℕ) (c : Clients) (s : Heap) (p : Option ℕ)
      → kmalloc fuel size c.heap ≡ some (s, p)
      → Step c (record { heap = s; owned = gain c.owned p })
  free :
      (p : ℕ) (c : Clients)
      → c.owned p ≡ true
      → Step c (record { heap = kfree (some p) c.heap; owned = lose c.owned p })

-- Whether the pointer is that of a used block.
abbrev pub used_at : List Area → ℕ → Bool
used_at [] p = false
used_at (b ∷ bs) p = (not b.unused && (b.at + header_size == p)) || used_at bs p

-- The blocks of the heap, no two neighbours of which are free, and every owned pointer is that of a
-- used block.
abbrev pub Safe : ℕ → ℕ → Clients → Type 0
Safe lo hi c =
    (bs : List Area) × IsHeap c.heap lo hi bs
    × Coalesced bs
    × ((p : ℕ) → c.owned p ≡ true → used_at bs p ≡ true)

used_at-first_fit :
    (n p : ℕ) (bs : List Area) → used_at bs p ≡ true → used_at (first_fit n bs) p ≡ true
used_at-first_fit n p [] h = h
used_at-first_fit n p (b ∷ bs) h = ground (arith, used_at-first_fit n p bs)

used_at-fit : (n p : ℕ) (bs : List Area) → fit n bs ≡ some p → used_at (first_fit n bs) p ≡ true
used_at-fit n p [] h = ground arith
used_at-fit n p (b ∷ bs) h = ground (arith, used_at-fit n p bs)

used_at-forward :
    (b : Area) (bs : List Area) (p : ℕ) → used_at bs p ≡ true → used_at (forward b bs) p ≡ true
used_at-forward b [] p h = ground arith
used_at-forward b (c ∷ cs) p h = ground arith

used_at-backward :
    (b : Area) (bs : List Area) (p : ℕ)
    → opens bs ≡ true
    → used_at (b ∷ bs) p ≡ true
    → used_at (backward b bs) p ≡ true
used_at-backward b [] p o h = h
used_at-backward b (c ∷ cs) p o h = ground arith

-- A release takes no other block from its owner.
used_at-released :
    (pre : List Area) (b : Area) (post : List Area) (p : ℕ)
    → (b.at + header_size == p) ≡ false
    → used_at (pre ++ b ∷ post) p ≡ true
    → used_at (released pre b post) p ≡ true
used_at-released [] b post p n h =
    used_at-forward (record b { unused = true }) post p (ground arith)
used_at-released (q ∷ []) b post p n h =
    let f = used_at-forward (record b { unused = true }) post p in
    used_at-backward q (forward (record b { unused = true }) post) p
      (forward_unused (record b { unused = true }) post refl) (ground (arith, f))
used_at-released (q ∷ r ∷ pre) b post p n h = ground (arith, used_at-released (r ∷ pre) b post p)

find_used :
    (bs : List Area) (p : ℕ)
    → used_at bs p ≡ true
    → (pre : List Area) × (b : Area) × (post : List Area) × (bs ≡ pre ++ b ∷ post)
      × (b.at + header_size ≡ p)
find_used [] p h = ground arith
find_used (b ∷ bs) p h = elim (Bool-cases (b.at + header_size == p)) [
  | inl e ↦ ([], b, bs, refl, ground arith)
  | inr e ↦
      let (pre, x, post, q, at) = find_used bs p (ground arith) in
      (b ∷ pre, x, post, ap (λ l. b ∷ l) q, at)
]

gain_used :
    (n : ℕ) (bs : List Area) (o : ℕ → Bool)
    → ((p : ℕ) → o p ≡ true → used_at bs p ≡ true)
    → (q : ℕ) → gain o (fit n bs) q ≡ true
    → used_at (first_fit n bs) q ≡ true
gain_used n bs o own q h = elim (Option-cases (fit n bs)) [
  | inl e ↦ used_at-first_fit n q bs (own q (subst (λ x. gain o x q ≡ true) e h))
  | inr (p, e) ↦ elim (Bool-cases (q == p)) [
    | inl s ↦ used_at-fit n q bs (e ∙ ap {A = ℕ} some (ground arith))
    | inr s ↦
        used_at-first_fit n q bs
          (own q (ap (λ v. if v then true else o q) (sym s) ∙ subst (λ x. gain o x q ≡ true) e h))
  ]
]

-- What a step leaves of an invariant of the heap with its clients.
step_malloc :
    (lo hi fuel size : ℕ) (c : Clients) (s : Heap) (p : Option ℕ)
    → kmalloc fuel size c.heap ≡ some (s, p)
    → Safe lo hi c
    → Safe lo hi (record { heap = s; owned = gain c.owned p })
step_malloc lo hi fuel size c s p e (bs, heap, co, own) = elim (Bool-cases (size == 0)) [
  | inl z ↦
      let same : Path (Heap × Option ℕ) (c.heap, none) (s, p) =
        some-injective _ _ (sym (kmalloc_zero fuel size c.heap z) ∙ e) in
      (
        bs,
        subst (λ x. IsHeap x lo hi bs) (ap (λ r. r.0) same) heap,
        co,
        subst (λ x. (q : ℕ) → gain c.owned x q ≡ true → used_at bs q ≡ true) (ap (λ r. r.1) same)
            own,
      )
  | inr z ↦
      let n = align_8 size in
      let (s', run, after) =
        run_found (suc (length bs) + fuel) size n c.heap lo hi bs heap (omega arith) (ground arith)
          refl in
      let same : Path (Heap × Option ℕ) (s', fit n bs) (s, p) =
        some-injective _ _ (sym run ∙ kmalloc_add (suc (length bs)) fuel size c.heap (s, p) e) in
      (
        first_fit n bs,
        subst (λ x. IsHeap x lo hi (first_fit n bs)) (ap (λ r. r.0) same) after,
        first_fit-Coalesced n bs co,
        subst (λ x. (q : ℕ) → gain c.owned x q ≡ true → used_at (first_fit n bs) q ≡ true)
            (ap (λ r. r.1) same) (gain_used n bs c.owned own),
      )
]

step_free :
    (lo hi p : ℕ) (c : Clients)
    → c.owned p ≡ true
    → Safe lo hi c
    → Safe lo hi (record { heap = kfree (some p) c.heap; owned = lose c.owned p })
step_free lo hi p c o (bs, heap, co, own) =
    let (pre, b, post, e, at) = find_used bs p (own p o) in
    let whole =
      (kfree-released c.heap lo hi pre b post (subst (λ x. IsHeap c.heap lo hi x) e heap)).0 in
    (
      released pre b post,
      subst (λ x. IsHeap (kfree (some x) c.heap) lo hi (released pre b post)) at whole,
      released-Coalesced pre b post (subst Coalesced e co),
      λ q h. elim (Bool-cases (q == p)) [
        | inl s ↦ ground arith
        | inr s ↦
            used_at-released pre b post q (ground arith)
              (subst (λ x. used_at x q ≡ true) e (own q (ground arith)))
      ],
    )

Step-Safe : (lo hi : ℕ) (c d : Clients) → Step c d → Safe lo hi c → Safe lo hi d
Step-Safe lo hi c d (malloc fuel n b s p e) safe = step_malloc lo hi fuel n b s p e safe
Step-Safe lo hi c d (free p b o) safe = step_free lo hi p b o safe

-- From a heap that `heap_init` set up and of which no pointer is given out, in every state that
-- requests and releases of owned pointers lead to, the heap consists of blocks that fill its memory
-- without gaps, linked in both directions; no two neighbouring blocks are free; and every pointer
-- that a client owns is that of a used block.
pub Reachable-Safe :
    (start_virt size : ℕ) (s : Heap) (c : Clients)
    → header_size ≤ size
    → start_virt + size < 2 ^ 63
    → Reachable Step (record { heap = heap_init start_virt size s; owned = λ p. false }) c
    → Safe start_virt (start_virt + size) c
Reachable-Safe start_virt size s c room top r =
    let (bs, heap, co) = heap_init-IsHeap start_virt size s room top in
    invariant Step (Safe start_virt (start_virt + size))
      (record { heap = heap_init start_virt size s; owned = λ p. false })
      (bs, heap, co, λ p h. ground arith) (Step-Safe start_virt (start_virt + size)) c r
