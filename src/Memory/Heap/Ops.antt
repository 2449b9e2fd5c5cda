-- ===== src/Memory/Heap/Ops.antt =====
-- kernel/memory/heap.c: `heap_init`, `kmalloc` and `kfree` together.
use rucix_kernel.Common.{
  ℕ, ◌+◌, ◌-◌, ◌^◌, ◌≤◌, ◌<◌, ◌≡◌, refl, ap, sym, ◌∙◌, subst, true, Option, some, List, [], ◌∷◌,
  ◌++◌, arith, length, inl, inr,
}
use rucix_kernel.Memory.Heap.{Heap, header_size, heap_init, kmalloc, kfree, align_8}
use rucix_kernel.Memory.Heap.Layout.{Area, update_same}
use rucix_kernel.Memory.Heap.Alloc.{first_fit, fit}
use rucix_kernel.Memory.Heap.Kmalloc.{IsHeap, FirstFit, first_fit-FirstFit, run_found}
use rucix_kernel.Memory.Heap.Kfree.{kfree-released}
use rucix_kernel.Memory.Heap.Coalesced.{Coalesced, uncarve}

give_back :
    (n lo hi : ℕ) (s : Heap) (bs : List Area)
    → Coalesced bs
    → IsHeap s lo hi (first_fit n bs)
    → FirstFit n bs (first_fit n bs) (fit n bs)
    → IsHeap (kfree (fit n bs) s) lo hi bs
unfolding kfree
give_back n lo hi s bs c heap (inl (p, same, all)) =
    subst (λ q. IsHeap (kfree q s) lo hi bs) (sym p) (subst (λ cs. IsHeap s lo hi cs) same heap)
give_back n lo hi s bs c heap (inr (pre, b, post, e, cut, p, before, free, room)) =
    let (x, rest, split, at, back) = uncarve n pre b post free room (subst Coalesced e c) in
    let whole : IsHeap s lo hi (pre ++ x ∷ rest) =
      subst (λ cs. IsHeap s lo hi cs) (cut ∙ ap (λ l. pre ++ l) split) heap in
    subst (λ q. IsHeap (kfree q s) lo hi bs) (ap (λ a. some (a + header_size)) at ∙ sym p)
      (subst (λ cs. IsHeap (kfree (some (x.at + header_size)) s) lo hi cs) (back ∙ sym e)
        (kfree-released s lo hi pre x rest whole).0)

-- On a heap of blocks, no two neighbours of which are free, `kfree` undoes `kmalloc`: with more
-- rounds of fuel than there are blocks a request for at least one byte ends, and the release of the
-- pointer it returns, which may be null, gives back the blocks there were before the request.
pub kfree-kmalloc :
    (fuel size : ℕ) (s : Heap) (lo hi : ℕ) (bs : List Area)
    → IsHeap s lo hi bs
    → Coalesced bs
    → length bs < fuel
    → 0 < size
    → (s' : Heap) × (p : Option ℕ) × (kmalloc fuel size s ≡ some (s', p))
      × IsHeap (kfree p s') lo hi bs
kfree-kmalloc fuel size s lo hi bs heap c enough pos =
    let n = align_8 size in
    let (s', run, after) = run_found fuel size n s lo hi bs heap enough pos refl in
    (s', fit n bs, run, give_back n lo hi s' bs c after (first_fit-FirstFit n bs))

pub heap_init-IsHeap :
    (start_virt size : ℕ) (s : Heap)
    → header_size ≤ size
    → start_virt + size < 2 ^ 63
    → (bs : List Area) × IsHeap (heap_init start_virt size s) start_virt (start_virt + size) bs
      × Coalesced bs
unfolding heap_init
heap_init-IsHeap start_virt size s room top =
    let b : Area = record { at = start_virt; bytes = size - header_size; unused = true } in
    (
      b ∷ [],
      record {
        starts = refl;
        stands = (update_same s.blocks start_virt _, tt);
        tiles = (refl, omega arith);
        top = top;
      },
      (refl, tt),
    )
