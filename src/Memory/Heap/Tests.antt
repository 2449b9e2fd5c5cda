-- ===== src/Memory/Heap/Tests.antt =====
-- kernel/memory/heap.c: runs on a concrete heap.
use rucix_kernel.Common.{
  ◌≤◌, ℕ, ◌+◌, ◌-◌, ◌^◌, ◌≡◌, refl, true, false, Option, none, some, List, [], ◌∷◌, arith,
}
use rucix_kernel.Memory.Heap.{
  Block, Heap, heap_init, kmalloc, kfree, kmalloc_from, take_block, split_block, relink,
}
use rucix_kernel.Memory.Heap.Layout.{Area, header}
use rucix_kernel.Memory.Heap.Kmalloc.{IsHeap, FirstFit, kmalloc-FirstFit, kmalloc_wraps}
use rucix_kernel.Memory.Heap.Free.{released}
use rucix_kernel.Memory.Heap.Kfree.{kfree-released}
use rucix_kernel.Memory.Heap.Coalesced.{Coalesced}
use rucix_kernel.Memory.Heap.Disjoint.{owned_apart}
use rucix_kernel.Memory.Heap.Ops.{kfree-kmalloc}
use rucix_kernel.Common.Steps.{Reachable, begin, go}
use rucix_kernel.Memory.Heap.Reach.{Step, Clients, Safe, malloc, free, gain, lose, Reachable-Safe}
use rucix_kernel.Common.Chain.{update}

-- Three blocks: 104 free bytes, 24 used bytes, 200 free bytes.
abbrev b0 : Area
b0 = record { at = 4096; bytes = 104; unused = true }

abbrev b1 : Area
b1 = record { at = 4240; bytes = 24; unused = false }

abbrev b2 : Area
b2 = record { at = 4304; bytes = 200; unused = true }

abbrev three : List Area
three = b0 ∷ b1 ∷ b2 ∷ []

abbrev nowhere : Block
nowhere = record { size = 0; next = none; prev = none; free = false; magic = 0 }

abbrev store : ℕ → Block
store =
    update
      (update (update (λ a. nowhere) 4096 (header none b0 (b1 ∷ b2 ∷ []))) 4240
        (header (some 4096) b1 (b2 ∷ [])))
      4304 (header (some 4240) b2 [])

abbrev heap : Heap
heap = record { blocks = store; free_list = some 4096 }

heap-IsHeap : IsHeap heap 4096 4544 three
unfolding update
heap-IsHeap = record {
  starts = refl;
  stands = (refl, (refl, (refl, tt)));
  tiles = (refl, (refl, (refl, refl)));
  top = omega arith;
}

three-Coalesced : Coalesced three
three-Coalesced = (refl, (refl, (refl, tt)))

-- 20 bytes are rounded up to 24 and taken from the first block.
twenty : (r : Heap) × (kmalloc 4 20 heap ≡ some (r, some 4136))
unfolding update kmalloc kmalloc_from take_block split_block relink
twenty = (_, refl)

kmalloc-FirstFit_example :
    (s' : Heap) × (p : Option ℕ) × (cs : List Area) × (kmalloc 4 130 heap ≡ some (s', p))
    × IsHeap s' 4096 4544 cs
    × FirstFit 136 three cs p
kmalloc-FirstFit_example =
    kmalloc-FirstFit 4 130 heap 4096 4544 three heap-IsHeap (omega arith) (omega arith)
      (omega arith)

kmalloc_wraps_run :
    (s' : Heap) × (p : Option ℕ) × (cs : List Area) × (kmalloc 4 (2 ^ 64 - 1) heap ≡ some (s', p))
    × IsHeap s' 4096 4544 cs
    × FirstFit 0 three cs p
kmalloc_wraps_run =
    kmalloc_wraps 4 (2 ^ 64 - 1) heap 4096 4544 three heap-IsHeap (omega arith) (omega arith)
      (omega arith)

kfree-released_example :
    IsHeap (kfree (some 4280) heap) 4096 4544 (released (b0 ∷ []) b1 (b2 ∷ []))
    × (kfree none heap ≡ heap)
kfree-released_example = kfree-released heap 4096 4544 (b0 ∷ []) b1 (b2 ∷ []) heap-IsHeap

all_joined : released (b0 ∷ []) b1 (b2 ∷ []) ≡ record { at = 4096; bytes = 408; unused = true } ∷ []
all_joined = refl

kfree-kmalloc_example :
    (s' : Heap) × (p : Option ℕ) × (kmalloc 4 130 heap ≡ some (s', p))
    × IsHeap (kfree p s') 4096 4544 three
kfree-kmalloc_example =
    kfree-kmalloc 4 130 heap 4096 4544 three heap-IsHeap three-Coalesced (omega arith) (omega arith)

abbrev fresh : Clients
fresh = record { heap = heap_init 4096 65536 heap; owned = λ p. false }

first_request : (r : Heap) × (kmalloc 2 20 (heap_init 4096 65536 heap) ≡ some (r, some 4136))
unfolding heap_init update kmalloc kmalloc_from take_block split_block relink
first_request = (_, refl)

abbrev owner : Clients
owner = record { heap = first_request.0; owned = gain (λ p. false) (some 4136) }

abbrev done : Clients
done = record {
  heap = kfree (some 4136) first_request.0;
  owned = lose (gain (λ p. false) (some 4136)) 4136;
}

done_reached : Reachable Step fresh done
done_reached =
    go {c = owner}
      (go {c = fresh} begin (malloc 2 20 fresh first_request.0 (some 4136) first_request.1))
      (free 4136 owner refl)

Reachable-Safe_example : Safe 4096 (4096 + 65536) done
Reachable-Safe_example =
    Reachable-Safe 4096 65536 heap done (omega arith) (omega arith) done_reached

second_request : (r : Heap) × (kmalloc 3 20 first_request.0 ≡ some (r, some 4200))
unfolding first_request heap_init update kmalloc kmalloc_from take_block split_block relink
second_request = (_, refl)

abbrev two_owned : Clients
two_owned = record { heap = second_request.0; owned = gain owner.owned (some 4200) }

two_owned_reached : Reachable Step fresh two_owned
two_owned_reached =
    go {c = owner}
      (go {c = fresh} begin (malloc 2 20 fresh first_request.0 (some 4136) first_request.1))
      (malloc 3 20 owner second_request.0 (some 4200) second_request.1)

owned_apart_example : 4136 + (second_request.0.blocks 4096).size + 40 ≤ 4200
owned_apart_example =
    owned_apart 4096 65536 heap two_owned 4136 4200 (omega arith) (omega arith) two_owned_reached
      refl refl (omega arith)
