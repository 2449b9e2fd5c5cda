-- ===== src/Memory/Heap/Fuel.antt =====
-- kernel/memory/heap.c: the fuel of the walk in `kmalloc`.
use rucix_kernel.Common.{
  ℕ, zero, suc, ◌+◌, ◌≡◌, refl, ap, sym, ◌∙◌, subst, Bool, true, false, ◌&&◌, Option, none, some,
  arith, leb, ◌==◌, if◌then◌else◌, Bool-cases, inl, inr,
}
use mathlib.Core.Option.{none-ne-some}
use rucix_kernel.Memory.Heap.{Heap, Block, header_size, kmalloc, kmalloc_from, take_block, align_8}

keep_if :
    {A : Type 0} (v : Bool) (x y z : Option A) (r : A)
    → (y ≡ some r → z ≡ some r)
    → (if v then x else y) ≡ some r
    → (if v then x else z) ≡ some r
keep_if true x y z r f e = e
keep_if false x y z r f e = f e

-- More fuel does not change a result.
kmalloc_from_more :
    (fuel n : ℕ) (h : ℕ → Block) (q : Option ℕ) (r : (ℕ → Block) × Option ℕ)
    → kmalloc_from fuel h n q ≡ some r
    → kmalloc_from (suc fuel) h n q ≡ some r
unfolding kmalloc_from
kmalloc_from_more zero n h q r e = ground arith
kmalloc_from_more (suc fuel) n h none r e = e
kmalloc_from_more (suc fuel) n h (some a) r e =
    keep_if ((h a).free && leb n (h a).size) (some (take_block h a n, some (a + header_size)))
      (kmalloc_from fuel h n (h a).next) (kmalloc_from (suc fuel) h n (h a).next) r
      (kmalloc_from_more fuel n h (h a).next r) e

-- The result of `kmalloc` from that of the loop.
abbrev wrap : Heap → Option ((ℕ → Block) × Option ℕ) → Option (Heap × Option ℕ)
wrap s none = none
wrap s (some (h, p)) = some (record s { blocks = h }, p)

pub kmalloc_zero :
    (fuel size : ℕ) (s : Heap) → (size == 0) ≡ true → kmalloc fuel size s ≡ some (s, none)
unfolding kmalloc
kmalloc_zero fuel size s z = rw z refl

kmalloc-wrap :
    (fuel size : ℕ) (s : Heap)
    → (size == 0) ≡ false
    → kmalloc fuel size s ≡ wrap s (kmalloc_from fuel s.blocks (align_8 size) s.free_list)
unfolding kmalloc
kmalloc-wrap fuel size s z = rw z refl

wrap_more :
    (s : Heap) (y z : Option ((ℕ → Block) × Option ℕ)) (r : Heap × Option ℕ)
    → ((q : (ℕ → Block) × Option ℕ) → y ≡ some q → z ≡ some q)
    → wrap s y ≡ some r
    → wrap s z ≡ some r
wrap_more s none z r f e = absurd (none-ne-some _ e)
wrap_more s (some q) z r f e = ap (λ x. wrap s x) (f q refl) ∙ e

kmalloc_more :
    (fuel size : ℕ) (s : Heap) (r : Heap × Option ℕ)
    → kmalloc fuel size s ≡ some r
    → kmalloc (suc fuel) size s ≡ some r
kmalloc_more fuel size s r e = elim (Bool-cases (size == 0)) [
  | inl z ↦ kmalloc_zero (suc fuel) size s z ∙ sym (kmalloc_zero fuel size s z) ∙ e
  | inr z ↦
      let n = align_8 size in
      kmalloc-wrap (suc fuel) size s z
      ∙ wrap_more s (kmalloc_from fuel s.blocks n s.free_list)
          (kmalloc_from (suc fuel) s.blocks n s.free_list) r
          (λ q. kmalloc_from_more fuel n s.blocks s.free_list q)
          (sym (kmalloc-wrap fuel size s z) ∙ e)
]

pub kmalloc_add :
    (k fuel size : ℕ) (s : Heap) (r : Heap × Option ℕ)
    → kmalloc fuel size s ≡ some r
    → kmalloc (k + fuel) size s ≡ some r
kmalloc_add zero fuel size s r e = subst (λ m. kmalloc m size s ≡ some r) (omega arith) e
kmalloc_add (suc k) fuel size s r e =
    subst (λ m. kmalloc m size s ≡ some r) (omega arith)
      (kmalloc_more (k + fuel) size s r (kmalloc_add k fuel size s r e))
