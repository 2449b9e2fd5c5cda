-- ===== src/Radix/Heights.antt =====
-- kernel/lib/radix-tree.c: how many levels an insertion puts on top.
use rucix_kernel.Common.{
  ℕ, zero, suc, ◌+◌, ◌-◌, ◌/◌, ◌≤◌, ◌<◌, ◌≡◌, refl, sym, ◌∙◌, subst, Bool, false, some, List, ltb,
  ◌==◌, if◌then◌else◌, Bool-cases, inl, inr, arith,
}
use rucix_kernel.Radix.{
  null, is_null, capacity, Root, grow, levels, start_height, extend_levels, radix_tree_extend,
}
use rucix_kernel.Radix.Digits.{capacity-positive, same}
use rucix_kernel.Radix.Find.{Good-is_null}
use rucix_kernel.Radix.Insert.{Enough, Enough-more}
use rucix_kernel.Radix.Extend.{IsValid, content, content-null, Extended, extend_levels-Extended}

grow-some :
    (fuel i h : ℕ)
    → i < capacity 10
    → h ≤ 10
    → 10 < fuel + h
    → (h' : ℕ) × (grow fuel i h ≡ some h') × (h ≤ h') × (h' ≤ 10) × (i < capacity h')
unfolding grow
grow-some zero i h lt le more = absurd (omega arith)
grow-some (suc fuel) i h lt le more = elim (Bool-cases (ltb (capacity h - 1) i)) [
  | inr e ↦ (h, rw e refl, omega arith, le, ground (arith, capacity-positive h))
  | inl e ↦ elim (Bool-cases (h == 10)) [
    | inl q ↦
        let ten : h ≡ 10 = ground arith in
        let lt' : i < capacity h = subst (λ k. i < capacity k) (sym ten) lt in
        absurd (ground (arith, capacity-positive h))
    | inr q ↦
        let (h', run, low, high, fits) = grow-some fuel i (h + 1) lt (ground arith) (omega arith) in
        (h', rw e run, omega arith, high, fits)
  ]
]

levels-some :
    (fuel tmp h k : ℕ)
    → tmp < capacity k
    → k < fuel
    → (j : ℕ) × (levels fuel tmp h ≡ some j) × (j ≤ h + k)
unfolding levels capacity
levels-some zero tmp h k lt le = absurd (omega arith)
levels-some (suc fuel) tmp h zero lt le = (h, ground arith, omega arith)
levels-some (suc fuel) tmp h (suc k) lt le = elim (Bool-cases (tmp == 0)) [
  | inl e ↦ (h, rw e refl, omega arith)
  | inr e ↦
      let (j, run, bound) = levels-some fuel (tmp / 64) (h + 1) k (omega arith) (omega arith) in
      (j, rw e run, omega arith)
]

pub start_height-IsValid :
    (r : Root) (i : ℕ)
    → IsValid r
    → i < capacity 10
    → (r' : Root) × (start_height 11 r i ≡ some r')
      × IsValid r'
      × (0 < r'.height)
      × ((j : ℕ) → content r' j ≡ content r j)
unfolding start_height IsValid
start_height-IsValid r i (low, inr (pos, g)) lt =
    (r, rw (Good-is_null r.height r.rnode g) refl, (low, inr (pos, g)), pos, λ j. refl)
start_height-IsValid r i (low, inl e) lt = elim (Bool-cases (r.height == 0)) [
  | inr f ↦ (r, rw (e, f) refl, (low, inl e), ground arith, λ j. refl)
  | inl f ↦
      let (j, run, bound) = levels-some 11 i 0 10 lt (omega arith) in
      let r' : Root = record { height = if j == 0 then 1 else j; rnode = null } in
      (
        r',
        rw (e, f, run) refl,
        (ground arith, inl refl),
        ground arith,
        λ k. content-null r' k refl ∙ sym (content-null r k e),
      )
]

-- Levels on top, until the index fits.
unfoldable pub Fits : Root → ℕ → List Bool → Bool × Root × List Bool → Type 0
Fits r i m (failed, r', m') =
    IsValid r'
    × (0 < r'.height)
    × ((j : ℕ) → content r' j ≡ content r j)
    × (failed ≡ false → i < capacity r'.height)
    × (Enough 21 m → (failed ≡ false) × Enough 11 m')

below_ten : (h i : ℕ) → h ≤ 10 → i < capacity 10 → capacity h ≤ i → h + 1 ≤ 10
below_ten h i le lt big = elim (Bool-cases (h == 10)) [
  | inr e ↦ ground arith
  | inl e ↦
      let ten : h ≡ 10 = ground arith in
      let big' : capacity 10 ≤ i = subst (λ k. capacity k ≤ i) ten big in absurd (omega arith)
]

extend_empty :
    (r : Root) (i h : ℕ) (m : List Bool)
    → grow 11 i (r.height + 1) ≡ some h
    → r.rnode ≡ null
    → radix_tree_extend 11 r i m ≡ some (false, record { height = h; rnode = null }, m)
unfolding radix_tree_extend extend_levels
extend_empty r i h m run e =
    let z : h - h ≡ 0 = omega arith in rw (radix_tree_extend, run, e, z) refl

extend_nodes :
    (r : Root) (i h : ℕ) (m : List Bool)
    → grow 11 i (r.height + 1) ≡ some h
    → is_null r.rnode ≡ false
    → radix_tree_extend 11 r i m ≡ some (extend_levels (h - r.height) r m)
unfolding radix_tree_extend
extend_nodes r i h m run e = rw (run, radix_tree_extend, e) refl

Extended-Fits :
    (n h : ℕ) (r : Root) (i : ℕ) (m : List Bool) (x : Bool × Root × List Bool)
    → 0 < r.height
    → n + r.height ≡ h
    → n ≤ 10
    → h ≤ 10
    → i < capacity h
    → Extended n r m x
    → Fits r i m x
unfolding Fits Extended IsValid
Extended-Fits n h r i m (failed, r', m') pos sum small high fits (up, low, g, same, ok, enough) =
    let pos' : 0 < r'.height = omega arith in
    (
      (omega arith, inr (pos', g)),
      pos',
      same,
      λ f. subst (λ k. i < capacity k) (sym (ok f ∙ sum)) fits,
      λ e. enough 11 (Enough-more 21 (n + 11) m (omega arith) e),
    )

pub radix_tree_extend-Fits :
    (r : Root) (i : ℕ) (m : List Bool)
    → IsValid r
    → 0 < r.height
    → i < capacity 10
    → capacity r.height ≤ i
    → (x : Bool × Root × List Bool) × (radix_tree_extend 11 r i m ≡ some x) × Fits r i m x
unfolding Fits IsValid
radix_tree_extend-Fits r i m v pos lt big =
    let (h, run, up, high, fits) =
      grow-some 11 i (r.height + 1) lt (below_ten r.height i v.0 lt big) (omega arith) in
    elim v.1 [
      | inl e ↦
          let r' : Root = record { height = h; rnode = null } in
          (
            (false, r', m),
            extend_empty r i h m run e,
            (
              (high, inl refl),
              omega arith,
              λ j. content-null r' j refl ∙ sym (content-null r j e),
              λ f. fits,
              λ f. (refl, Enough-more 21 11 m (omega arith) f),
            ),
          )
      | inr (some_level, g) ↦
          let x = extend_levels (h - r.height) r m in
          let d = extend_levels-Extended (h - r.height) r.height r.rnode m g in
          (
            x,
            extend_nodes r i h m run (Good-is_null r.height r.rnode g),
            Extended-Fits (h - r.height) h r i m x pos (omega arith) (omega arith) high fits d,
          )
    ]
