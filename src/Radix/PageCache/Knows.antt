-- ===== src/Radix/PageCache/Knows.antt =====
-- kernel/mm/page_cache.c: the places of pages in the cache.
use rucix_kernel.Common.{
  ℕ, ◌<◌, ◌≡◌, ◌≢◌, refl, sym, ◌∙◌, ap, ap₂, Bool, false, ◌&&◌, ◌==◌, if◌then◌else◌, Bool-cases,
  inl, inr, arith,
}
use rucix_kernel.Common.Chain.{update}
use rucix_kernel.Radix.{Pointer, null, item, Root, radix_tree_lookup}
use rucix_kernel.Radix.Extend.{IsValid}
use rucix_kernel.Radix.PageCache.{Cache, set_space}

-- The page at an offset of a mapping.
abbrev pub cached : Cache → ℕ → ℕ → Pointer
cached c a i = radix_tree_lookup (c.spaces a).page_tree i

-- A page that is found at a place of a mapping names that place as its own, and a page that names a
-- place is found there.
abbrev pub Knows : (ℕ → ℕ → Pointer) → (ℕ → ℕ) → (ℕ → ℕ) → Type 0
Knows at mapping index =
    ((a i p : ℕ) → 0 < a → at a i ≡ item p → (mapping p ≡ a) × (index p ≡ i))
    × ((p : ℕ) → 0 < mapping p → at (mapping p) (index p) ≡ item p)

unfoldable pub IsCache : Cache → Type 0
IsCache c =
    ((a : ℕ) → IsValid (c.spaces a).page_tree)
    × Knows (cached c) (λ p. (c.pages p).mapping) (λ p. (c.pages p).index)

pub item-injective : (p q : ℕ) → item p ≡ item q → p ≡ q
item-injective p q e = ground arith

pub null≢item : (q : ℕ) → null ≢ item q
null≢item q e = ground arith

module _ (at at' : ℕ → ℕ → Pointer) (mapping mapping' index index' : ℕ → ℕ)
    (knows : Knows at mapping index) (p a i : ℕ) where
  -- A page is put where nothing was.
  pub put-Knows :
      mapping p ≡ 0
      → 0 < a
      → at a i ≡ null
      → ((b j : ℕ) → at' b j ≡ (if (a == b) && (j == i) then item p else at b j))
      → ((q : ℕ) → mapping' q ≡ (if p == q then a else mapping q))
      → ((q : ℕ) → index' q ≡ (if p == q then i else index q))
      → Knows at' mapping' index'
  put-Knows out pos free places names offsets = (
    λ b j q pos' e. elim (Bool-cases ((a == b) && (j == i))) [
      | inl f ↦
          let same : p ≡ q = item-injective p q (sym ((places b j) ∙ (rw f refl)) ∙ e) in
          (ground (arith, names q), ground (arith, offsets q))
      | inr f ↦
          let old : at b j ≡ item q = sym ((places b j) ∙ (rw f refl)) ∙ e in
          let (m, x) = knows.0 b j q pos' old in
          (ground (arith, names q), ground (arith, offsets q))
    ],
    λ q pos'. ground (arith, places (mapping' q) (index' q), names q, offsets q, knows.1 q),
  )

  -- A page is taken away.
  pub take-Knows :
      0 < a
      → mapping p ≡ a
      → index p ≡ i
      → ((b j : ℕ) → at' b j ≡ (if (a == b) && (j == i) then null else at b j))
      → ((q : ℕ) → mapping' q ≡ (if p == q then 0 else mapping q))
      → ((q : ℕ) → index' q ≡ index q)
      → Knows at' mapping' index'
  take-Knows pos m x places names offsets = (
    λ b j q pos' e. elim (Bool-cases ((a == b) && (j == i))) [
      | inl f ↦ absurd (null≢item q (sym ((places b j) ∙ (rw f refl)) ∙ e))
      | inr f ↦
          let old : at b j ≡ item q = sym ((places b j) ∙ (rw f refl)) ∙ e in
          let (m', x') = knows.0 b j q pos' old in
          (ground (arith, names q), ground (arith, offsets q))
    ],
    λ q pos'.
        let other : (p == q) ≡ false = ground (arith, names q) in
        let pos'' : 0 < mapping q = ground (arith, names q) in
        let old : at (mapping q) (index q) ≡ item q = knows.1 q pos'' in
        let mine : at (mapping p) (index p) ≡ item p = knows.1 p (omega arith) in
        let here = ap₂ at' (names q ∙ (rw other refl)) (offsets q) ∙ places (mapping q) (index q) in
        elim (Bool-cases ((a == mapping q) && (index q == i))) [
          | inr f ↦ here ∙ (rw f old)
          | inl f ↦
              let m' : mapping p ≡ mapping q = ground arith in
              let x' : index p ≡ index q = ground arith in
              let same = item-injective p q (sym mine ∙ ap₂ at m' x' ∙ old) in absurd (ground arith)
        ],
  )

-- What the writes of a page and of a tree do to the fields.
pub set_space-cached :
    (c : Cache) (a b i n : ℕ) (tree : Root)
    → cached (set_space a (record { page_tree = tree; nrpages = n }) c) b i
      ≡ (if a == b then radix_tree_lookup tree i else cached c b i)
unfolding update
set_space-cached c a b i n tree = elim (Bool-cases (a == b)) [
  | inl e ↦ rw e refl
  | inr e ↦ rw e refl
]

-- A tree that differs at one offset from the one it replaces.
pub place-cached :
    (c : Cache) (a offset n : ℕ) (ok : Bool) (it : Pointer) (tree : Root)
    → ((j : ℕ) → radix_tree_lookup tree j ≡ (if ok && (j == offset) then it else cached c a j))
    → (b i : ℕ)
    → cached (set_space a (record { page_tree = tree; nrpages = n }) c) b i
      ≡ (if ok && ((a == b) && (i == offset)) then it else cached c b i)
place-cached c a offset n ok it tree put b i =
    set_space-cached c a b i n tree ∙ elim (Bool-cases (a == b)) [
      | inr e ↦ rw e (ground arith)
      | inl e ↦
          let same : a ≡ b = ground arith in
          rw e (put i ∙ ap (λ d. if ok && (i == offset) then it else cached c d i) same)
    ]

pub set_space-IsValid :
    (c : Cache) (a b n : ℕ) (tree : Root)
    → IsValid tree
    → IsValid (c.spaces b).page_tree
    → IsValid ((set_space a (record { page_tree = tree; nrpages = n }) c).spaces b).page_tree
unfolding update
set_space-IsValid c a b n tree v w = elim (Bool-cases (a == b)) [ inl e ↦ rw e v | inr e ↦ rw e w ]

pub same-Knows :
    (at at' : ℕ → ℕ → Pointer) (mapping index : ℕ → ℕ)
    → ((a i : ℕ) → at' a i ≡ at a i)
    → Knows at mapping index
    → Knows at' mapping index
same-Knows at at' mapping index same (knows, found) = (
  λ a i p pos e. knows a i p pos (sym (same a i) ∙ e),
  λ p pos. same (mapping p) (index p) ∙ found p pos,
)

pub same_count :
    (c : Cache) (p q : ℕ)
    → (if p == q then (c.pages p).count else (c.pages q).count) ≡ (c.pages q).count
same_count c p q = elim (Bool-cases (p == q)) [
  | inr e ↦ rw e refl
  | inl e ↦ let same : p ≡ q = ground arith in rw e (ap (λ k. (c.pages k).count) same)
]
