-- ===== src/Block/Elevator/Merge.antt =====
-- kernel/drivers/block/elevator.c: merging a bio into a request of the queue.
use rucix_kernel.Common.{
  ℕ, ◌+◌, ◌/◌, ◌%◌, ◌^◌, ◌<◌, ◌≡◌, refl, ap, sym, ◌∙◌, Bool, true, false, Option, none, some, List,
  [], ◌∷◌, ◌++◌, ◌==◌, arith, inl, inr, Bool-cases, ◌⊎◌,
}
use rucix_kernel.Common.Words.{u64}
use rucix_kernel.Block.Elevator.{Bio, Request, merge_req, elv_merge_bio}

-- The bios cover the sectors from `lo` to `hi` one after another.
abbrev pub Covers : ℕ → ℕ → List Bio → Type 0
Covers lo hi [] = lo ≡ hi
Covers lo hi (b ∷ bs) = (b.sector ≡ lo) × Covers (lo + b.size / 512) hi bs

-- The bios of the request cover its sectors, without gap or overlap.
abbrev pub IsContiguous : Request → Type 0
IsContiguous r = Covers r.sector (r.sector + r.nr_sectors) r.bios

-- The bio is a request's continuation.
abbrev pub follows : Request → Bio → Bool
follows r bio = u64 (r.sector + r.nr_sectors) == bio.sector

abbrev pub NoneFollows : Bio → List Request → Type 0
NoneFollows bio [] = Unit {0}
NoneFollows bio (r ∷ q) = (follows r bio ≡ false) × NoneFollows bio q

-- What a merge promises: the first request that the bio continues takes it and covers it too, or
-- there is none.
abbrev pub Merged : Bio → List Request → Option (List Request) → Type 0
Merged bio q out =
    ((out ≡ none) × NoneFollows bio q)
    ⊎ ((pre : List Request) × (r : Request) × (post : List Request) × (m : Request) × (q
          ≡ pre ++ r ∷ post)
        × (out ≡ some (pre ++ m ∷ post))
        × NoneFollows bio pre
        × (follows r bio ≡ true)
        × (m.sector ≡ r.sector)
        × (m.bios ≡ r.bios ++ bio ∷ [])
        × (IsContiguous r
            → r.sector + r.nr_sectors < 2 ^ 64
            → r.nr_sectors + bio.size / 512 < 2 ^ 32
            → IsContiguous m))

Covers-snoc :
    (lo mid hi : ℕ) (bs : List Bio) (bio : Bio)
    → Covers lo mid bs
    → bio.sector ≡ mid
    → mid + bio.size / 512 ≡ hi
    → Covers lo hi (bs ++ bio ∷ [])
Covers-snoc lo mid hi [] bio c e h = (e ∙ sym c, ap (λ x. x + bio.size / 512) c ∙ h)
Covers-snoc lo mid hi (b ∷ bs) bio (f, c) e h =
    (f, Covers-snoc (lo + b.size / 512) mid hi bs bio c e h)

abbrev grown : Request → Bio → Request
grown r bio = record r {
  bios = r.bios ++ bio ∷ [];
  nr_sectors = (r.nr_sectors + bio.size / 512) % 2 ^ 32;
}

equal_at : (a b : ℕ) → (a == b) ≡ true → a ≡ b
equal_at a b h = ground arith

small_u64 : (n : ℕ) → n < 2 ^ 64 → u64 n ≡ n
small_u64 n h = omega arith

sum_at : (s n k : ℕ) → n + k < 2 ^ 32 → s + n + k ≡ s + (n + k) % 2 ^ 32
sum_at s n k h = omega arith

grown-IsContiguous :
    (r : Request) (bio : Bio)
    → follows r bio ≡ true
    → IsContiguous r
    → r.sector + r.nr_sectors < 2 ^ 64
    → r.nr_sectors + bio.size / 512 < 2 ^ 32
    → IsContiguous (grown r bio)
grown-IsContiguous r bio f c top small =
    Covers-snoc r.sector (r.sector + r.nr_sectors)
      (r.sector + (r.nr_sectors + bio.size / 512) % 2 ^ 32) r.bios bio c
      (sym (equal_at (u64 (r.sector + r.nr_sectors)) bio.sector f)
        ∙ small_u64 (r.sector + r.nr_sectors) top)
      (sum_at r.sector r.nr_sectors (bio.size / 512) small)

merge_follows :
    (r : Request) (bio : Bio) → follows r bio ≡ true → merge_req r bio ≡ some (grown r bio)
unfolding merge_req
merge_follows r bio f = rw f refl

merge_apart : (r : Request) (bio : Bio) → follows r bio ≡ false → merge_req r bio ≡ none
unfolding merge_req
merge_apart r bio f = rw f refl

-- `elv_merge_bio` gives the bio to the first request of the queue that ends where it begins, and says
-- that none took it exactly when there is none. The request keeps its first sector and its bios, has
-- the new one as its last, and covers its sectors without gap or overlap if it did before, unless
-- its 32-bit length or 64-bit end overflows; all other requests stay.
pub elv_merge_bio-Merged : (bio : Bio) (q : List Request) → Merged bio q (elv_merge_bio bio q)
unfolding elv_merge_bio
elv_merge_bio-Merged bio [] = inl (refl, tt)
elv_merge_bio-Merged bio (r ∷ q) = elim (Bool-cases (follows r bio)) [
  | inl f ↦ inr (
    [],
    r,
    q,
    grown r bio,
    refl,
    rw (merge_follows r bio f, elv_merge_bio) refl,
    tt,
    f,
    refl,
    refl,
    grown-IsContiguous r bio f,
  )
  | inr f ↦ elim (elv_merge_bio-Merged bio q) [
    | inl (e, apart) ↦ inl (rw (merge_apart r bio f, e, elv_merge_bio) refl, (f, apart))
    | inr (pre, x, post, m, e, out, apart, hit, first, bios, covers) ↦ inr (
      r ∷ pre,
      x,
      post,
      m,
      ap (λ l. r ∷ l) e,
      rw (merge_apart r bio f, out, elv_merge_bio) refl,
      (f, apart),
      hit,
      first,
      bios,
      covers,
    )
  ]
]
