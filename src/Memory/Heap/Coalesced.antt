-- ===== src/Memory/Heap/Coalesced.antt =====
-- kernel/memory/heap.c: no two neighbouring blocks are free, and what follows from that.
use rucix_kernel.Common.{
  ℕ, ◌+◌, ◌-◌, ◌≤◌, ◌≡◌, refl, ap, ap₂, sym, ◌∙◌, Bool, true, false, ◌&&◌, List, [], ◌∷◌, ◌++◌,
  arith, ltb, if◌then◌else◌, inl, inr, Bool-cases, ltb→lt,
}
use rucix_kernel.Memory.Heap.{header_size}
use rucix_kernel.Memory.Heap.Layout.{Area}
use rucix_kernel.Memory.Heap.Alloc.{carve, fits, first_fit}
use rucix_kernel.Memory.Heap.Free.{join, forward, backward, released}

-- Whether the first block is free.
abbrev pub opens : List Area → Bool
opens [] = false
opens (b ∷ bs) = b.unused

abbrev pub Coalesced : List Area → Type 0
Coalesced [] = Unit {0}
Coalesced (b ∷ bs) = ((b.unused && opens bs) ≡ false) × Coalesced bs

carve-Coalesced :
    (n : ℕ) (b : Area) (bs : List Area)
    → fits n b ≡ true
    → Coalesced (b ∷ bs)
    → Coalesced (carve n b bs)
carve-Coalesced n b bs f (c, cs) = elim (Bool-cases (ltb (n + header_size + 16) b.bytes)) [
  | inl d ↦ rw d (refl, ground arith)
  | inr d ↦ rw d (refl, cs)
]

pub opens-first_fit : (n : ℕ) (bs : List Area) → opens bs ≡ false → opens (first_fit n bs) ≡ false
opens-first_fit n [] h = refl
opens-first_fit n (b ∷ bs) h = ground arith

and_mono : (u o o' : Bool) → (o ≡ false → o' ≡ false) → (u && o) ≡ false → (u && o') ≡ false
and_mono true o o' f h = f h
and_mono false o o' f h = refl

pub first_fit-Coalesced : (n : ℕ) (bs : List Area) → Coalesced bs → Coalesced (first_fit n bs)
first_fit-Coalesced n [] c = c
first_fit-Coalesced n (b ∷ bs) (c, cs) =
    let rest : ((b.unused && opens (first_fit n bs)) ≡ false) × Coalesced (first_fit n bs) = (
      and_mono b.unused (opens bs) (opens (first_fit n bs)) (opens-first_fit n bs) c,
      first_fit-Coalesced n bs cs,
    ) in
    elim (Bool-cases (fits n b)) [
      | inl f ↦ rw f (carve-Coalesced n b bs f (c, cs))
      | inr f ↦ rw f rest
    ]

and_false : (u : Bool) → (u && false) ≡ false
and_false true = refl
and_false false = refl

and_right : (u o : Bool) → u ≡ true → (u && o) ≡ false → o ≡ false
and_right u o e h = ground arith

and_left : (u o : Bool) → o ≡ true → (u && o) ≡ false → u ≡ false
and_left u o e h = ground arith

by_choice :
    (P : List Area → Type 0) (v : Bool) (a b : List Area)
    → (v ≡ true → P a)
    → (v ≡ false → P b)
    → P (if v then a else b)
by_choice P true a b f g = f refl
by_choice P false a b f g = g refl

forward-Coalesced : (b : Area) (bs : List Area) → Coalesced bs → Coalesced (forward b bs)
forward-Coalesced b [] c = (and_false b.unused, tt)
forward-Coalesced b (c ∷ cs) (d, ds) =
    by_choice Coalesced c.unused (join b c ∷ cs) (b ∷ c ∷ cs)
      (λ u. (ap (λ o. b.unused && o) (and_right c.unused (opens cs) u d) ∙ and_false b.unused, ds))
      (λ u. (ap (λ o. b.unused && o) u ∙ and_false b.unused, (d, ds)))

pub forward_unused : (b : Area) (bs : List Area) → b.unused ≡ true → opens (forward b bs) ≡ true
forward_unused b [] h = h
forward_unused b (c ∷ cs) h = ground arith

backward-Coalesced :
    (p : Area) (bs : List Area) → opens bs ≡ true → Coalesced bs → Coalesced (backward p bs)
backward-Coalesced p [] o c = (and_false p.unused, tt)
backward-Coalesced p (c ∷ cs) o (d, ds) =
    by_choice Coalesced p.unused (join p c ∷ cs) (p ∷ c ∷ cs)
      (λ u. (ap (λ q. p.unused && q) (and_right c.unused (opens cs) o d) ∙ and_false p.unused, ds))
      (λ u. (ap (λ q. q && c.unused) u, (d, ds)))

opens-backward : (p : Area) (bs : List Area) → opens (backward p bs) ≡ p.unused
opens-backward p [] = refl
opens-backward p (c ∷ cs) = ground arith

opens-released :
    (p : Area) (pre : List Area) (b : Area) (post : List Area)
    → opens (released (p ∷ pre) b post) ≡ p.unused
opens-released p [] b post = opens-backward p (forward (record b { unused = true }) post)
opens-released p (q ∷ pre) b post = refl

middle :
    (pre : List Area) (b : Area) (post : List Area)
    → Coalesced (pre ++ b ∷ post)
    → (b.unused && opens post) ≡ false
middle [] b post (c, cs) = c
middle (p ∷ pre) b post (c, cs) = middle pre b post cs

pub released-Coalesced :
    (pre : List Area) (b : Area) (post : List Area)
    → Coalesced (pre ++ b ∷ post)
    → Coalesced (released pre b post)
released-Coalesced [] b post (c, cs) = forward-Coalesced (record b { unused = true }) post cs
released-Coalesced (p ∷ []) b post (c, (d, cs)) =
    backward-Coalesced p (forward (record b { unused = true }) post)
      (forward_unused (record b { unused = true }) post refl)
      (forward-Coalesced (record b { unused = true }) post cs)
released-Coalesced (q ∷ p ∷ pre) b post (c, cs) = (
  ap (λ o. q.unused && o) (opens-released p pre b post) ∙ c,
  released-Coalesced (p ∷ pre) b post cs,
)

-- A release whose block makes up a free block with what follows it gives back the blocks.
reform :
    (pre : List Area) (x b : Area) (post rest : List Area)
    → forward (record x { unused = true }) post ≡ b ∷ rest
    → b.unused ≡ true
    → Coalesced (pre ++ b ∷ rest)
    → released pre x post ≡ pre ++ b ∷ rest
reform [] x b post rest e u c = e
reform (p ∷ []) x b post rest e u (c, cs) =
    ap (λ l. backward p l) e
    ∙ ap (λ v. if v then join p b ∷ rest else p ∷ b ∷ rest) (and_left p.unused b.unused u c)
reform (q ∷ p ∷ pre) x b post rest e u (c, cs) =
    ap (λ l. q ∷ l) (reform (p ∷ pre) x b post rest e u cs)

-- A first block that is not free takes in nothing.
forward_used : (b : Area) (bs : List Area) → opens bs ≡ false → forward b bs ≡ b ∷ bs
forward_used b [] h = refl
forward_used b (c ∷ cs) h = ap (λ v. if v then join b c ∷ cs else b ∷ c ∷ cs) h

Area-path :
    (a n m : ℕ) (u : Bool)
    → n ≡ m
    → Path Area
        (record { at = a; bytes = n; unused = u })
        (record { at = a; bytes = m; unused = u })
Area-path a n m u e = ap {A = ℕ} {B = Area} (λ x. record { at = a; bytes = x; unused = u }) e

-- What `n` bytes are taken from and given back to is the block of before.
pub uncarve :
    (n : ℕ) (pre : List Area) (b : Area) (post : List Area)
    → b.unused ≡ true
    → n ≤ b.bytes
    → Coalesced (pre ++ b ∷ post)
    → (x : Area) × (rest : List Area) × (carve n b post ≡ x ∷ rest)
      × (x.at ≡ b.at)
      × (released pre x rest ≡ pre ++ b ∷ post)
uncarve n pre b post u h c = elim (Bool-cases (ltb (n + header_size + 16) b.bytes)) [
  | inl d ↦
      let room = ltb→lt (n + header_size + 16) b.bytes d in
      let x : Area = record { at = b.at; bytes = n; unused = false } in
      let left : Area = record {
        at = b.at + header_size + n;
        bytes = b.bytes - n - header_size;
        unused = true;
      } in
      (
        x,
        left ∷ post,
        rw d refl,
        refl,
        reform pre x b (left ∷ post) post
            (ap₂ ◌∷◌
              (Area-path b.at (n + header_size + (b.bytes - n - header_size)) b.bytes true
                  (omega arith)
                ∙ ap {A = Bool} {B = Area} (λ v. record b { unused = v }) (sym u))
              refl)
            u c,
      )
  | inr d ↦
      let x : Area = record b { unused = false } in
      (
        x,
        post,
        rw d refl,
        refl,
        reform pre x b post post
            (forward_used (record b { unused = true }) post
                (and_right b.unused (opens post) u (middle pre b post c))
              ∙ ap {A = Bool} (λ v. record b { unused = v } ∷ post) (sym u))
            u c,
      )
]
