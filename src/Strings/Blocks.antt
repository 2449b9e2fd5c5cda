-- ===== src/Strings/Blocks.antt =====
-- kernel/lib/string.c: `memset` and `memcpy`, which write words where they can, against their
-- descriptions byte by byte.
use rucix_kernel.Common.{
  ℕ, zero, suc, ◌+◌, ◌-◌, ◌*◌, ◌/◌, ◌%◌, ◌^◌, ◌≤◌, ◌<◌, ◌≡◌, ◌⊎◌, refl, ap, sym, ◌∙◌, subst,
  fun_ext, Bool, true, ◌&&◌, ltb, leb, ◌==◌, if◌then◌else◌, inl, inr, Bool-cases, arith, ==_iff,
}
use rucix_kernel.Common.Words.{every, every-at}
use rucix_kernel.Common.Chain.{update}
use rucix_kernel.Strings.{
  Mem, spread, store64, copy64, Filling, set_head, set_words, set_bytes, memset, Copying,
  copy_bytes, copy_head, copy_words, memcpy,
}

-- `lo <= x < lo + n`
abbrev pub within : ℕ → ℕ → ℕ → Bool
within lo n x = leb lo x && ltb x (lo + n)

-- The memory with `n` bytes `v` from `p` on.
abbrev pub filled : Mem → ℕ → ℕ → ℕ → Mem
filled mem p v n x = if within p n x then v else mem x

-- The memory with the `n` bytes from `s` on copied to `d`.
abbrev pub copied : Mem → ℕ → ℕ → ℕ → Mem
copied mem d s n x = if within d n x then mem (s + (x - d)) else mem x

spread_table : every (λ v. every (λ k. spread v / 2 ^ (8 * k) % 256 == v) 8) 256 ≡ true
unfolding every spread
spread_table = refl

spread_byte : (v k : ℕ) → v < 256 → k < 8 → spread v / 2 ^ (8 * k) % 256 ≡ v
spread_byte v k hv hk = (==_iff _ v).0 (
    every-at (λ j. spread v / 2 ^ (8 * j) % 256 == v) 8 k hk
      (every-at (λ w. every (λ j. spread w / 2 ^ (8 * j) % 256 == w) 8) 256 v hv spread_table))

pub set_bytes-filled : (v : ℕ) (mem : Mem) (p n x : ℕ) → set_bytes v mem p n x ≡ filled mem p v n x
unfolding set_bytes update
set_bytes-filled v mem p zero x = ground arith
set_bytes-filled v mem p (suc n) x = ground (arith, set_bytes-filled v (update mem p v) (p + 1) n x)

-- What a loop of `memset` has done: a part is filled, and the rest is left.
abbrev Filled : ℕ → Mem → ℕ → ℕ → Filling → Type 0
Filled v mem p n f =
    (k : ℕ) × (f.ptr ≡ p + k) × (k + f.left ≡ n) × ((x : ℕ) → f.mem x ≡ filled mem p v k x)

set_head-Filled : (v : ℕ) (mem : Mem) (p n : ℕ) → Filled v mem p n (set_head v mem p n)
unfolding set_head update
set_head-Filled v mem p zero = (0, omega arith, refl, λ x. ground arith)
set_head-Filled v mem p (suc n) = elim (Bool-cases (p % 8 == 0)) [
  | inl e ↦ rw e (0, omega arith, omega arith, λ x. ground arith)
  | inr e ↦
      let (k, at, left, all) = set_head-Filled v (update mem p v) (p + 1) n in
      rw e (suc k, omega arith, omega arith, λ x. ground (arith, all x))
]

store64-filled :
    (v : ℕ) (mem : Mem) (p x : ℕ) → v < 256 → store64 mem p (spread v) x ≡ filled mem p v 8 x
unfolding store64
store64-filled v mem p x h = ground (arith, spread_byte v (x - p))

set_words-Filled :
    (fuel v : ℕ) (mem : Mem) (p n : ℕ) → v < 256 → Filled v mem p n (set_words fuel v mem p n)
unfolding set_words
set_words-Filled zero v mem p n h = (0, omega arith, omega arith, λ x. ground arith)
set_words-Filled (suc fuel) v mem p n h = elim (Bool-cases (leb 8 n)) [
  | inr e ↦ rw e (0, omega arith, omega arith, λ x. ground arith)
  | inl e ↦
      let (k, at, left, all) =
        set_words-Filled fuel v (store64 mem p (spread v)) (p + 8) (n - 8) h in
      rw e (k + 8, omega arith, ground arith, λ x. ground (arith, all x, store64-filled v mem p x))
]

-- `memset` writes the low byte of the value to each of the `num` bytes from `ptr` on and changes no
-- other byte, wherever `ptr` lies between two words and however many bytes are left at the end.
pub memset-filled :
    (mem : Mem) (ptr value num : ℕ) → memset mem ptr value num ≡ filled mem ptr (value % 256) num
unfolding memset
memset-filled mem ptr value num =
    let v = value % 256 in
    let head = set_head v mem ptr num in
    let (k, at, left, all) = set_head-Filled v mem ptr num in
    let words = set_words num v head.mem head.ptr head.left in
    let (j, at', left', all') = set_words-Filled num v head.mem head.ptr head.left (omega arith) in
    fun_ext λ x. ground (arith, set_bytes-filled v words.mem words.ptr words.left x, all x, all' x)

-- The source stands at or behind the destination, or ends before it.
abbrev pub Apart : ℕ → ℕ → ℕ → Type 0
Apart d s n = (d ≤ s) ⊎ (s + n ≤ d)

abbrev step_apart : (d s k n : ℕ) → Apart d s (k + n) → Apart (d + k) (s + k) n
step_apart d s k n (inl h) = inl (omega arith)
step_apart d s k n (inr h) = inr (omega arith)

-- Copying `k` bytes and then `n` more is copying them all.
copied_more :
    (mem : Mem) (d s k n x : ℕ)
    → Apart d s (k + n)
    → copied (copied mem d s k) (d + k) (s + k) n x ≡ copied mem d s (k + n) x
copied_more mem d s k n x (inl h) = ground arith
copied_more mem d s k n x (inr h) = ground arith

one_copied : (mem : Mem) (d s y : ℕ) → update mem d (mem s) y ≡ copied mem d s 1 y
unfolding update
one_copied mem d s y = ground (arith)

more_apart : (d s n : ℕ) → Apart d s (suc n) → Apart d s (1 + n)
more_apart d s n (inl h) = inl h
more_apart d s n (inr h) = inr (omega arith)

copy_bytes-copied :
    (mem : Mem) (d s n x : ℕ) → Apart d s n → copy_bytes mem d s n x ≡ copied mem d s n x
unfolding copy_bytes
copy_bytes-copied mem d s zero x h = ground arith
copy_bytes-copied mem d s (suc n) x h =
    copy_bytes-copied (update mem d (mem s)) (d + 1) (s + 1) n x
      (step_apart d s 1 n (more_apart d s n h))
    ∙ ap (λ (m : Mem). copied m (d + 1) (s + 1) n x) (fun_ext (λ y. one_copied mem d s y))
    ∙ copied_more mem d s 1 n x (more_apart d s n h)
    ∙ ap (λ k. copied mem d s k x) (omega arith)

-- What a loop of `memcpy` has done: a part is copied, and the rest is left.
abbrev Copied : Mem → ℕ → ℕ → ℕ → Copying → Type 0
Copied mem d s n c =
    (k : ℕ) × (c.dest ≡ d + k) × (c.source ≡ s + k) × (k + c.left ≡ n) × (c.mem ≡ copied mem d s k)

-- A step that copies `j` bytes, and a loop behind it.
less_apart : (d s n m : ℕ) → n ≤ m → Apart d s m → Apart d s n
less_apart d s n m le (inl h) = inl h
less_apart d s n m le (inr h) = inr (omega arith)

step-Copied :
    (mem m : Mem) (d s j n : ℕ) (c : Copying)
    → m ≡ copied mem d s j
    → Apart d s (j + n)
    → Copied m (d + j) (s + j) n c
    → Copied mem d s (j + n) c
step-Copied mem m d s j n c one h (k, at, from, left, all) = (
  j + k,
  omega arith,
  omega arith,
  omega arith,
  all
      ∙ ap (λ (y : Mem). copied y (d + j) (s + j) k) one
      ∙ fun_ext (λ x. copied_more mem d s j k x (less_apart d s (j + k) (j + n) (omega arith) h)),
)

nothing-Copied :
    (mem : Mem) (d s n : ℕ)
    → Copied mem d s n (record { mem = mem; dest = d; source = s; left = n })
nothing-Copied mem d s n = (0, omega arith, omega arith, omega arith, fun_ext (λ x. ground arith))

copy_head-Copied : (mem : Mem) (d s n : ℕ) → Apart d s n → Copied mem d s n (copy_head mem d s n)
unfolding copy_head
copy_head-Copied mem d s zero h = nothing-Copied mem d s 0
copy_head-Copied mem d s (suc n) h = elim (Bool-cases (d % 8 == 0)) [
  | inl e ↦ rw e (nothing-Copied mem d s (suc n))
  | inr e ↦ rw e (
      subst (λ k. Copied mem d s k (copy_head (update mem d (mem s)) (d + 1) (s + 1) n))
        (omega arith)
        (step-Copied mem (update mem d (mem s)) d s 1 n
          (copy_head (update mem d (mem s)) (d + 1) (s + 1) n) (fun_ext (λ y. one_copied mem d s y))
          (more_apart d s n h)
          (copy_head-Copied (update mem d (mem s)) (d + 1) (s + 1) n
            (step_apart d s 1 n (more_apart d s n h)))))
]

copy_words-Copied :
    (fuel : ℕ) (mem : Mem) (d s n : ℕ) → Apart d s n → Copied mem d s n (copy_words fuel mem d s n)
unfolding copy_words copy64
copy_words-Copied zero mem d s n h = nothing-Copied mem d s n
copy_words-Copied (suc fuel) mem d s n h = elim (Bool-cases (leb 8 n)) [
  | inr e ↦ rw e (nothing-Copied mem d s n)
  | inl e ↦
      let split : 8 + (n - 8) ≡ n = ground arith in
      let h' = subst (λ k. Apart d s k) (sym split) h in
      let rest = copy_words fuel (copy64 mem d s) (d + 8) (s + 8) (n - 8) in
      rw e (
        subst (λ k. Copied mem d s k rest) split
          (step-Copied mem (copy64 mem d s) d s 8 (n - 8) rest refl h' (
            copy_words-Copied fuel (copy64 mem d s) (d + 8) (s + 8) (n - 8)
              (step_apart d s 8 (n - 8) h'))))
]

-- A loop behind another.
chain-Copied :
    (mem : Mem) (d s n : ℕ) (c e : Copying)
    → Apart d s n
    → Copied mem d s n c
    → Copied c.mem c.dest c.source c.left e
    → Copied mem d s n e
chain-Copied mem d s n c e h (k, at, from, left, all) two =
    subst (λ j. Copied mem d s j e) left
      (step-Copied mem c.mem d s k c.left e all (subst (λ j. Apart d s j) (sym left) h) (
        subst (λ j. Copied c.mem (d + k) j c.left e) from
          (subst (λ j. Copied c.mem j c.source c.left e) at two)))

left-Apart :
    (mem : Mem) (d s n : ℕ) (c : Copying)
    → Apart d s n
    → Copied mem d s n c
    → Apart c.dest c.source c.left
left-Apart mem d s n c h (k, at, from, left, all) =
    subst (λ j. Apart j c.source c.left) (sym at)
      (subst (λ j. Apart (d + k) j c.left) (sym from)
        (step_apart d s k c.left (subst (λ j. Apart d s j) (sym left) h)))

finish-copied :
    (mem : Mem) (d s n : ℕ) (c : Copying)
    → Apart d s n
    → Copied mem d s n c
    → copy_bytes c.mem c.dest c.source c.left ≡ copied mem d s n
finish-copied mem d s n c h (k, at, from, left, all) =
    let h' = subst (λ j. Apart d s j) (sym left) h in
    fun_ext λ x.
      copy_bytes-copied c.mem c.dest c.source c.left x
        (left-Apart mem d s n c h (k, at, from, left, all))
      ∙ ap (λ j. copied c.mem j c.source c.left x) at
      ∙ ap (λ j. copied c.mem (d + k) j c.left x) from
      ∙ ap (λ (m : Mem). copied m (d + k) (s + k) c.left x) all
      ∙ copied_more mem d s k c.left x h'
      ∙ ap (λ j. copied mem d s j x) left

-- `memcpy` copies the `num` bytes from `src` on to `dest` and changes no other byte, whatever the
-- alignment, when the source does not begin before the destination and reach into it.
pub memcpy-copied :
    (mem : Mem) (dest src num : ℕ)
    → Apart dest src num
    → memcpy mem dest src num ≡ copied mem dest src num
unfolding memcpy
memcpy-copied mem dest src num h = elim (Bool-cases (ltb num 8)) [
  | inl e ↦ rw e (fun_ext (λ x. copy_bytes-copied mem dest src num x h))
  | inr e ↦
      let head = copy_head mem dest src num in
      let one = copy_head-Copied mem dest src num h in
      let words = copy_words num head.mem head.dest head.source head.left in
      let two =
        copy_words-Copied num head.mem head.dest head.source head.left
          (left-Apart mem dest src num head h one) in
      rw e (
        finish-copied mem dest src num words h (chain-Copied mem dest src num head words h one two))
]
