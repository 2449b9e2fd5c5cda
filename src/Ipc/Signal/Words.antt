-- ===== src/Ipc/Signal/Words.antt =====
-- kernel/ipc/signal.c: words of 8 bytes in memory.
use rucix_kernel.Common.{
  ℕ, ◌+◌, ◌-◌, ◌*◌, ◌/◌, ◌%◌, ◌^◌, ◌≤◌, ◌<◌, ◌≡◌, ◌⊎◌, refl, ◌∙◌, ap, true, false, inl, inr, arith,
}
use rucix_kernel.Strings.{Mem, store64}
use rucix_kernel.Strings.Blocks.{within}
use rucix_kernel.Ipc.Signal.{load64}

pub store64-outside : (mem : Mem) (p v x : ℕ) → within p 8 x ≡ false → store64 mem p v x ≡ mem x
unfolding store64
store64-outside mem p v x h = rw h refl

store64-byte : (mem : Mem) (p v i : ℕ) → i < 8 → store64 mem p v (p + i) ≡ v / 2 ^ (8 * i) % 256
unfolding store64
store64-byte mem p v i h =
    let inside : within p 8 (p + i) ≡ true = ground arith in
    let d : p + i - p ≡ i = omega arith in rw (inside, d) refl

-- A number is the sum of its bytes.
digits-sum :
    (v q1 q2 q3 q4 q5 q6 q7 : ℕ)
    → v / 256 ≡ q1
    → q1 / 256 ≡ q2
    → q2 / 256 ≡ q3
    → q3 / 256 ≡ q4
    → q4 / 256 ≡ q5
    → q5 / 256 ≡ q6
    → q6 / 256 ≡ q7
    → q7 < 256
    → v % 256
        + 2 ^ 8 * (q1 % 256)
        + 2 ^ 16 * (q2 % 256)
        + 2 ^ 24 * (q3 % 256)
        + 2 ^ 32 * (q4 % 256)
        + 2 ^ 40 * (q5 % 256)
        + 2 ^ 48 * (q6 % 256)
        + 2 ^ 56 * (q7 % 256)
      ≡ v
digits-sum v q1 q2 q3 q4 q5 q6 q7 e1 e2 e3 e4 e5 e6 e7 lt = omega arith

bytes-sum :
    (v : ℕ)
    → v < 2 ^ 64
    → v % 256
        + 2 ^ 8 * (v / 2 ^ 8 % 256)
        + 2 ^ 16 * (v / 2 ^ 16 % 256)
        + 2 ^ 24 * (v / 2 ^ 24 % 256)
        + 2 ^ 32 * (v / 2 ^ 32 % 256)
        + 2 ^ 40 * (v / 2 ^ 40 % 256)
        + 2 ^ 48 * (v / 2 ^ 48 % 256)
        + 2 ^ 56 * (v / 2 ^ 56 % 256)
      ≡ v
bytes-sum v lt =
    digits-sum v (v / 2 ^ 8) (v / 2 ^ 16) (v / 2 ^ 24) (v / 2 ^ 32) (v / 2 ^ 40) (v / 2 ^ 48)
      (v / 2 ^ 56) refl (omega arith) (omega arith) (omega arith) (omega arith) (omega arith)
      (omega arith) (omega arith)

pub load64-store64 : (mem : Mem) (p v : ℕ) → v < 2 ^ 64 → load64 (store64 mem p v) p ≡ v
unfolding load64
load64-store64 mem p v lt =
    let b0 : store64 mem p v p ≡ v % 256 =
      ap (store64 mem p v) (omega arith) ∙ store64-byte mem p v 0 (omega arith) ∙ (omega arith) in
    let b1 = store64-byte mem p v 1 (omega arith) in
    let b2 = store64-byte mem p v 2 (omega arith) in
    let b3 = store64-byte mem p v 3 (omega arith) in
    let b4 = store64-byte mem p v 4 (omega arith) in
    let b5 = store64-byte mem p v 5 (omega arith) in
    let b6 = store64-byte mem p v 6 (omega arith) in
    let b7 = store64-byte mem p v 7 (omega arith) in
    rw (b0, b1, b2, b3, b4, b5, b6, b7) (bytes-sum v lt)

-- Two ranges of memory that do not overlap.
abbrev pub Beside : ℕ → ℕ → ℕ → ℕ → Type 0
Beside p n q m = (p + n ≤ q) ⊎ (q + m ≤ p)

store64-Beside :
    (mem : Mem) (p v q i : ℕ) → i < 8 → Beside q 8 p 8 → store64 mem p v (q + i) ≡ mem (q + i)
store64-Beside mem p v q i h (inl b) = store64-outside mem p v (q + i) (ground arith)
store64-Beside mem p v q i h (inr b) = store64-outside mem p v (q + i) (ground arith)

pub load64-Beside :
    (mem : Mem) (p v q : ℕ) → Beside q 8 p 8 → load64 (store64 mem p v) q ≡ load64 mem q
unfolding load64
load64-Beside mem p v q b =
    let b0 : store64 mem p v q ≡ mem q =
      ap (store64 mem p v) (omega arith)
      ∙ store64-Beside mem p v q 0 (omega arith) b
      ∙ ap mem (omega arith) in
    let b1 = store64-Beside mem p v q 1 (omega arith) b in
    let b2 = store64-Beside mem p v q 2 (omega arith) b in
    let b3 = store64-Beside mem p v q 3 (omega arith) b in
    let b4 = store64-Beside mem p v q 4 (omega arith) b in
    let b5 = store64-Beside mem p v q 5 (omega arith) b in
    let b6 = store64-Beside mem p v q 6 (omega arith) b in
    let b7 = store64-Beside mem p v q 7 (omega arith) b in rw (b0, b1, b2, b3, b4, b5, b6, b7) refl
