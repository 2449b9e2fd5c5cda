-- ===== src/Strings/Copies.antt =====
-- kernel/lib/string.c: the copies of strings.
use rucix_kernel.Common.{
  ℕ, zero, suc, ◌+◌, ◌-◌, ◌≤◌, ◌<◌, ◌≡◌, ◌⊎◌, ap, ◌∙◌, some, List, [], ◌∷◌, length, ltb,
  if◌then◌else◌, inl, inr, arith,
}
use rucix_kernel.Common.Chain.{update}
use rucix_kernel.Strings.{Mem, strcpy, strncpy}
use rucix_kernel.Strings.Blocks.{within, copied, set_bytes-filled}
use rucix_kernel.Strings.Texts.{Text}

-- The string of `n` bytes at `s` and the bytes that are written from `d` on do not overlap.
abbrev pub Disjoint : ℕ → ℕ → ℕ → Type 0
Disjoint d s n = (d + n < s) ⊎ (s + n < d)

shift-Disjoint : (d s n : ℕ) → Disjoint d s (suc n) → Disjoint (d + 1) (s + 1) n
shift-Disjoint d s n (inl h) = inl (omega arith)
shift-Disjoint d s n (inr h) = inr (omega arith)

-- A step that takes the bytes of the front one by one.
beside : (p i n : ℕ) → (i < p) ⊎ (p + suc n < i) → (i < p + 1) ⊎ (p + 1 + n < i)
beside p i n (inl h) = inl (omega arith)
beside p i n (inr h) = inr (omega arith)

clear : (d s n : ℕ) → Disjoint d s (suc n) → (d < s + 1) ⊎ (s + 1 + n < d)
clear d s n (inl h) = inl (omega arith)
clear d s n (inr h) = inr (omega arith)

last_copied : (mem : Mem) (d s x : ℕ) → update mem d (mem s) x ≡ copied mem d s 1 x
unfolding update
last_copied mem d s x = ground arith

first_copied :
    (mem : Mem) (d s n x : ℕ)
    → Disjoint d s n
    → copied (update mem d (mem s)) (d + 1) (s + 1) n x ≡ copied mem d s (suc n) x
unfolding update
first_copied mem d s n x (inl h) = ground arith
first_copied mem d s n x (inr h) = ground arith

Text-update :
    (mem : Mem) (p i v : ℕ) (l : List ℕ)
    → (i < p) ⊎ (p + length l < i)
    → Text mem p l
    → Text (update mem i v) p l
unfolding update
Text-update mem p i v [] o t = ground arith
Text-update mem p i v (c ∷ l) o (e, s, t) =
    (ground arith, s, Text-update mem (p + 1) i v l (beside p i (length l) o) t)

strcpy-copied :
    (fuel : ℕ) (mem : Mem) (d s : ℕ) (l : List ℕ)
    → Text mem s l
    → Disjoint d s (length l)
    → length l < fuel
    → (m : Mem) × (strcpy fuel mem d s ≡ some m)
      × ((x : ℕ) → m x ≡ copied mem d s (suc (length l)) x)
unfolding strcpy
strcpy-copied zero mem d s l t o h = absurd (omega arith)
strcpy-copied (suc fuel) mem d s [] t o h =
    (update mem d (mem s), ground arith, λ x. last_copied mem d s x)
strcpy-copied (suc fuel) mem d s (c ∷ l) (e, pos, t) o h =
    let next = Text-update mem (s + 1) d (mem s) l (clear d s (length l) o) t in
    let (m, run, all) =
      strcpy-copied fuel (update mem d (mem s)) (d + 1) (s + 1) l next
        (shift-Disjoint d s (length l) o) (omega arith) in
    (m, ground arith, λ x. all x ∙ first_copied mem d s (suc (length l)) x o)

-- What `strncpy` leaves: the string padded with zeros, or its first `n` bytes alone.
abbrev pub padded : Mem → ℕ → ℕ → ℕ → ℕ → Mem
padded mem d s k n x =
    if within d n x then if ltb x (d + k) then mem (s + (x - d)) else 0 else mem x

first_padded :
    (mem : Mem) (d s k n x : ℕ)
    → Disjoint d s (suc k)
    → padded (update mem d (mem s)) (d + 1) (s + 1) k n x ≡ padded mem d s (suc k) (suc n) x
unfolding update
first_padded mem d s k n x (inl h) = ground arith
first_padded mem d s k n x (inr h) = ground arith

strncpy-padded :
    (mem : Mem) (d s n : ℕ) (l : List ℕ)
    → Text mem s l
    → Disjoint d s (length l)
    → (x : ℕ) → strncpy mem d s n x ≡ padded mem d s (length l) n x
unfolding strncpy
strncpy-padded mem d s zero l t o x = ground arith
strncpy-padded mem d s (suc n) [] t o x = ground (arith, set_bytes-filled 0 mem d (suc n) x)
strncpy-padded mem d s (suc n) (c ∷ l) (e, pos, t) o x =
    let next = Text-update mem (s + 1) d (mem s) l (clear d s (length l) o) t in
    let rest =
      strncpy-padded (update mem d (mem s)) (d + 1) (s + 1) n l next
        (shift-Disjoint d s (length l) o) x in
    let first = first_padded mem d s (length l) n x o in ground arith

Text-end : (mem : Mem) (p : ℕ) (l : List ℕ) → Text mem p l → mem (p + length l) ≡ 0
Text-end mem p [] t = ap mem (omega arith) ∙ t
Text-end mem p (c ∷ l) (e, pos, t) = ap mem (omega arith) ∙ Text-end mem (p + 1) l t

-- A copied string stands at the destination.
moved-Text :
    (mem m : Mem) (d s : ℕ) (l : List ℕ)
    → Text mem s l
    → ((i : ℕ) → i ≤ length l → m (d + i) ≡ mem (s + i))
    → Text m d l
moved-Text mem m d s [] t same = let e = same 0 in ground arith
moved-Text mem m d s (c ∷ l) (e, pos, t) same =
    let e' : m d ≡ mem s = ground (arith, same 0) in
    (
      e' ∙ e,
      pos,
      moved-Text mem m (d + 1) (s + 1) l t
          (λ i h. ap m (omega arith) ∙ same (suc i) (omega arith) ∙ ap mem (omega arith)),
    )

-- `strcpy` ends, with more fuel than the string is long, and copies the string and the zero behind it
-- to the destination and changes no other byte; `strncpy` writes the first `n` bytes of the string,
-- then zeros up to `n` bytes, and changes no other byte. The source, which is a string of nonzero
-- bytes with a zero behind it, and its copy do not overlap. The destination holds the string after
-- `strcpy`, and after `strncpy` when the string is shorter than `n`.
pub strcpy-padded :
    (fuel : ℕ) (mem : Mem) (d s n : ℕ) (l : List ℕ)
    → Text mem s l
    → Disjoint d s (length l)
    → length l < fuel
    → ((m : Mem) × (strcpy fuel mem d s ≡ some m)
        × ((x : ℕ) → m x ≡ copied mem d s (suc (length l)) x)
        × Text m d l)
      × ((x : ℕ) → strncpy mem d s n x ≡ padded mem d s (length l) n x)
      × (length l < n → Text (strncpy mem d s n) d l)
strcpy-padded fuel mem d s n l t o h =
    let (m, run, all) = strcpy-copied fuel mem d s l t o h in
    let pad = strncpy-padded mem d s n l t o in
    (
      (m, run, all, moved-Text mem m d s l t (λ i le. ground (arith, all (d + i)))),
      pad,
      λ lt.
          moved-Text mem (strncpy mem d s n) d s l t
            (λ i le. ground (arith, pad (d + i), Text-end mem s l t)),
    )
