-- ===== src/Ipc/Pipe/Valid.antt =====
-- kernel/ipc/pipe.c: the bytes that a pipe holds, and the passes against that queue.
use rucix_kernel.Common.{
  ℕ, zero, suc, ◌+◌, ◌-◌, ◌%◌, ◌≤◌, ◌<◌, ◌≡◌, refl, ap, ap₂, ◌∙◌, List, [], ◌∷◌, ◌++◌, arith, ◌==◌,
  if◌then◌else◌, tabulate, tabulate-congr, tabulate-snoc, length-tabulate, length, inl, inr,
  Bool-cases, ◌⊎◌,
}
use native.Mathlib.Numerals.{add-one}
use rucix_kernel.Common.Chain.{update}
use rucix_kernel.Ipc.Pipe.{
  Pipe, pipe_size, is_zero_ℤ, Pass, moved, ended, must_wait, read_pass, write_pass, wake_up,
}

-- The positions lie in the buffer, and the write position is behind the bytes that are there.
pub record IsValid (p : Pipe) : Type 0 where
  pub read_in : p.read_pos < pipe_size
  pub fits : p.bytes_available ≤ pipe_size
  pub write_at : p.write_pos ≡ (p.read_pos + p.bytes_available) % pipe_size

-- The `n` bytes from `r` on, round the end of the buffer.
unfoldable pub window : (ℕ → ℕ) → ℕ → ℕ → List ℕ
window f r n = tabulate n (λ i. f ((r + i) % pipe_size))

window-take :
    (f : ℕ → ℕ) (r n : ℕ)
    → r < pipe_size
    → window f r (suc n) ≡ f r ∷ window f ((r + 1) % pipe_size) n
unfolding window
window-take f r n lt =
    ap₂ ◌∷◌ (ap f (omega arith)) (tabulate-congr n _ _ (λ i _. ap f (omega arith)))

window-put :
    (f : ℕ → ℕ) (r n w b : ℕ)
    → n < pipe_size
    → w ≡ (r + n) % pipe_size
    → window (update f w b) r (suc n) ≡ window f r n ++ b ∷ []
unfolding window update
window-put f r n w b lt e =
    tabulate-snoc n (λ i. update f w b ((r + i) % pipe_size))
    ∙ ap₂ (λ l x. l ++ x ∷ [])
        (tabulate-congr n (λ i. update f w b ((r + i) % pipe_size)) (λ i. f ((r + i) % pipe_size))
          (λ i lt'. ground arith))
        (ground arith)

-- The bytes in the pipe, the next to be read first.
unfoldable pub contents : Pipe → List ℕ
contents p = window p.buffer p.read_pos p.bytes_available

pub contents-read_wait :
    (p : Pipe) (w : List ℕ) → contents (record p { read_wait = w }) ≡ contents p
unfolding contents
contents-read_wait p w = refl

pub length-contents : (p : Pipe) → length (contents p) ≡ p.bytes_available
unfolding contents window
length-contents p = length-tabulate p.bytes_available _

-- What a pass may leave alone.
abbrev pub SameEnds : Pipe → Pipe → Type 0
SameEnds p q = (q.readers ≡ p.readers) × (q.writers ≡ p.writers)

-- A read pass takes the first byte; on the empty pipe it ends if there is no writer, and waits
-- otherwise.
abbrev pub ReadPass : Pipe → List ℕ → Pass → Type 0
ReadPass p [] r = r ≡ (if is_zero_ℤ p.writers then ended else must_wait)
ReadPass p (b ∷ bs) r = (q : Pipe) × (r ≡ moved b q) × IsValid q × (contents q ≡ bs) × SameEnds p q

-- What a write pass promises.
abbrev pub WritePass : Pipe → ℕ → Pass → Type 0
WritePass p b r =
    ((length (contents p) ≡ pipe_size) × (r ≡ (if is_zero_ℤ p.readers then ended else must_wait)))
    ⊎ ((length (contents p) < pipe_size)
        × ((q : Pipe) × (r ≡ moved b q)
            × IsValid q
            × (contents q ≡ contents p ++ b ∷ [])
            × SameEnds p q))

contents-zero : (p : Pipe) → p.bytes_available ≡ 0 → contents p ≡ []
unfolding contents window
contents-zero p e = rw e

module _ (p : Pipe) (v : IsValid p) where
  abbrev taken : Pipe
  taken = record p {
    read_pos = (p.read_pos + 1) % pipe_size;
    bytes_available = p.bytes_available - 1;
    write_wait = wake_up p.write_wait;
  }

  contents-taken :
      (n : ℕ) → p.bytes_available ≡ suc n → contents p ≡ p.buffer p.read_pos ∷ contents taken
  unfolding contents
  contents-taken n e =
      ap (window p.buffer p.read_pos) e
      ∙ window-take p.buffer p.read_pos n v.read_in
      ∙ ap (λ k. p.buffer p.read_pos ∷ window p.buffer ((p.read_pos + 1) % pipe_size) k)
          (omega arith)

  read_pass-taken :
      (n : ℕ) → p.bytes_available ≡ suc n → read_pass p ≡ moved (p.buffer p.read_pos) taken
  unfolding read_pass
  read_pass-taken n e = ground arith

  read_pass-empty :
      p.bytes_available ≡ 0 → read_pass p ≡ (if is_zero_ℤ p.writers then ended else must_wait)
  unfolding read_pass
  read_pass-empty e = ground arith

  -- `pipe_read`'s pass takes the first byte of the pipe.
  pub read_pass-ReadPass : ReadPass p (contents p) (read_pass p)
  read_pass-ReadPass = go p.bytes_available refl
    where
      go : (n : ℕ) → p.bytes_available ≡ n → ReadPass p (contents p) (read_pass p)
      go zero e = rw (contents-zero p e) (read_pass-empty e)
      go (suc n) e =
          rw (contents-taken n e) (taken, read_pass-taken n e, omega arith, refl, (refl, refl))

  abbrev pub put : ℕ → Pipe
  put b = record p {
    buffer = update p.buffer p.write_pos b;
    write_pos = (p.write_pos + 1) % pipe_size;
    bytes_available = p.bytes_available + 1;
    read_wait = wake_up p.read_wait;
  }

  pub contents-put :
      (b : ℕ) → p.bytes_available < pipe_size → contents (put b) ≡ contents p ++ b ∷ []
  unfolding contents
  contents-put b lt =
      ap (window (update p.buffer p.write_pos b) p.read_pos) (add-one p.bytes_available)
      ∙ window-put p.buffer p.read_pos p.bytes_available p.write_pos b lt v.write_at

  pub write_pass-put : (b : ℕ) → p.bytes_available < pipe_size → write_pass b p ≡ moved b (put b)
  unfolding write_pass
  write_pass-put b lt = ground arith

  -- `pipe_write`'s pass appends its byte to the bytes of the pipe; on the full pipe it ends if there
  -- is no reader, and waits otherwise.
  pub write_pass-WritePass : (b : ℕ) → WritePass p b (write_pass b p)
  unfolding write_pass
  write_pass-WritePass b = elim (Bool-cases (p.bytes_available == pipe_size)) [
    | inl full ↦ inl (ground (arith, length-contents p), ground arith)
    | inr room ↦ inr (
      ground (arith, length-contents p),
      (put b, ground arith, ground arith, contents-put b (ground arith), (refl, refl)),
    )
  ]
