-- ===== src/Ipc/Pipe/Calls.antt =====
-- kernel/ipc/pipe.c: how far `pipe_read` and `pipe_write` come on a pipe that nobody else uses.
use rucix_kernel.Common.{
  ℕ, zero, suc, ◌+◌, ◌-◌, ◌≡◌, refl, ap, sym, subst, ◌∙◌, ◌||◌, none, some, List, [], ◌∷◌, ◌++◌,
  arith, leb, if◌then◌else◌, take, drop, length, inl, inr, length-append, take-nil,
}
use mathlib.Core.List.{append-nil, append_assoc}
use rucix_kernel.Ipc.Pipe.{
  Pipe, pipe_size, is_zero_ℤ, moved, read_pass, write_pass, Outcome, returned, sleeps, read_loop,
  write_loop, pipe_read, pipe_write, rdonly, wronly,
}
use rucix_kernel.Ipc.Pipe.Valid.{
  IsValid, contents, ReadPass, read_pass-ReadPass, write_pass-WritePass, length-contents,
}

-- What `pipe_read` of `left` bytes promises on a pipe that holds `xs`: it takes the first `left`
-- bytes, or all there are; it returns if there were enough or no writer is left, and sleeps
-- otherwise.
pub ReadCall : Pipe → List ℕ → ℕ → List ℕ → Outcome → Type 0
ReadCall p xs left got out =
    (q : Pipe) × IsValid q
    × (contents q ≡ drop left xs)
    × (out ≡ (
        if leb left (length xs) || is_zero_ℤ p.writers
        then returned (some (got ++ take left xs)) q
        else sleeps (got ++ take left xs) q))

leb-suc : (a b : ℕ) → leb (suc a) (suc b) ≡ leb a b
leb-suc a b = ground arith

read_cons :
    (left : ℕ) (got : List ℕ) (b : ℕ) (xs : List ℕ) (p q : Pipe)
    → read_pass p ≡ moved b q
    → q.writers ≡ p.writers
    → ReadCall q xs left (got ++ b ∷ []) (read_loop left (got ++ b ∷ []) q)
    → ReadCall p (b ∷ xs) (suc left) got (read_loop (suc left) got p)
unfolding ReadCall read_loop
read_cons left got b xs p q step same (r, valid, rest, out) = (
  r,
  valid,
  rest,
  rw (step, read_loop, leb-suc left (length xs), ← same)
      (out ∙ rw (append_assoc got (b ∷ []) (take left xs))),
)

read_loop-ReadCall :
    (left : ℕ) (got : List ℕ) (p : Pipe) (xs : List ℕ)
    → IsValid p
    → contents p ≡ xs
    → ReadCall p xs left got (read_loop left got p)
unfolding ReadCall read_loop
read_loop-ReadCall zero got p xs v e = (p, v, e, ground (arith, append-nil got))
read_loop-ReadCall (suc left) got p [] v e =
    let pass = subst (λ l. ReadPass p l (read_pass p)) e (read_pass-ReadPass p v) in
    (p, v, e, ground (arith, pass, append-nil got))
read_loop-ReadCall (suc left) got p (b ∷ xs) v e =
    let (q, step, w, rest, ends) =
      subst (λ l. ReadPass p l (read_pass p)) e (read_pass-ReadPass p v) in
    read_cons left got b xs p q step ends.1 (read_loop-ReadCall left (got ++ b ∷ []) q xs w rest)

-- What `pipe_write` of `bytes` promises: it appends as many as there is room for; it returns if all
-- found room, reports an error if the pipe is full and has no reader, and sleeps otherwise.
pub WriteCall : Pipe → ℕ → List ℕ → List ℕ → Outcome → Type 0
WriteCall p room bytes done out =
    (q : Pipe) × IsValid q
    × (contents q ≡ contents p ++ take room bytes)
    × (out ≡ (
        if leb (length bytes) room
        then returned (some (done ++ bytes)) q
        else if is_zero_ℤ p.readers
        then returned none q
        else sleeps (done ++ take room bytes) q))

write_cons :
    (room b : ℕ) (bytes done : List ℕ) (p q : Pipe)
    → write_pass b p ≡ moved b q
    → q.readers ≡ p.readers
    → contents q ≡ contents p ++ b ∷ []
    → WriteCall q room bytes (done ++ b ∷ []) (write_loop bytes (done ++ b ∷ []) q)
    → WriteCall p (suc room) (b ∷ bytes) done (write_loop (b ∷ bytes) done p)
unfolding WriteCall write_loop
write_cons room b bytes done p q step same more (r, valid, rest, out) = (
  r,
  valid,
  rest ∙ rw more (append_assoc (contents p) (b ∷ []) (take room bytes)),
  rw (step, write_loop, leb-suc (length bytes) room, ← same)
      (out ∙ rw (append_assoc done (b ∷ []) bytes, append_assoc done (b ∷ []) (take room bytes))),
)

write_loop-WriteCall :
    (bytes done : List ℕ) (p : Pipe) (room : ℕ)
    → IsValid p
    → length (contents p) + room ≡ pipe_size
    → WriteCall p room bytes done (write_loop bytes done p)
unfolding WriteCall write_loop
write_loop-WriteCall [] done p room v e = (
  p,
  v,
  ground (arith, take-nil ℕ room, append-nil (contents p)),
  ground (arith, append-nil done),
)
write_loop-WriteCall (b ∷ bytes) done p zero v e = elim (write_pass-WritePass p v b) [
  | inl (full, stuck) ↦
      (p, v, sym (append-nil (contents p)), ground (arith, stuck, append-nil done))
  | inr (free, _) ↦ absurd (omega arith)
]
write_loop-WriteCall (b ∷ bytes) done p (suc room) v e = elim (write_pass-WritePass p v b) [
  | inl (full, stuck) ↦ absurd (omega arith)
  | inr (free, (q, step, w, more, ends)) ↦ write_cons room b bytes done p q step ends.0 more (
      write_loop-WriteCall bytes (done ++ b ∷ []) q room w
        (omega (arith, ap length more, length-append (contents p) (b ∷ []))))
]

-- `pipe_read` of `size` bytes on a valid pipe that nobody else uses takes the first `size` bytes in
-- order, or all that there are, and leaves the rest; it returns if there were enough or no writer
-- is left, and sleeps otherwise. On the write end it reports an error and takes nothing.
pub pipe_read-ReadCall :
    (size : ℕ) (p : Pipe)
    → IsValid p
    → ReadCall p (contents p) size [] (pipe_read rdonly size p)
      × (pipe_read wronly size p ≡ returned none p)
unfolding pipe_read
pipe_read-ReadCall size p v = (read_loop-ReadCall size [] p (contents p) v refl, refl)

-- `pipe_write` on a valid pipe that nobody else uses appends its bytes in order, as many as find
-- room; it returns if all did, reports an error if the pipe got full and has no reader, and sleeps
-- otherwise. On the read end it reports an error and writes nothing.
pub pipe_write-WriteCall :
    (bytes : List ℕ) (p : Pipe)
    → IsValid p
    → WriteCall p (pipe_size - length (contents p)) bytes [] (pipe_write wronly bytes p)
      × (pipe_write rdonly bytes p ≡ returned none p)
unfolding pipe_write
pipe_write-WriteCall bytes p v = (
  write_loop-WriteCall bytes [] p (pipe_size - length (contents p)) v
      (omega (arith, length-contents p, v.fits)),
  refl,
)
