-- ===== src/Ipc/Pipe/Fifo.antt =====
-- kernel/ipc/pipe.c: passes of any number of readers and writers, in any order.
use rucix_kernel.Common.{
  ℕ, ◌≡◌, refl, ap, sym, ◌∙◌, subst, List, [], ◌∷◌, ◌++◌, arith, inl, inr, if◌then◌else◌,
}
use mathlib.Core.List.{append-nil, append_assoc}
use rucix_kernel.Ipc.Pipe.{Pipe, is_zero_ℤ, moved, ended, must_wait, read_pass, write_pass}
use rucix_kernel.Ipc.Pipe.Valid.{
  IsValid, contents, ReadPass, read_pass-ReadPass, write_pass-WritePass,
}

-- A pass of some reader, or of some writer with its next byte. The lock makes passes atomic.
pub data Turn : Type 0 where
  reads : Turn
  writes : ℕ → Turn

-- The bytes that readers took and the bytes that writers put, each in order, and the pipe.
pub record Log : Type 0 where
  pub took : List ℕ
  pub gave : List ℕ
  pub pipe : Pipe

unfoldable pub turn : Turn → Log → Log
turn reads l = elim (read_pass l.pipe) [
  | moved b q ↦ record l { took = l.took ++ b ∷ []; pipe = q }
  | ended ↦ l
  | must_wait ↦ l
]
turn (writes b) l = elim (write_pass b l.pipe) [
  | moved _ q ↦ record l { gave = l.gave ++ b ∷ []; pipe = q }
  | ended ↦ l
  | must_wait ↦ l
]

unfoldable pub schedule : List Turn → Log → Log
unfolding turn
schedule [] l = l
schedule (t ∷ ts) l = schedule ts (turn t l)

-- All that writers put into the pipe that held `start` has been taken in order, or is still there.
pub record IsFifo (start : List ℕ) (l : Log) : Type 0 where
  pub valid : IsValid l.pipe
  pub order : start ++ l.gave ≡ l.took ++ contents l.pipe

idle_read :
    (l : Log)
    → read_pass l.pipe ≡ (if is_zero_ℤ l.pipe.writers then ended else must_wait)
    → turn reads l ≡ l
unfolding turn
idle_read l stuck = ground (arith, stuck)

idle_write :
    (b : ℕ) (l : Log)
    → write_pass b l.pipe ≡ (if is_zero_ℤ l.pipe.readers then ended else must_wait)
    → turn (writes b) l ≡ l
unfolding turn
idle_write b l stuck = ground (arith, stuck)

turn-IsFifo : (start : List ℕ) (t : Turn) (l : Log) → IsFifo start l → IsFifo start (turn t l)
unfolding turn
turn-IsFifo start reads l f = go (contents l.pipe) refl (read_pass-ReadPass l.pipe f.valid)
  where
    go :
        (xs : List ℕ)
        → contents l.pipe ≡ xs
        → ReadPass l.pipe (contents l.pipe) (read_pass l.pipe)
        → IsFifo start (turn reads l)
    go [] e pass =
        subst (IsFifo start)
          (sym (idle_read l (subst (λ k. ReadPass l.pipe k (read_pass l.pipe)) e pass))) f
    go (b ∷ xs) e pass =
        let (q, step, w, rest, _) = subst (λ k. ReadPass l.pipe k (read_pass l.pipe)) e pass in
        rw (step, turn)
          (record {
            valid = w;
            order = f.order ∙ rw (e, rest) (sym (append_assoc l.took (b ∷ []) xs));
          })
turn-IsFifo start (writes b) l f = elim (write_pass-WritePass l.pipe f.valid b) [
  | inl (full, stuck) ↦ subst (IsFifo start) (sym (idle_write b l stuck)) f
  | inr (free, (q, step, w, more, ends)) ↦
      rw (step, turn)
        (record {
          valid = w;
          order =
              sym (append_assoc start l.gave (b ∷ []))
              ∙ ap (λ k. k ++ b ∷ []) f.order
              ∙ append_assoc l.took (contents l.pipe) (b ∷ [])
              ∙ ap (λ k. l.took ++ k) (sym more);
        })
]

-- Whatever the order in which the passes of readers and writers come, no byte is lost, doubled or
-- overtaken: what was in the pipe at the start and what was written is what was read and what the
-- pipe still holds, in this order; and the pipe stays valid.
pub schedule-IsFifo :
    (ts : List Turn) (p : Pipe)
    → IsValid p
    → IsFifo (contents p) (schedule ts (record { took = []; gave = []; pipe = p }))
unfolding schedule
schedule-IsFifo ts p v =
    go ts (record { took = []; gave = []; pipe = p })
      (record { valid = v; order = append-nil (contents p) })
  where
    go : (us : List Turn) (l : Log) → IsFifo (contents p) l → IsFifo (contents p) (schedule us l)
    go [] l f = f
    go (u ∷ us) l f = go us (turn u l) (turn-IsFifo (contents p) u l f)
