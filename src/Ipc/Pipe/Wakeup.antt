-- ===== src/Ipc/Pipe/Wakeup.antt =====
-- kernel/ipc/pipe.c and kernel/sync/waitqueue.c: a reader that goes to sleep, and a writer.
-- `pipe_read` releases the pipe's lock and only then calls `sleep_on`, so a writer's pass can come
-- between the two.
use rucix_kernel.Common.{
  ℕ, ◌<◌, ◌≡◌, ap, ◌∙◌, subst, Bool, false, List, [], ◌∷◌, ◌++◌, arith, ◌==◌, if◌then◌else◌, length,
}
use rucix_kernel.Ipc.Pipe.{
  Pipe, pipe_size, is_zero_ℤ, Pass, moved, ended, must_wait, read_pass, write_pass, wake_up,
}
use rucix_kernel.Ipc.Pipe.Valid.{
  IsValid, contents, ReadPass, read_pass-ReadPass, put, contents-put, write_pass-put,
  length-contents, contents-read_wait,
}

-- Where the reader is: in its loop, behind the release of the lock on the way to `sleep_on`, or
-- blocked in the wait queue.
pub data Reader : Type 0 where
  looping leaving asleep : Reader

pub record Race : Type 0 where
  pub pipe : Pipe
  pub reader : Reader

pub data Event : Type 0 where
  reader_pass : Event
  reader_sleeps : Event
  writer_pass : ℕ → Event

abbrev is_first : ℕ → List ℕ → Bool
is_first me [] = false
is_first me (p ∷ ps) = p == me

-- `wake_up` makes the first sleeper ready.
abbrev woken : ℕ → Pipe → Reader → Reader
woken me p asleep = if is_first me p.read_wait then looping else asleep
woken me p looping = looping
woken me p leaving = leaving

after_read : Reader → Pass → Pipe → Race
after_read looping (moved _ q) p = record { pipe = q; reader = looping }
after_read looping ended p = record { pipe = p; reader = looping }
after_read looping must_wait p = record { pipe = p; reader = leaving }
after_read leaving _ p = record { pipe = p; reader = leaving }
after_read asleep _ p = record { pipe = p; reader = asleep }

after_sleep : ℕ → Reader → Pipe → Race
after_sleep me leaving p = record {
  pipe = record p { read_wait = p.read_wait ++ me ∷ [] };
  reader = asleep;
}
after_sleep me looping p = record { pipe = p; reader = looping }
after_sleep me asleep p = record { pipe = p; reader = asleep }

after_write : ℕ → Pass → Race → Race
after_write me (moved _ q) r = record { pipe = q; reader = woken me r.pipe r.reader }
after_write me ended r = r
after_write me must_wait r = r

-- One step of the reader `me`, or one pass of a writer.
pub race_step : ℕ → Event → Race → Race
unfolding after_read after_sleep after_write
race_step me reader_pass r = after_read r.reader (read_pass r.pipe) r.pipe
race_step me reader_sleeps r = after_sleep me r.reader r.pipe
race_step me (writer_pass b) r = after_write me (write_pass b r.pipe) r

pub race : ℕ → List Event → Race → Race
unfolding race_step
race me [] r = r
race me (e ∷ es) r = race me es (race_step me e r)

module _ (me b : ℕ) (p : Pipe) (v : IsValid p) (none_left : contents p ≡ [])
    (open_end : is_zero_ℤ p.writers ≡ false) (alone : p.read_wait ≡ []) where
  abbrev start : Race
  start = record { pipe = p; reader = looping }

  first_waits : read_pass p ≡ must_wait
  first_waits =
      subst (λ l. ReadPass p l (read_pass p)) none_left (read_pass-ReadPass p v) ∙ rw open_end

  room : p.bytes_available < pipe_size
  room = omega (arith, ap length none_left, length-contents p)

  holds-put : contents (put p v b) ≡ b ∷ []
  holds-put = contents-put p v b room ∙ rw none_left

  queued : Pipe
  queued = record p { read_wait = p.read_wait ++ me ∷ [] }

  queued-IsValid : IsValid queued
  unfolding queued
  queued-IsValid = record { read_in = v.read_in; fits = v.fits; write_at = v.write_at }

  lost_lem : race me (reader_pass ∷ writer_pass b ∷ reader_sleeps ∷ []) start ≡ record {
    pipe = record (put p v b) { read_wait = wake_up p.read_wait ++ me ∷ [] };
    reader = asleep;
  }
  unfolding race
  lost_lem = rw (first_waits, write_pass-put p v b room)

  kept_lem :
      race me (reader_pass ∷ reader_sleeps ∷ writer_pass b ∷ []) start
      ≡ record { pipe = put queued queued-IsValid b; reader = woken me queued asleep }
  unfolding race queued
  kept_lem = rw (first_waits, write_pass-put queued queued-IsValid b room)

  -- A reader that finds the pipe empty, a writer that puts a byte, and the reader's `sleep_on`, in
  -- this order: the reader sleeps in the wait queue while the pipe holds the byte, although the
  -- writer has called `wake_up`. Had `sleep_on` come first, the reader would be awake.
  pub lost_wakeup :
      let lost = race me (reader_pass ∷ writer_pass b ∷ reader_sleeps ∷ []) start in
      let kept = race me (reader_pass ∷ reader_sleeps ∷ writer_pass b ∷ []) start in
      (lost.reader ≡ asleep)
      × (lost.pipe.read_wait ≡ me ∷ [])
      × (contents lost.pipe ≡ b ∷ [])
      × (kept.reader ≡ looping)
  unfolding queued
  lost_wakeup = (
    ap (λ r. r.reader) lost_lem,
    ap (λ r. r.pipe.read_wait) lost_lem ∙ rw alone,
    ap (λ r. contents r.pipe) lost_lem
        ∙ contents-read_wait (put p v b) (wake_up p.read_wait ++ me ∷ [])
        ∙ holds-put,
    ap (λ r. r.reader) kept_lem ∙ rw alone (ground arith),
  )
