-- ===== src/Ipc/Pipe.antt =====
-- kernel/ipc/pipe.c: a pipe of `PIPE_SIZE` bytes with blocking readers and writers.
pub mod Valid
pub mod Calls
pub mod Fifo
pub mod Wakeup
mod Tests
use rucix_kernel.Common.{
  ℕ, zero, suc, ◌+◌, ◌-◌, ◌%◌, ◌≡◌, Bool, true, false, ◌&&◌, Option, none, some, List, [], ◌∷◌,
  ◌++◌, ◌==◌, if◌then◌else◌,
}
use rucix_kernel.Common.Int.{ℤ, pos, negsuc, pred_ℤ}
pub use rucix_kernel.Common.Int.{is_zero_ℤ}
pub use rucix_kernel.Sync.WaitQueue.{wake_up}
use rucix_kernel.Common.Chain.{update}

abbrev pub pipe_size : ℕ
pipe_size = 4096

-- `pipe_t`. The wait queues hold the processes that sleep on them, the longest first.
pub record Pipe : Type 0 where
  pub buffer : ℕ → ℕ
  pub read_pos : ℕ
  pub write_pos : ℕ
  pub bytes_available : ℕ
  pub readers : ℤ
  pub writers : ℤ
  pub read_wait : List ℕ
  pub write_wait : List ℕ

-- The body of a loop between `spinlock_acquire` and `spinlock_release`.
pub data Pass : Type 0 where
  moved : ℕ → Pipe → Pass
  ended : Pass
  must_wait : Pass

-- One pass of `pipe_read`: a byte is taken, or the pipe is empty and has no writer, or the reader
-- has to sleep.
unfoldable pub read_pass : Pipe → Pass
read_pass p =
    let taken = record p {
      read_pos = (p.read_pos + 1) % pipe_size;
      bytes_available = p.bytes_available - 1;
      write_wait = wake_up p.write_wait;
    } in
    if p.bytes_available == 0
    then if is_zero_ℤ p.writers then ended else must_wait
    else moved (p.buffer p.read_pos) taken

-- One pass of `pipe_write`: the byte is put, or the pipe is full and has no reader, or the writer
-- has to sleep.
unfoldable pub write_pass : ℕ → Pipe → Pass
write_pass b p =
    let put = record p {
      buffer = update p.buffer p.write_pos b;
      write_pos = (p.write_pos + 1) % pipe_size;
      bytes_available = p.bytes_available + 1;
      read_wait = wake_up p.read_wait;
    } in
    if p.bytes_available == pipe_size
    then if is_zero_ℤ p.readers then ended else must_wait
    else moved b put

-- How far a call of `pipe_read` or `pipe_write` comes before it returns or sleeps: the bytes moved
-- so far, and the pipe. `returned none` is -1.
pub data Outcome : Type 0 where
  returned : Option (List ℕ) → Pipe → Outcome
  sleeps : List ℕ → Pipe → Outcome

-- `pipe_read` for `left` more bytes, from its start or from where it wakes up; `got` are the bytes
-- in the caller's buffer.
unfoldable pub read_loop : ℕ → List ℕ → Pipe → Outcome
read_loop zero got p = returned (some got) p
read_loop (suc left) got p = elim (read_pass p) [
  | moved b p' ↦ read_loop left (got ++ b ∷ []) p'
  | ended ↦ returned (some got) p
  | must_wait ↦ sleeps got p
]

-- `pipe_write` of the bytes that are left; `done` are the bytes written.
unfoldable pub write_loop : List ℕ → List ℕ → Pipe → Outcome
write_loop [] done p = returned (some done) p
write_loop (b ∷ left) done p = elim (write_pass b p) [
  | moved _ p' ↦ write_loop left (done ++ b ∷ []) p'
  | ended ↦ returned none p
  | must_wait ↦ sleeps done p
]

pub data Flags : Type 0 where
  rdonly wronly : Flags

unfoldable pub pipe_read : Flags → ℕ → Pipe → Outcome
pipe_read rdonly size p = read_loop size [] p
pipe_read wronly size p = returned none p

unfoldable pub pipe_write : Flags → List ℕ → Pipe → Outcome
pipe_write rdonly bytes p = returned none p
pipe_write wronly bytes p = write_loop bytes [] p

-- `pipe_close`: the pipe after it, and whether its memory is freed.
unfoldable pub pipe_close : Flags → Pipe → Pipe × Bool
pipe_close rdonly p =
    let readers = pred_ℤ p.readers in
    let woken = if is_zero_ℤ readers then wake_up p.write_wait else p.write_wait in
    (record p { readers = readers; write_wait = woken }, is_zero_ℤ readers && is_zero_ℤ p.writers)
pipe_close wronly p =
    let writers = pred_ℤ p.writers in
    let woken = if is_zero_ℤ writers then wake_up p.read_wait else p.read_wait in
    (record p { writers = writers; read_wait = woken }, is_zero_ℤ p.readers && is_zero_ℤ writers)
