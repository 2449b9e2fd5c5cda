-- ===== src/Ipc/Pipe/Tests.antt =====
-- Runs of a pipe, and its theorems at a pipe whose bytes go round the end of the buffer.
use rucix_kernel.Common.{
  ℕ, ◌-◌, ◌≡◌, refl, some, none, List, [], ◌∷◌, arith, length, ◌==◌, if◌then◌else◌,
}
use rucix_kernel.Common.Int.{pos}
use rucix_kernel.Ipc.Pipe.{
  Pipe, pipe_size, Outcome, returned, sleeps, read_pass, read_loop, pipe_read, pipe_write, rdonly,
  wronly,
}
use rucix_kernel.Ipc.Pipe.Valid.{IsValid, contents, window}
use rucix_kernel.Ipc.Pipe.Calls.{ReadCall, WriteCall, pipe_read-ReadCall, pipe_write-WriteCall}
use rucix_kernel.Ipc.Pipe.Fifo.{reads, writes, IsFifo, schedule, schedule-IsFifo}
use rucix_kernel.Ipc.Pipe.Wakeup.{
  Race, looping, asleep, reader_pass, reader_sleeps, writer_pass, race, lost_wakeup,
}

-- 8 at the end of the buffer, then 9 at its start
abbrev wrapped : Pipe
wrapped = record {
  buffer = λ i. if i == 0 then 9 else 8;
  read_pos = 4095;
  write_pos = 1;
  bytes_available = 2;
  readers = pos 1;
  writers = pos 1;
  read_wait = [];
  write_wait = [];
}

abbrev empty : Pipe
empty = record wrapped { read_pos = 1; bytes_available = 0 }

wrapped-IsValid : IsValid wrapped
wrapped-IsValid = omega arith

empty-IsValid : IsValid empty
empty-IsValid = omega arith

contents-wrapped : contents wrapped ≡ 8 ∷ 9 ∷ []
unfolding contents window
contents-wrapped = refl

-- the bytes that a call returned or had moved when it went to sleep
moved_by : Outcome → List ℕ
moved_by (returned none p) = []
moved_by (returned (some bs) p) = bs
moved_by (sleeps bs p) = bs

read_one : moved_by (pipe_read rdonly 1 wrapped) ≡ 8 ∷ []
unfolding moved_by pipe_read read_loop read_pass
read_one = refl

read_too_many : moved_by (pipe_read rdonly 5 wrapped) ≡ 8 ∷ 9 ∷ []
unfolding moved_by pipe_read read_loop read_pass
read_too_many = refl

pipe_read-ReadCall_run :
    ReadCall wrapped (contents wrapped) 5 [] (pipe_read rdonly 5 wrapped)
    × (pipe_read wronly 5 wrapped ≡ returned none wrapped)
pipe_read-ReadCall_run = pipe_read-ReadCall 5 wrapped wrapped-IsValid

pipe_write-WriteCall_run :
    WriteCall wrapped
      (pipe_size - length (contents wrapped))
      (1 ∷ 2 ∷ [])
      []
      (pipe_write wronly (1 ∷ 2 ∷ []) wrapped)
    × (pipe_write rdonly (1 ∷ 2 ∷ []) wrapped ≡ returned none wrapped)
pipe_write-WriteCall_run = pipe_write-WriteCall (1 ∷ 2 ∷ []) wrapped wrapped-IsValid

schedule-IsFifo_example : IsFifo (contents wrapped) (
    schedule
      (reads ∷ writes 7 ∷ reads ∷ reads ∷ [])
      (record { took = []; gave = []; pipe = wrapped }))
schedule-IsFifo_example =
    schedule-IsFifo (reads ∷ writes 7 ∷ reads ∷ reads ∷ []) wrapped wrapped-IsValid

lost_wakeup_run :
    let start : Race = record { pipe = empty; reader = looping } in
    let lost = race 5 (reader_pass ∷ writer_pass 7 ∷ reader_sleeps ∷ []) start in
    let kept = race 5 (reader_pass ∷ reader_sleeps ∷ writer_pass 7 ∷ []) start in
    (lost.reader ≡ asleep)
    × (lost.pipe.read_wait ≡ 5 ∷ [])
    × (contents lost.pipe ≡ 7 ∷ [])
    × (kept.reader ≡ looping)
unfolding contents window
lost_wakeup_run = lost_wakeup 5 7 empty empty-IsValid refl refl refl
