-- ===== src/Ipc/Signal.antt =====
-- kernel/ipc/signal.c: sending signals, and their delivery to a process. A 32-bit word of signals is
-- the function of its bits; the interrupted context is the bytes of `struct interrupt_frame`.
pub mod Kill
pub mod Delivery
pub mod Words
pub mod Return
mod Tests
use rucix_kernel.Common.{
  ℕ, zero, suc, ◌+◌, ◌-◌, ◌*◌, ◌/◌, ◌%◌, ◌^◌, Bool, true, false, ◌&&◌, ◌||◌, not, Option, none,
  some, List, [], ◌∷◌, ◌++◌, ltb, leb, ◌==◌, if◌then◌else◌,
}
use rucix_kernel.Common.Chain.{update}
use rucix_kernel.Common.Int.{ℤ, pos, negsuc}
use rucix_kernel.Strings.{Mem, memcpy, store64}

-- The fields of `struct process` that signals use; `is_blocked` is PROCESS_STATE_BLOCKED.
pub record Proc : Type 0 where
  pub pid : ℕ
  pub gid : ℕ
  pub is_blocked : Bool
  pub pending_signals : ℕ → Bool
  pub signal_handler : ℕ → ℕ

-- `sig > 0 && sig < 32`; a negative number is a large bit pattern.
abbrev pub is_signal : ℕ → Bool
is_signal sig = ltb 0 sig && ltb sig 32

-- `pending_signals |= 1 << sig`, and a blocked process becomes ready
unfoldable pub post : ℕ → Proc → Proc
post sig p = record {
  pid = p.pid;
  gid = p.gid;
  is_blocked = false;
  pending_signals = update p.pending_signals sig true;
  signal_handler = p.signal_handler;
}

-- The processes that are enqueued: the one that was blocked.
abbrev pub woken : Proc → List ℕ
woken p = if p.is_blocked then p.pid ∷ [] else []

-- Where a loop over the process list stops: the list, the processes enqueued, and `count`.
pub record Posted : Type 0 where
  pub procs : List Proc
  pub ready : List ℕ
  pub count : ℕ

-- The loops of `sys_kill` over the processes that pass a test.
unfoldable pub post_all : (Proc → Bool) → ℕ → List Proc → Posted
post_all test sig [] = record { procs = []; ready = []; count = 0 }
post_all test sig (p ∷ ps) =
    let rest = post_all test sig ps in
    if test p && is_signal sig
    then record {
      procs = post sig p ∷ rest.procs;
      ready = woken p ++ rest.ready;
      count = 1 + rest.count;
    }
    else record { procs = p ∷ rest.procs; ready = rest.ready; count = rest.count }

-- `get_process_by_pid`, and what `sys_kill` does with the process: `none` when there is none.
unfoldable pub post_to : ℕ → ℕ → List Proc → Option Posted
post_to pid sig [] = none
post_to pid sig (p ∷ ps) =
    let later = post_to pid sig ps in
    if p.pid == pid
    then some (
        if is_signal sig
        then record { procs = post sig p ∷ ps; ready = woken p; count = 1 }
        else record { procs = p ∷ ps; ready = []; count = 0 })
    else elim later [
      | none ↦ none
      | some rest ↦ some (record { procs = p ∷ rest.procs; ready = rest.ready; count = rest.count })
    ]

abbrev pub unposted : List Proc → Posted
unposted ps = record { procs = ps; ready = []; count = 0 }

-- `(uint64_t)(int)gid`
abbrev pub int_gid : ℕ → ℕ
int_gid gid = if ltb (gid % 2 ^ 32) (2 ^ 31) then gid % 2 ^ 32 else gid % 2 ^ 32 + (2 ^ 64 - 2 ^ 32)

-- Whether 0 is returned, not -1, with the processes; `current` is the sender, and
-- processes are compared by `pid`.
unfoldable pub sys_kill : Proc → ℤ → ℕ → List Proc → Bool × Posted
sys_kill current (pos (suc n)) sig ps = elim (post_to (suc n) sig ps) [
  | none ↦ (false, unposted ps)
  | some r ↦ (ltb 0 r.count, r)
]
sys_kill current (negsuc zero) sig ps =
    (true, post_all (λ p. ltb 1 p.pid && not (p.pid == current.pid)) sig ps)
sys_kill current (pos zero) sig ps =
    let r = post_all (λ p. p.gid == int_gid current.gid) sig ps in (ltb 0 r.count, r)
sys_kill current (negsuc (suc n)) sig ps =
    let r = post_all (λ p. p.gid == n + 2) sig ps in (ltb 0 r.count, r)

-- The old handler; `none` is `(sighandler_t)-1`
unfoldable pub sys_signal : ℕ → ℕ → Proc → Option ℕ × Proc
sys_signal sig handler p =
    if is_signal sig
    then (
      some (p.signal_handler sig),
      record {
        pid = p.pid;
        gid = p.gid;
        is_blocked = p.is_blocked;
        pending_signals = p.pending_signals;
        signal_handler = update p.signal_handler sig handler;
      },
    )
    else (none, p)

-- What `handle_pending_signals` comes to.
pub data Outcome : Type 0 where
  resume : Outcome
  process_exit : ℕ → Outcome
  run_handler : ℕ → ℕ → Outcome

-- `pending_signals &= ~(1 << i)`
abbrev pub clear_signal : ℕ → Proc → Proc
clear_signal i p = record {
  pid = p.pid;
  gid = p.gid;
  is_blocked = p.is_blocked;
  pending_signals = update p.pending_signals i false;
  signal_handler = p.signal_handler;
}

-- `for (i = 1; i < 32; i++)` with `n` rounds left; `signals` is read before the loop.
unfoldable pub deliver : (ℕ → Bool) → ℕ → ℕ → Proc → Outcome × Proc
deliver signals zero i p = (resume, p)
deliver signals (suc n) i p =
    let p' = clear_signal i p in
    let skip = deliver signals n (i + 1) p in
    let ignore = deliver signals n (i + 1) p' in
    if signals i
    then if p.signal_handler i == 0
      then (process_exit (128 + i), p')
      else if p.signal_handler i == 1
      then ignore
      else (run_handler i (p.signal_handler i), p')
    else skip

-- `current_process` is `none` for the null pointer. Without a signal the loop does nothing, like the
-- early return.
unfoldable pub handle_pending_signals : Option Proc → Option (Outcome × Proc)
handle_pending_signals none = none
handle_pending_signals (some p) = some (deliver p.pending_signals 31 1 p)

-- `*(uint64_t*)p`
unfoldable pub load64 : Mem → ℕ → ℕ
load64 mem p =
    mem p
    + 2 ^ 8 * mem (p + 1)
    + 2 ^ 16 * mem (p + 2)
    + 2 ^ 24 * mem (p + 3)
    + 2 ^ 32 * mem (p + 4)
    + 2 ^ 40 * mem (p + 5)
    + 2 ^ 48 * mem (p + 6)
    + 2 ^ 56 * mem (p + 7)

-- The offsets of the fields of `struct interrupt_frame`, and its size.
abbrev pub rdi_at : ℕ
rdi_at = 72

abbrev pub rax_at : ℕ
rax_at = 112

abbrev pub rip_at : ℕ
rip_at = 136

abbrev pub rsp_at : ℕ
rsp_at = 160

abbrev pub frame_size : ℕ
frame_size = 176

-- `rsp -= sizeof(struct sigframe)`, rounded down to 16 bytes; a `sigframe` has 8 bytes of code and the
-- frame. The stack pointer is not too small.
unfoldable pub sigframe_at : ℕ → ℕ
sigframe_at rsp = (rsp - 184) - (rsp - 184) % 16

-- `ret_code`: mov eax, 119; int 0x80
unfoldable pub write_code : Mem → ℕ → Mem
write_code mem p x =
    if x == p
    then 0xB8
    else if x == p + 1
    then 119
    else if x == p + 2
    then 0
    else if x == p + 3
    then 0
    else if x == p + 4
    then 0
    else if x == p + 5
    then 0xCD
    else if x == p + 6
    then 0x80
    else mem x

unfoldable pub setup_frame : Mem → ℕ → ℕ → ℕ → Mem
setup_frame mem sig handler frame =
    let sf = sigframe_at (load64 mem (frame + rsp_at)) in
    let saved = write_code (memcpy mem (sf + 8) frame frame_size) sf in
    let m1 = store64 saved (frame + rsp_at) sf in
    let m2 = store64 m1 (frame + rip_at) handler in
    let m3 = store64 m2 (frame + rdi_at) sig in
    let m4 = store64 m3 (frame + rsp_at) (sf - 8) in store64 m4 (sf - 8) sf

-- The value returned is an `int`.
unfoldable pub sys_sigreturn : Mem → ℕ → ℕ × Mem
sys_sigreturn mem frame =
    let sf = load64 mem (frame + rsp_at) in
    let mem' = memcpy mem frame (sf + 8) frame_size in (load64 mem' (frame + rax_at) % 2 ^ 32, mem')
