-- ===== src/Ipc/Signal/Tests.antt =====
-- The theorems on signals at concrete processes and frames.
use rucix_kernel.Common.{
  ℕ, ◌+◌, ◌<◌, ◌≡◌, inl, refl, arith, List, [], ◌∷◌, map, tabulate, true, false, ◌&&◌, some,
  if◌then◌else◌, ◌==◌,
}
use rucix_kernel.Common.Int.{negsuc}
use rucix_kernel.Strings.{Mem, store64}
use rucix_kernel.Ipc.Signal.{
  Proc, Outcome, is_signal, post, sys_kill, handle_pending_signals, load64, rdi_at, rip_at, rsp_at,
  frame_size, sigframe_at, setup_frame, sys_sigreturn,
}
use rucix_kernel.Ipc.Signal.Kill.{selects, any, wake, succeeds, sys_kill-Sent}
use rucix_kernel.Ipc.Signal.Delivery.{Delivered, handle_pending_signals-Delivered}
use rucix_kernel.Ipc.Signal.Words.{store64-outside, load64-store64}
use rucix_kernel.Ipc.Signal.Return.{ret_code, sys_sigreturn-setup_frame}

abbrev shell : Proc
shell = record {
  pid = 2;
  gid = 2;
  is_blocked = true;
  pending_signals = λ k. k == 15;
  signal_handler = λ k. if k == 15 then 1 else 0;
}

abbrev editor : Proc
editor = record {
  pid = 3;
  gid = 2;
  is_blocked = false;
  pending_signals = λ k. false;
  signal_handler = λ k. 0;
}

abbrev procs : List Proc
procs = shell ∷ editor ∷ []

sys_kill-Sent_run :
    let (ok, r) = sys_kill editor (negsuc 1) 9 procs in
    (r.procs ≡ map (λ p. if selects editor (negsuc 1) p && is_signal 9 then post 9 p else p) procs)
    × (r.ready ≡ wake (λ p. selects editor (negsuc 1) p && is_signal 9) procs)
    × (ok ≡ succeeds (negsuc 1) (any (selects editor (negsuc 1)) procs && is_signal 9))
sys_kill-Sent_run = sys_kill-Sent editor (negsuc 1) 9 procs (refl, (refl, tt))

handle_pending_signals-Delivered_example :
    (r : Outcome × Proc) × (handle_pending_signals (some shell) ≡ some r) × Delivered 1 32 shell r
handle_pending_signals-Delivered_example = handle_pending_signals-Delivered shell

-- A frame at 4096 whose stack pointer is 70000.
abbrev interrupted : Mem
interrupted x = if x == 4256 then 112 else if x == 4257 then 17 else if x == 4258 then 1 else 0

stack : 69808 ≡ sigframe_at (load64 interrupted (4096 + rsp_at))
unfolding sigframe_at load64
stack = refl

-- The memory when the handler has returned.
abbrev returned : Mem
returned = store64 (setup_frame interrupted 15 8192 4096) (4096 + rsp_at) 69808

sys_sigreturn-setup_frame_example :
    let m = setup_frame interrupted 15 8192 4096 in
    (load64 m (4096 + rip_at) ≡ 8192)
    × (load64 m (4096 + rdi_at) ≡ 15)
    × (load64 m (load64 m (4096 + rsp_at)) ≡ 69808)
    × (tabulate 7 (λ k. m (69808 + k)) ≡ ret_code)
    × ((k : ℕ)
        → k < frame_size
        → (sys_sigreturn returned 4096).1 (4096 + k) ≡ interrupted (4096 + k))
sys_sigreturn-setup_frame_example =
    sys_sigreturn-setup_frame interrupted returned 15 8192 4096 4096 69808 stack (omega arith)
      (omega arith) (inl (omega arith)) (omega arith) (omega arith)
      (λ k h.
        store64-outside (setup_frame interrupted 15 8192 4096) (4096 + rsp_at) 69808 (69808 + 8 + k)
          (ground arith))
      (load64-store64 (setup_frame interrupted 15 8192 4096) (4096 + rsp_at) 69808 (omega arith))
      (inl (omega arith))
