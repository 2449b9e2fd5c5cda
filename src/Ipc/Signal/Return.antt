-- ===== src/Ipc/Signal/Return.antt =====
-- kernel/ipc/signal.c: the call of a handler, and the return from it to the interrupted program.
use rucix_kernel.Common.{
  ℕ, ◌+◌, ◌-◌, ◌^◌, ◌≤◌, ◌<◌, ◌≡◌, ◌⊎◌, refl, sym, ◌∙◌, ap, true, inl, inr, List, [], ◌∷◌, tabulate,
  tabulate-congr, arith,
}
use rucix_kernel.Strings.{Mem, memcpy, store64}
use rucix_kernel.Strings.Blocks.{within, memcpy-copied, Apart}
use rucix_kernel.Ipc.Signal.{
  load64, rdi_at, rip_at, rsp_at, frame_size, sigframe_at, write_code, setup_frame, sys_sigreturn,
}
use rucix_kernel.Ipc.Signal.Words.{store64-outside, load64-store64, Beside, load64-Beside}

write_code-behind : (mem : Mem) (p x : ℕ) → p + 8 ≤ x → write_code mem p x ≡ mem x
unfolding write_code
write_code-behind mem p x le = ground arith

-- The frame does not overlap the return address, the code and the copy of the frame on the stack.
abbrev pub Clear : ℕ → ℕ → Type 0
Clear frame sf = (frame + frame_size + 8 ≤ sf) ⊎ (sf + 184 ≤ frame)

Clear-apart : (frame sf : ℕ) → Clear frame sf → Apart (sf + 8) frame frame_size
Clear-apart frame sf (inl h) = inr (omega arith)
Clear-apart frame sf (inr h) = inl (omega arith)

Clear-apart_back : (frame sf : ℕ) → Clear frame sf → Apart frame (sf + 8) frame_size
Clear-apart_back frame sf (inl h) = inl (omega arith)
Clear-apart_back frame sf (inr h) = inr (omega arith)

-- A byte of the copy is not in a field of the frame, nor in the return address.
kept :
    (m : Mem) (frame sf at v k : ℕ)
    → Clear frame sf
    → at + 8 ≤ frame_size
    → k < frame_size
    → store64 m (frame + at) v (sf + 8 + k) ≡ m (sf + 8 + k)
kept m frame sf at v k (inl c) small h =
    store64-outside m (frame + at) v (sf + 8 + k) (ground arith)
kept m frame sf at v k (inr c) small h =
    store64-outside m (frame + at) v (sf + 8 + k) (ground arith)

-- The memory after each store of `setup_frame`.
module _ (mem : Mem) (sig handler frame sf : ℕ) where
  abbrev saved : Mem
  saved = write_code (memcpy mem (sf + 8) frame frame_size) sf

  abbrev m1 : Mem
  m1 = store64 saved (frame + rsp_at) sf

  abbrev m2 : Mem
  m2 = store64 m1 (frame + rip_at) handler

  abbrev m3 : Mem
  m3 = store64 m2 (frame + rdi_at) sig

  abbrev m4 : Mem
  m4 = store64 m3 (frame + rsp_at) (sf - 8)

setup_frame-saved :
    (mem : Mem) (sig handler frame sf k : ℕ)
    → sf ≡ sigframe_at (load64 mem (frame + rsp_at))
    → 8 ≤ sf
    → Clear frame sf
    → k < frame_size
    → setup_frame mem sig handler frame (sf + 8 + k) ≡ mem (frame + k)
unfolding setup_frame
setup_frame-saved mem sig handler frame sf k e low c h =
    let inside : within (sf + 8) frame_size (sf + 8 + k) ≡ true = ground arith in
    let d : sf + 8 + k - (sf + 8) ≡ k = omega arith in
    rw (sym e) (
      store64-outside (m4 mem sig handler frame sf) (sf - 8) sf (sf + 8 + k) (ground arith)
      ∙ kept (m3 mem sig handler frame sf) frame sf rsp_at (sf - 8) k c (omega arith) h
      ∙ kept (m2 mem sig handler frame sf) frame sf rdi_at sig k c (omega arith) h
      ∙ kept (m1 mem sig handler frame sf) frame sf rip_at handler k c (omega arith) h
      ∙ kept (saved mem sig handler frame sf) frame sf rsp_at sf k c (omega arith) h
      ∙ write_code-behind (memcpy mem (sf + 8) frame frame_size) sf (sf + 8 + k) (omega arith)
      ∙ ap (λ (m : Mem). m (sf + 8 + k))
          (memcpy-copied mem (sf + 8) frame frame_size (Clear-apart frame sf c))
      ∙ (rw (inside, d) refl))

module _ (mem : Mem) (sig handler frame sf : ℕ) (e : sf ≡ sigframe_at (load64 mem (frame + rsp_at)))
    (low : 8 ≤ sf) (c : Clear frame sf) where
  field-Beside : (at : ℕ) → at + 8 ≤ frame_size → Beside (frame + at) 8 (sf - 8) 8
  field-Beside at small = elim c [ inl h ↦ inl (omega arith) | inr h ↦ inr (omega arith) ]

  setup_frame-rip :
      handler < 2 ^ 64 → load64 (setup_frame mem sig handler frame) (frame + rip_at) ≡ handler
  unfolding setup_frame
  setup_frame-rip lt = rw (sym e) (
      load64-Beside (m4 mem sig handler frame sf) (sf - 8) sf (frame + rip_at)
        (field-Beside rip_at (omega arith))
      ∙ load64-Beside (m3 mem sig handler frame sf) (frame + rsp_at) (sf - 8) (frame + rip_at)
          (inl (omega arith))
      ∙ load64-Beside (m2 mem sig handler frame sf) (frame + rdi_at) sig (frame + rip_at)
          (inr (omega arith))
      ∙ load64-store64 (m1 mem sig handler frame sf) (frame + rip_at) handler lt)

  setup_frame-rdi : sig < 2 ^ 64 → load64 (setup_frame mem sig handler frame) (frame + rdi_at) ≡ sig
  unfolding setup_frame
  setup_frame-rdi lt = rw (sym e) (
      load64-Beside (m4 mem sig handler frame sf) (sf - 8) sf (frame + rdi_at)
        (field-Beside rdi_at (omega arith))
      ∙ load64-Beside (m3 mem sig handler frame sf) (frame + rsp_at) (sf - 8) (frame + rdi_at)
          (inl (omega arith))
      ∙ load64-store64 (m2 mem sig handler frame sf) (frame + rdi_at) sig lt)

  setup_frame-rsp :
      sf < 2 ^ 64
      → (load64 (setup_frame mem sig handler frame) (frame + rsp_at) ≡ sf - 8)
        × (load64 (setup_frame mem sig handler frame) (sf - 8) ≡ sf)
  unfolding setup_frame
  setup_frame-rsp lt = rw (sym e) (
    load64-Beside (m4 mem sig handler frame sf) (sf - 8) sf (frame + rsp_at)
          (field-Beside rsp_at (omega arith))
        ∙ load64-store64 (m3 mem sig handler frame sf) (frame + rsp_at) (sf - 8) (omega arith),
    load64-store64 (m4 mem sig handler frame sf) (sf - 8) sf lt,
  )

-- A byte of the code is not in a field of the frame, nor in the return address.
code_kept :
    (m : Mem) (frame sf at v k : ℕ)
    → Clear frame sf
    → at + 8 ≤ frame_size
    → k < 7
    → store64 m (frame + at) v (sf + k) ≡ m (sf + k)
code_kept m frame sf at v k (inl c) small h =
    store64-outside m (frame + at) v (sf + k) (ground arith)
code_kept m frame sf at v k (inr c) small h =
    store64-outside m (frame + at) v (sf + k) (ground arith)

setup_frame-code :
    (mem : Mem) (sig handler frame sf k : ℕ)
    → sf ≡ sigframe_at (load64 mem (frame + rsp_at))
    → 8 ≤ sf
    → Clear frame sf
    → k < 7
    → setup_frame mem sig handler frame (sf + k)
      ≡ write_code (memcpy mem (sf + 8) frame frame_size) sf (sf + k)
unfolding setup_frame
setup_frame-code mem sig handler frame sf k e low c h = rw (sym e) (
    store64-outside (m4 mem sig handler frame sf) (sf - 8) sf (sf + k) (ground arith)
    ∙ code_kept (m3 mem sig handler frame sf) frame sf rsp_at (sf - 8) k c (omega arith) h
    ∙ code_kept (m2 mem sig handler frame sf) frame sf rdi_at sig k c (omega arith) h
    ∙ code_kept (m1 mem sig handler frame sf) frame sf rip_at handler k c (omega arith) h
    ∙ code_kept (saved mem sig handler frame sf) frame sf rsp_at sf k c (omega arith) h)

-- `mov eax, 119` and `int 0x80`
abbrev pub ret_code : List ℕ
ret_code = 0xB8 ∷ 119 ∷ 0 ∷ 0 ∷ 0 ∷ 0xCD ∷ 0x80 ∷ []

write_code-ret_code : (mem : Mem) (p : ℕ) → tabulate 7 (λ k. write_code mem p (p + k)) ≡ ret_code
unfolding write_code
write_code-ret_code mem p = ground arith

setup_frame-ret_code :
    (mem : Mem) (sig handler frame sf : ℕ)
    → sf ≡ sigframe_at (load64 mem (frame + rsp_at))
    → 8 ≤ sf
    → Clear frame sf
    → tabulate 7 (λ k. setup_frame mem sig handler frame (sf + k)) ≡ ret_code
setup_frame-ret_code mem sig handler frame sf e low c =
    tabulate-congr 7 (λ k. setup_frame mem sig handler frame (sf + k))
      (λ k. write_code (memcpy mem (sf + 8) frame frame_size) sf (sf + k))
      (λ k h. setup_frame-code mem sig handler frame sf k e low c h)
    ∙ write_code-ret_code (memcpy mem (sf + 8) frame frame_size) sf

-- `setup_frame` makes the program go on at the handler, with the signal as its argument and a stack whose
-- top word is the address of the seven bytes B8 77 00 00 00 CD 80, the code that puts 119 into `eax` and
-- traps with `int 0x80`. If the saved frame is left alone, then `sys_sigreturn` of a frame, wherever it
-- stands, whose stack pointer is this address makes that frame equal byte by byte to the one that the
-- signal interrupted. The frames do not overlap the part of the stack that is used.
pub sys_sigreturn-setup_frame :
    (mem mem' : Mem) (sig handler frame frame' sf : ℕ)
    → sf ≡ sigframe_at (load64 mem (frame + rsp_at))
    → 8 ≤ sf
    → sf < 2 ^ 64
    → Clear frame sf
    → sig < 2 ^ 64
    → handler < 2 ^ 64
    → ((k : ℕ)
        → k < frame_size
        → mem' (sf + 8 + k) ≡ setup_frame mem sig handler frame (sf + 8 + k))
    → load64 mem' (frame' + rsp_at) ≡ sf
    → Clear frame' sf
    → let m = setup_frame mem sig handler frame in
      (load64 m (frame + rip_at) ≡ handler)
      × (load64 m (frame + rdi_at) ≡ sig)
      × (load64 m (load64 m (frame + rsp_at)) ≡ sf)
      × (tabulate 7 (λ k. m (sf + k)) ≡ ret_code)
      × ((k : ℕ) → k < frame_size → (sys_sigreturn mem' frame').1 (frame' + k) ≡ mem (frame + k))
unfolding sys_sigreturn
sys_sigreturn-setup_frame mem mem' sig handler frame frame' sf e low top c small big left at c' =
    let (down, back) = setup_frame-rsp mem sig handler frame sf e low c top in
    (
      setup_frame-rip mem sig handler frame sf e low c big,
      setup_frame-rdi mem sig handler frame sf e low c small,
      ap (load64 (setup_frame mem sig handler frame)) down ∙ back,
      setup_frame-ret_code mem sig handler frame sf e low c,
      λ k h.
          let inside : within frame' frame_size (frame' + k) ≡ true = ground arith in
          let d : frame' + k - frame' ≡ k = omega arith in
          rw at (
            ap (λ (m : Mem). m (frame' + k))
              (memcpy-copied mem' frame' (sf + 8) frame_size (Clear-apart_back frame' sf c'))
            ∙ (rw (inside, d) refl)
            ∙ left k h
            ∙ setup_frame-saved mem sig handler frame sf k e low c h),
    )
