-- ===== src/Ipc/Signal/Delivery.antt =====
-- kernel/ipc/signal.c: which of the pending signals is delivered.
use mathlib.Core.Bool.{true≢false}
use rucix_kernel.Common.{
  ℕ, zero, suc, ◌+◌, ◌≤◌, ◌<◌, ◌≡◌, refl, sym, ◌∙◌, ap, subst, true, false, ◌&&◌, not, some, ltb,
  leb, ◌==◌, Bool-cases, inl, inr, arith,
}
use rucix_kernel.Common.Chain.{update}
use rucix_kernel.Ipc.Signal.{
  Proc, Outcome, resume, process_exit, run_handler, clear_signal, deliver, handle_pending_signals,
}

-- The pending signals from `i` up to `j` are ignored.
abbrev pub Ignored : Proc → ℕ → ℕ → Type 0
Ignored p i j = (k : ℕ) → i ≤ k → k < j → p.pending_signals k ≡ true → p.signal_handler k ≡ 1

-- The process `p'` is `p` without the pending signals from `i` up to `j`.
abbrev pub Cleared : Proc → ℕ → ℕ → Proc → Type 0
Cleared p i j p' =
    ((k : ℕ) → p'.pending_signals k ≡ (not (leb i k && ltb k j) && p.pending_signals k))
    × (p'.signal_handler ≡ p.signal_handler)

-- What the rounds for the signals from `i` up to `e` lead to.
unfoldable pub Delivered : ℕ → ℕ → Proc → Outcome × Proc → Type 0
Delivered i e p (resume, p') = Ignored p i e × Cleared p i e p'
Delivered i e p (process_exit code, p') =
    (j : ℕ) × (code ≡ 128 + j)
    × (i ≤ j)
    × (j < e)
    × (p.pending_signals j ≡ true)
    × (p.signal_handler j ≡ 0)
    × Ignored p i j
    × Cleared p i (suc j) p'
Delivered i e p (run_handler j handler, p') =
    (i ≤ j)
    × (j < e)
    × (p.pending_signals j ≡ true)
    × (p.signal_handler j ≡ handler)
    × (1 < handler)
    × Ignored p i j
    × Cleared p i (suc j) p'

not_pending :
    (p p' : Proc) (i k : ℕ)
    → i ≤ k
    → p.pending_signals k ≡ false
    → Cleared p i k p'
    → Cleared p i (suc k) p'
not_pending p p' i k le off (bits, same) = (
  λ j. elim (Bool-cases (j == k)) [
    | inl e ↦
        let here : j ≡ k = ground arith in
        let off' : p.pending_signals j ≡ false = ap p.pending_signals here ∙ off in
        ground (arith, bits j)
    | inr e ↦ ground (arith, bits j)
  ],
  same,
)

taken : (p p' : Proc) (i k : ℕ) → i ≤ k → Cleared p i k p' → Cleared p i (suc k) (clear_signal k p')
unfolding update
taken p p' i k le (bits, same) = (λ j. ground (arith, bits j), same)

not_pending-Ignored :
    (p : Proc) (i k : ℕ) → p.pending_signals k ≡ false → Ignored p i k → Ignored p i (suc k)
not_pending-Ignored p i k off h j lo hi on = elim (Bool-cases (j == k)) [
  | inl e ↦
      let here : j ≡ k = ground arith in
      absurd (true≢false (sym on ∙ ap p.pending_signals here ∙ off))
  | inr e ↦ h j lo (ground arith) on
]

Ignored-Ignored :
    (p : Proc) (i k : ℕ) → p.signal_handler k ≡ 1 → Ignored p i k → Ignored p i (suc k)
Ignored-Ignored p i k one h j lo hi on = elim (Bool-cases (j == k)) [
  | inl e ↦ let here : j ≡ k = ground arith in ap p.signal_handler here ∙ one
  | inr e ↦ h j lo (ground arith) on
]

module _ (i : ℕ) (p : Proc) where
  -- The rounds from `k` on, when those before have found nothing to deliver.
  deliver-Delivered :
      (n k : ℕ) (p' : Proc)
      → i ≤ k
      → Ignored p i k
      → Cleared p i k p'
      → Delivered i (k + n) p (deliver p.pending_signals n k p')
  unfolding deliver Delivered
  deliver-Delivered zero k p' le skipped cleared =
      let e : k + 0 ≡ k = omega arith in rw e (skipped, cleared)
  deliver-Delivered (suc n) k p' le skipped cleared =
      let e : suc k + n ≡ k + suc n = omega arith in
      let up : k + 1 ≡ suc k = omega arith in
      let same : p'.signal_handler k ≡ p.signal_handler k = ap (λ f. f k) cleared.1 in
      elim (Bool-cases (p.pending_signals k)) [
        | inr off ↦
            let rest =
              deliver-Delivered n (suc k) p' (omega arith) (not_pending-Ignored p i k off skipped)
                (not_pending p p' i k le off cleared) in
            rw (off, up)
              (subst (λ d. Delivered i d p (deliver p.pending_signals n (suc k) p')) e rest)
        | inl on ↦ elim (Bool-cases (p.signal_handler k == 0)) [
          | inl z ↦
              rw (on, same, z)
                (k, refl, le, omega arith, on, ground arith, skipped, taken p p' i k le cleared)
          | inr y ↦ elim (Bool-cases (p.signal_handler k == 1)) [
            | inl z ↦
                let one : p.signal_handler k ≡ 1 = ground arith in
                let rest =
                  deliver-Delivered n (suc k) (clear_signal k p') (omega arith)
                    (Ignored-Ignored p i k one skipped) (taken p p' i k le cleared) in
                rw (on, same, y, z, up)
                  (subst
                    (λ d. Delivered i d p (deliver p.pending_signals n (suc k) (clear_signal k p')))
                    e rest)
            | inr z ↦
                rw (on, same, y, z)
                  (le, omega arith, on, refl, ground arith, skipped, taken p p' i k le cleared)
          ]
        ]
      ]

-- `handle_pending_signals` ends the process, or runs a handler, for the lowest pending signal that is not
-- ignored, and takes this signal and the ignored ones below it from the pending ones; the signals above
-- stay pending for the next return to the user. When every pending signal is ignored it takes them all
-- away and resumes the program.
pub handle_pending_signals-Delivered :
    (p : Proc)
    → (r : Outcome × Proc) × (handle_pending_signals (some p) ≡ some r) × Delivered 1 32 p r
unfolding handle_pending_signals
handle_pending_signals-Delivered p = (
  deliver p.pending_signals 31 1 p,
  refl,
  deliver-Delivered 1 p 31 1 p (omega arith) (λ k lo hi on. absurd (omega arith))
      ((λ k. ground arith), refl),
)
