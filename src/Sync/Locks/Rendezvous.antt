-- ===== src/Sync/Locks/Rendezvous.antt =====
-- kernel/sync/waitqueue.c: barriers.
use rucix_kernel.Common.{
  ℕ, suc, ◌+◌, ◌<◌, ◌≡◌, refl, ap, ap₂, sym, ◌∙◌, Bool, true, false, List, [], ◌∷◌, ◌++◌, arith,
  length, lt→ltb,
}
use mathlib.Core.List.{append-nil, append_assoc}
use rucix_kernel.Common.Int.{ℤ, pos, suc_ℤ, ltb_ℤ}
use rucix_kernel.Sync.Locks.{Barrier, barrier_init, barrier_wait, barrier_sleep}

-- The processes arrive one after another, and each that does not pass goes to sleep before the next
-- arrives.
unfoldable pub gather : List ℕ → Barrier → Barrier
gather [] b = b
gather (p ∷ ps) b = gather ps (barrier_sleep p (barrier_wait b).0)

early :
    (b : Barrier) (n k : ℕ)
    → b.count ≡ pos n
    → b.current ≡ pos k
    → suc k < n
    → barrier_wait b ≡ (record b { current = pos (suc k) }, false)
unfolding barrier_wait
early b n k e f h =
    let test : ltb_ℤ (suc_ℤ b.current) b.count ≡ true =
      ap₂ (λ x y. ltb_ℤ (suc_ℤ x) y) f e ∙ lt→ltb (suc k) n h in
    rw test (ap {A = ℤ} {B = Barrier × Bool} (λ c. (record b { current = suc_ℤ c }, false)) f)

last :
    (b : Barrier) (k : ℕ)
    → b.count ≡ pos (suc k)
    → b.current ≡ pos k
    → barrier_wait b ≡ (record b { current = pos 0; sleepers = [] }, true)
unfolding barrier_wait
last b k e f =
    let test : ltb_ℤ (suc_ℤ b.current) b.count ≡ false =
      ap₂ (λ x y. ltb_ℤ (suc_ℤ x) y) f e ∙ ground arith in
    rw test refl

gather-all :
    (ps qs : List ℕ) (b : Barrier) (n k : ℕ)
    → b.count ≡ pos n
    → b.current ≡ pos k
    → b.sleepers ≡ qs
    → k + length ps < n
    → ((gather ps b).count ≡ pos n)
      × ((gather ps b).current ≡ pos (k + length ps))
      × ((gather ps b).sleepers ≡ qs ++ ps)
unfolding gather barrier_sleep
gather-all [] qs b n k e f g h = (e, f ∙ ap pos (omega arith), g ∙ sym (append-nil qs))
gather-all (p ∷ ps) qs b n k e f g h =
    let step = early b n k e f (omega arith) in
    let (count, current, sleepers) =
      gather-all ps (qs ++ p ∷ []) (barrier_sleep p (barrier_wait b).0) n (suc k)
        (ap {A = Barrier × Bool} (λ r. r.0.count) step ∙ e)
        (ap {A = Barrier × Bool} (λ r. r.0.current) step)
        (ap {A = Barrier × Bool} (λ r. r.0.sleepers ++ p ∷ []) step ∙ ap (λ l. l ++ p ∷ []) g)
        (omega arith) in
    (count, current ∙ ap pos (omega arith), sleepers ∙ append_assoc qs (p ∷ []) ps)

-- At a barrier for one process more than there are in the list, each of the list goes to sleep, in
-- order, if it goes to sleep before the next one arrives; the process that arrives then passes, wakes
-- all of them, and leaves the barrier as `barrier_init` set it up.
pub gather-passes :
    (ps : List ℕ)
    → let n = suc (length ps) in
      ((gather ps (barrier_init (pos n))).sleepers ≡ ps)
      × (barrier_wait (gather ps (barrier_init (pos n))) ≡ (barrier_init (pos n), true))
unfolding barrier_init
gather-passes ps =
    let n = suc (length ps) in
    let b = gather ps (barrier_init (pos n)) in
    let (count, current, sleepers) =
      gather-all ps [] (barrier_init (pos n)) n 0 refl refl refl (omega arith) in
    (
      sleepers,
      last b (length ps) count (current ∙ ap pos (omega arith))
          ∙ ap {A = ℤ} {B = Barrier × Bool}
              (λ c. (record { count = c; current = pos 0; sleepers = [] }, true)) count,
    )

-- If the last process arrives between the arrival of another and its call of `sleep_on`, that one
-- goes to sleep behind the `wake_up_all` that was meant for it: it is in the wait queue of a barrier
-- that has let everybody through, and at which nobody has arrived.
pub late_sleeper :
    (b : Barrier) (k me : ℕ)
    → b.count ≡ pos (suc (suc k))
    → b.current ≡ pos k
    → let first = barrier_wait b in
      let second = barrier_wait first.0 in
      (first.1 ≡ false)
      × (second.1 ≡ true)
      × ((barrier_sleep me second.0).sleepers ≡ me ∷ [])
      × ((barrier_sleep me second.0).current ≡ pos 0)
unfolding barrier_sleep
late_sleeper b k me e f =
    let arrived : Barrier = record b { current = pos (suc k) } in
    let one = early b (suc (suc k)) k e f (omega arith) in
    let two : barrier_wait (barrier_wait b).0
        ≡ (record arrived { current = pos 0; sleepers = [] }, true) =
      ap {A = Barrier × Bool} (λ r. barrier_wait r.0) one ∙ last arrived (suc k) e refl in
    (
      ap {A = Barrier × Bool} (λ r. r.1) one,
      ap {A = Barrier × Bool} (λ r. r.1) two,
      ap {A = Barrier × Bool} (λ r. r.0.sleepers ++ me ∷ []) two,
      ap {A = Barrier × Bool} (λ r. r.0.current) two,
    )
