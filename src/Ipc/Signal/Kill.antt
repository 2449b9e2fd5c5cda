-- ===== src/Ipc/Signal/Kill.antt =====
-- kernel/ipc/signal.c: which processes a signal is sent to.
use mathlib.Core.List.{append-nil}
use rucix_kernel.Common.{
  ℕ, zero, suc, ◌+◌, ◌≡◌, refl, sym, ap, subst, Bool, true, false, ◌&&◌, ◌||◌, not, none, some,
  List, [], ◌∷◌, ◌++◌, map, ltb, ◌==◌, if◌then◌else◌, Bool-cases, inl, inr, arith,
}
use rucix_kernel.Common.Int.{ℤ, pos, negsuc}
use rucix_kernel.Ipc.Signal.{
  Proc, is_signal, post, woken, Posted, post_all, post_to, unposted, int_gid, sys_kill,
}

-- The processes that `kill(pid, …)` names: one, all others but the first, or a group.
abbrev pub selects : Proc → ℤ → Proc → Bool
selects current (pos (suc n)) p = p.pid == suc n
selects current (pos zero) p = p.gid == int_gid current.gid
selects current (negsuc zero) p = ltb 1 p.pid && not (p.pid == current.pid)
selects current (negsuc (suc n)) p = p.gid == n + 2

abbrev pub any {ℓ} : {A : Type ℓ} → (A → Bool) → List A → Bool
any test [] = false
any test (x ∷ xs) = test x || any test xs

abbrev pub DistinctPids : List Proc → Type 0
DistinctPids [] = Unit {0}
DistinctPids (p ∷ ps) = (any (λ q. q.pid == p.pid) ps ≡ false) × DistinctPids ps

-- The blocked processes among those that pass a test.
abbrev pub wake : (Proc → Bool) → List Proc → List ℕ
wake test [] = []
wake test (p ∷ ps) = if test p then woken p ++ wake test ps else wake test ps

-- Every process that is named gets the signal and, if it was blocked, is enqueued, in the order of the
-- list.
abbrev pub Sent : (Proc → Bool) → ℕ → List Proc → Posted → Type 0
Sent test sig ps r =
    (r.procs ≡ map (λ p. if test p && is_signal sig then post sig p else p) ps)
    × (r.ready ≡ wake (λ p. test p && is_signal sig) ps)
    × (ltb 0 r.count ≡ (any test ps && is_signal sig))

post_all-Sent :
    (test : Proc → Bool) (sig : ℕ) (ps : List Proc) → Sent test sig ps (post_all test sig ps)
unfolding post_all
post_all-Sent test sig [] = (refl, refl, ground arith)
post_all-Sent test sig (p ∷ ps) =
    let (procs, ready, count) = post_all-Sent test sig ps in
    elim (Bool-cases (test p && is_signal sig)) [
      | inl e ↦ rw e (ap (λ l. post sig p ∷ l) procs, ap (λ l. woken p ++ l) ready, ground arith)
      | inr e ↦ rw e (ap (λ l. p ∷ l) procs, ready, ground arith)
    ]

nobody :
    (pid sig : ℕ) (ps : List Proc)
    → any (λ q. q.pid == pid) ps ≡ false
    → post_all (λ q. q.pid == pid) sig ps ≡ unposted ps
unfolding post_all
nobody pid sig [] h = refl
nobody pid sig (p ∷ ps) h =
    let e : (p.pid == pid) ≡ false = ground arith in rw (e, nobody pid sig ps (ground arith)) refl

-- The process with a `pid` is found by the loop over all of them.
post_to-all :
    (pid sig : ℕ) (ps : List Proc)
    → DistinctPids ps
    → post_to pid sig ps
      ≡ (if any (λ q. q.pid == pid) ps then some (post_all (λ q. q.pid == pid) sig ps) else none)
unfolding post_to post_all
post_to-all pid sig [] d = refl
post_to-all pid sig (p ∷ ps) (out, d) = elim (Bool-cases (p.pid == pid)) [
  | inl e ↦
      let same : p.pid ≡ pid = ground arith in
      let alone = nobody pid sig ps (subst (λ k. any (λ q. q.pid == k) ps ≡ false) same out) in
      elim (Bool-cases (is_signal sig)) [
        | inl f ↦
            rw (e, f, alone)
              (ap (λ l. some (record { procs = post sig p ∷ ps; ready = l; count = 1 }))
                (sym (append-nil (woken p))))
        | inr f ↦ rw (e, f, alone) refl
      ]
  | inr e ↦ elim (Bool-cases (any (λ q. q.pid == pid) ps)) [
    | inl f ↦ rw (e, post_to-all pid sig ps d, f) refl
    | inr f ↦ rw (e, post_to-all pid sig ps d, f) refl
  ]
]

kill_one :
    (current : Proc) (n sig : ℕ) (ps : List Proc)
    → DistinctPids ps
    → sys_kill current (pos (suc n)) sig ps
      ≡ (ltb 0 (post_all (λ q. q.pid == suc n) sig ps).count, post_all (λ q. q.pid == suc n) sig ps)
unfolding sys_kill
kill_one current n sig ps d = elim (Bool-cases (any (λ q. q.pid == suc n) ps)) [
  | inl f ↦ rw (sys_kill, post_to-all (suc n) sig ps d, f) refl
  | inr f ↦ rw (sys_kill, post_to-all (suc n) sig ps d, f, nobody (suc n) sig ps f) refl
]

-- Whether 0 is returned: when a process got the signal, and always for `kill(-1, …)`.
abbrev pub succeeds : ℤ → Bool → Bool
succeeds (negsuc zero) b = true
succeeds (negsuc (suc n)) b = b
succeeds (pos n) b = b

-- `sys_kill` sends the signal to the processes that `pid` names: the process with this identifier, the
-- group of the sender for 0, all processes behind the first but the sender for -1, and else the group
-- `-pid`. Each of them has the signal pending, is not blocked any more and has been enqueued if it was;
-- no other process changes. It returns 0 for -1, and otherwise when the number is one of a signal and
-- some process was named. Identifiers of processes are different.
pub sys_kill-Sent :
    (current : Proc) (pid : ℤ) (sig : ℕ) (ps : List Proc)
    → DistinctPids ps
    → let (ok, r) = sys_kill current pid sig ps in
      (r.procs ≡ map (λ p. if selects current pid p && is_signal sig then post sig p else p) ps)
      × (r.ready ≡ wake (λ p. selects current pid p && is_signal sig) ps)
      × (ok ≡ succeeds pid (any (selects current pid) ps && is_signal sig))
unfolding sys_kill
sys_kill-Sent current (pos zero) sig ps d = post_all-Sent (selects current (pos 0)) sig ps
sys_kill-Sent current (negsuc zero) sig ps d =
    let (procs, ready, count) = post_all-Sent (selects current (negsuc 0)) sig ps in
    (procs, ready, refl)
sys_kill-Sent current (negsuc (suc n)) sig ps d =
    post_all-Sent (selects current (negsuc (suc n))) sig ps
sys_kill-Sent current (pos (suc n)) sig ps d =
    rw (kill_one current n sig ps d) (post_all-Sent (selects current (pos (suc n))) sig ps)
