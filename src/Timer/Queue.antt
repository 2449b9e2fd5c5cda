-- ===== src/Timer/Queue.antt =====
-- kernel/time/hrtimer.c: the order and the entries of the queue.
use rucix_kernel.Common.{
  ℕ, ◌≤◌, ◌≡◌, refl, Bool, false, ◌&&◌, ◌||◌, not, Option, none, some, List, [], ◌∷◌, ltb, leb,
  ◌==◌, if◌then◌else◌, Bool-cases, inl, inr, arith,
}
use rucix_kernel.Timer.{Timer, list_del, insert, hrtimer_start, hrtimer_cancel}

-- When a timer of the queue expires.
unfoldable pub expiry : ℕ → List Timer → Option ℕ
expiry n [] = none
expiry n (t ∷ q) = let rest = expiry n q in if n == t.node then some t.expires else rest

abbrev pub queued : ℕ → List Timer → Bool
queued n [] = false
queued n (t ∷ q) = (n == t.node) || queued n q

-- Every timer of the queue expires at `e` or later.
abbrev pub AtLeast : ℕ → List Timer → Type 0
AtLeast e [] = Unit {0}
AtLeast e (t ∷ q) = (e ≤ t.expires) × AtLeast e q

abbrev pub IsQueue : List Timer → Type 0
IsQueue [] = Unit {0}
IsQueue (t ∷ q) = AtLeast t.expires q × (queued t.node q ≡ false) × IsQueue q

-- The timers that have expired.
abbrev pub due : ℕ → List Timer → List Timer
due now [] = []
due now (t ∷ q) = if leb t.expires now then t ∷ due now q else due now q

AtLeast-less : (d e : ℕ) (q : List Timer) → d ≤ e → AtLeast e q → AtLeast d q
AtLeast-less d e [] le h = tt
AtLeast-less d e (t ∷ q) le (h, r) = (omega arith, AtLeast-less d e q le r)

AtLeast-list_del : (e n : ℕ) (q : List Timer) → AtLeast e q → AtLeast e (list_del n q)
unfolding list_del
AtLeast-list_del e n [] h = tt
AtLeast-list_del e n (t ∷ q) (h, r) = elim (Bool-cases (n == t.node)) [
  | inl f ↦ rw f r
  | inr f ↦ rw f (h, AtLeast-list_del e n q r)
]

pub AtLeast-insert :
    (e : ℕ) (t : Timer) (q : List Timer) → e ≤ t.expires → AtLeast e q → AtLeast e (insert t q)
unfolding insert
AtLeast-insert e t [] le h = (le, tt)
AtLeast-insert e t (x ∷ q) le (h, r) = elim (Bool-cases (ltb t.expires x.expires)) [
  | inl f ↦ rw f (le, (h, r))
  | inr f ↦ rw f (h, AtLeast-insert e t q le r)
]

pub queued-list_del :
    (n m : ℕ) (q : List Timer) → IsQueue q → queued n (list_del m q) ≡ (not (n == m) && queued n q)
unfolding list_del
queued-list_del n m [] h = ground arith
queued-list_del n m (t ∷ q) (h, once, r) = ground (arith, queued-list_del n m q r)

queued-insert :
    (n : ℕ) (t : Timer) (q : List Timer) → queued n (insert t q) ≡ ((n == t.node) || queued n q)
unfolding insert
queued-insert n t [] = refl
queued-insert n t (x ∷ q) = ground (arith, queued-insert n t q)

pub IsQueue-list_del : (n : ℕ) (q : List Timer) → IsQueue q → IsQueue (list_del n q)
unfolding list_del
IsQueue-list_del n [] h = tt
IsQueue-list_del n (t ∷ q) (h, once, r) = elim (Bool-cases (n == t.node)) [
  | inl f ↦ rw f r
  | inr f ↦ rw f (
    AtLeast-list_del t.expires n q h,
    ground (arith, queued-list_del t.node n q r),
    IsQueue-list_del n q r,
  )
]

pub IsQueue-insert :
    (t : Timer) (q : List Timer) → IsQueue q → queued t.node q ≡ false → IsQueue (insert t q)
unfolding insert
IsQueue-insert t [] h out = (tt, refl, tt)
IsQueue-insert t (x ∷ q) (h, once, r) out = elim (Bool-cases (ltb t.expires x.expires)) [
  | inl f ↦
      let le : t.expires ≤ x.expires = ground arith in
      rw f ((le, AtLeast-less t.expires x.expires q le h), out, (h, once, r))
  | inr f ↦
      let le : x.expires ≤ t.expires = ground arith in
      rw f (
        AtLeast-insert x.expires t q le h,
        ground (arith, queued-insert x.node t q),
        IsQueue-insert t q r (ground arith),
      )
]

expiry-unqueued : (n : ℕ) (q : List Timer) → queued n q ≡ false → expiry n q ≡ none
unfolding expiry
expiry-unqueued n [] h = refl
expiry-unqueued n (t ∷ q) h = ground (arith, expiry-unqueued n q)

expiry-list_del :
    (n m : ℕ) (q : List Timer)
    → IsQueue q
    → expiry n (list_del m q) ≡ (if n == m then none else expiry n q)
unfolding list_del expiry
expiry-list_del n m [] h = ground arith
expiry-list_del n m (t ∷ q) (h, once, r) =
    ground (arith, expiry-list_del n m q r, expiry-unqueued n q)

expiry-insert :
    (n : ℕ) (t : Timer) (q : List Timer)
    → queued t.node q ≡ false
    → expiry n (insert t q) ≡ (if n == t.node then some t.expires else expiry n q)
unfolding insert expiry
expiry-insert n t [] out = refl
expiry-insert n t (x ∷ q) out = ground (arith, expiry-insert n t q)

-- `hrtimer_start` and `hrtimer_cancel` keep the queue sorted by the time of expiry, with each timer once.
-- After `hrtimer_start` the timer expires at the new time, whether it was in the queue or not; after
-- `hrtimer_cancel` it is not in the queue; the other timers expire when they did.
pub hrtimer_start-expiry :
    (t : Timer) (e : ℕ) (q : List Timer)
    → IsQueue q
    → IsQueue (hrtimer_start t e q)
      × IsQueue (hrtimer_cancel t q)
      × ((n : ℕ) → expiry n (hrtimer_start t e q) ≡ (if n == t.node then some e else expiry n q))
      × ((n : ℕ) → expiry n (hrtimer_cancel t q) ≡ (if n == t.node then none else expiry n q))
unfolding hrtimer_start hrtimer_cancel
hrtimer_start-expiry t e q h =
    let t' : Timer = record { node = t.node; expires = e; function = t.function } in
    let out : queued t.node (list_del t.node q) ≡ false =
      ground (arith, queued-list_del t.node t.node q h) in
    (
      IsQueue-insert t' (list_del t.node q) (IsQueue-list_del t.node q h) out,
      IsQueue-list_del t.node q h,
      λ n. ground (arith, expiry-insert n t' (list_del t.node q) out, expiry-list_del n t.node q h),
      λ n. expiry-list_del n t.node q h,
    )
