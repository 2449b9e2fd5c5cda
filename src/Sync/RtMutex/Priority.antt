-- ===== src/Sync/RtMutex/Priority.antt =====
-- kernel/sync/rtmutex.c: the priority that an owner gets from the waiters, and the choice among them.
use rucix_kernel.Common.{
  ℕ, ◌≤◌, ◌<◌, ◌≡◌, ◌⊎◌, refl, ◌∙◌, subst, true, Option, some, List, [], ◌∷◌, ltb, ◌==◌,
  if◌then◌else◌, Bool-cases, inl, inr, arith,
}
use rucix_kernel.Common.Chain.{has}
use rucix_kernel.Sync.RtMutex.{Proc, Rt, highest_waiter, highest_held, best_waiter}

-- No process in the list has a smaller number than `n`.
abbrev pub AtLeast : (ℕ → Proc) → ℕ → List ℕ → Type 0
AtLeast procs n [] = Unit {0}
AtLeast procs n (w ∷ ws) = (n ≤ (procs w).priority) × AtLeast procs n ws

AtLeast-less :
    (procs : ℕ → Proc) (m n : ℕ) (ws : List ℕ) → m ≤ n → AtLeast procs n ws → AtLeast procs m ws
AtLeast-less procs m n [] le h = tt
AtLeast-less procs m n (w ∷ ws) le (h, r) = (omega arith, AtLeast-less procs m n ws le r)

-- The choice among the waiters `ws`, when `best` was chosen before, with the priority `prio`.
unfoldable pub Best : (ℕ → Proc) → ℕ → Option ℕ → List ℕ → Option ℕ → Type 0
Best procs prio best ws r =
    ((r ≡ best) × AtLeast procs prio ws)
    ⊎ ((w : ℕ) × (r ≡ some w)
        × (has w ws ≡ true)
        × ((procs w).priority < prio)
        × AtLeast procs (procs w).priority ws)

pub best_waiter-Best :
    (procs : ℕ → Proc) (prio : ℕ) (best : Option ℕ) (ws : List ℕ)
    → Best procs prio best ws (best_waiter procs prio best ws)
unfolding best_waiter Best
best_waiter-Best procs prio best [] = inl (refl, tt)
best_waiter-Best procs prio best (w ∷ ws) = elim (Bool-cases (ltb (procs w).priority prio)) [
  | inr e ↦ rw e (elim (best_waiter-Best procs prio best ws) [
    | inl (same, all) ↦ inl (same, (ground arith, all))
    | inr (v, r, i, lt, all) ↦ inr (v, r, ground arith, lt, (ground arith, all))
  ])
  | inl e ↦ rw e (elim (best_waiter-Best procs (procs w).priority (some w) ws) [
    | inl (same, all) ↦ inr (w, same, ground arith, ground arith, (omega arith, all))
    | inr (v, r, i, lt, all) ↦ inr (v, r, ground arith, ground arith, (ground arith, all))
  ])
]

highest_waiter-least :
    (procs : ℕ → Proc) (prio : ℕ) (ws : List ℕ)
    → (highest_waiter procs prio ws ≤ prio) × AtLeast procs (highest_waiter procs prio ws) ws
unfolding highest_waiter
highest_waiter-least procs prio [] = (omega arith, tt)
highest_waiter-least procs prio (w ∷ ws) =
    let next = if ltb (procs w).priority prio then (procs w).priority else prio in
    let (le, all) = highest_waiter-least procs next ws in (ground arith, (ground arith, all))

-- The number that `rt_mutex_restore_prio` computes from `prio` for the locks `ls`: the least of `prio`
-- and the priorities of their waiters.
unfoldable pub Least : Rt → ℕ → List ℕ → ℕ → Type 0
Least s prio ls n =
    (n ≤ prio)
    × ((l : ℕ) → has l ls ≡ true → AtLeast s.procs n (s.locks l).wait_list)
    × ((n ≡ prio)
        ⊎ ((l : ℕ) × (w : ℕ) × (has l ls ≡ true)
            × (has w (s.locks l).wait_list ≡ true)
            × (n ≡ (s.procs w).priority)))

highest_waiter-from :
    (procs : ℕ → Proc) (prio : ℕ) (ws : List ℕ)
    → (highest_waiter procs prio ws ≡ prio)
      ⊎ ((w : ℕ) × (has w ws ≡ true) × (highest_waiter procs prio ws ≡ (procs w).priority))
unfolding highest_waiter
highest_waiter-from procs prio [] = inl refl
highest_waiter-from procs prio (w ∷ ws) = elim (Bool-cases (ltb (procs w).priority prio)) [
  | inl e ↦ rw e (elim (highest_waiter-from procs (procs w).priority ws) [
    | inl same ↦ inr (w, ground arith, same)
    | inr (v, i, same) ↦ inr (v, ground arith, same)
  ])
  | inr e ↦ rw e (elim (highest_waiter-from procs prio ws) [
    | inl same ↦ inl same
    | inr (v, i, same) ↦ inr (v, ground arith, same)
  ])
]

pub highest_held-Least :
    (s : Rt) (prio : ℕ) (ls : List ℕ) → Least s prio ls (highest_held s prio ls)
unfolding highest_held Least
highest_held-Least s prio [] = (omega arith, λ l i. ground arith, inl refl)
highest_held-Least s prio (l ∷ ls) =
    let here = highest_waiter s.procs prio (s.locks l).wait_list in
    let n = highest_held s here ls in
    let (le, all) = highest_waiter-least s.procs prio (s.locks l).wait_list in
    let (le', all', from) = highest_held-Least s here ls in
    (
      omega arith,
      λ k i. elim (Bool-cases (k == l)) [
        | inl e ↦
            let same : l ≡ k = ground arith in
            subst (λ j. AtLeast s.procs n (s.locks j).wait_list) same
              (AtLeast-less s.procs n here (s.locks l).wait_list le' all)
        | inr e ↦ all' k (ground arith)
      ],
      elim from [
        | inr (k, w, i, j, same) ↦ inr (k, w, ground arith, j, same)
        | inl same ↦ elim (highest_waiter-from s.procs prio (s.locks l).wait_list) [
          | inl base ↦ inl (same ∙ base)
          | inr (w, i, from') ↦ inr (l, w, ground arith, i, same ∙ from')
        ]
      ],
    )

pub AtLeast-congr :
    (f g : ℕ → Proc) (n : ℕ) (ws : List ℕ)
    → ((q : ℕ) → (f q).priority ≡ (g q).priority)
    → AtLeast f n ws
    → AtLeast g n ws
AtLeast-congr f g n [] same h = tt
AtLeast-congr f g n (w ∷ ws) same (le, r) = (omega (arith, same w), AtLeast-congr f g n ws same r)

pub Least-congr :
    (s t : Rt) (prio : ℕ) (ls : List ℕ) (n : ℕ)
    → ((q : ℕ) → (s.procs q).priority ≡ (t.procs q).priority)
    → ((l : ℕ) → (s.locks l).wait_list ≡ (t.locks l).wait_list)
    → Least s prio ls n
    → Least t prio ls n
unfolding Least
Least-congr s t prio ls n same lists (le, all, from) = (
  le,
  λ l i.
      subst (AtLeast t.procs n) (lists l)
        (AtLeast-congr s.procs t.procs n (s.locks l).wait_list same (all l i)),
  elim from [
    | inl base ↦ inl base
    | inr (l, w, i, j, e) ↦ inr (l, w, i, subst (λ ws. has w ws ≡ true) (lists l) j, e ∙ same w)
  ],
)
