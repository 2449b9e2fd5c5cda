-- ===== src/Ipc/Msg/Receive.antt =====
-- kernel/ipc/msg.c: `sys_msgrcv` against a list of entries.
use rucix_kernel.Common.{
  ℕ, zero, suc, ◌<◌, ◌≡◌, refl, ap, ap₂, sym, ◌∙◌, subst, Bool, true, false, Option, none, some,
  List, [], ◌∷◌, ◌++◌, arith, ltb, ◌==◌, if◌then◌else◌, inl, inr, Bool-cases, length, take, ◌⊎◌,
}
use rucix_kernel.Common.Int.{ℤ, pos, pred_ℤ}
use rucix_kernel.Common.Chain.{
  update, has, Distinct, Chain, last_or, before, from_first, walk-before, has-append, frame,
  before-append-from_first, last_of,
}
use rucix_kernel.Common.Chain.Unlink.{unlink-Chain, unlink-tail, or_head, points_to}
use rucix_kernel.Ipc.Msg.{Queue, wants, detach, msgrcv_turn, Received, took, waits}
use rucix_kernel.Ipc.Msg.Send.{next_of, Holds, not_equal}

abbrev pub fits_kind : ℤ → Queue → ℕ → Bool
fits_kind kind q x = wants kind (q.entries x)

-- No entry of the list is wanted.
abbrev pub Unwanted : (ℕ → Bool) → List ℕ → Type 0
Unwanted test [] = Unit {0}
Unwanted test (x ∷ xs) = (test x ≡ false) × Unwanted test xs

before-Unwanted : (test : ℕ → Bool) (xs : List ℕ) → Unwanted test (before test xs)
before-Unwanted test [] = tt
before-Unwanted test (x ∷ xs) = elim (Bool-cases (test x)) [
  | inl e ↦ rw e tt
  | inr e ↦ rw e (e, before-Unwanted test xs)
]

from_first-cases :
    (test : ℕ → Bool) (xs : List ℕ)
    → ((from_first test xs ≡ []) × (before test xs ≡ xs))
      ⊎ ((p : ℕ) × (back : List ℕ) × (from_first test xs ≡ p ∷ back) × (test p ≡ true))
from_first-cases test [] = inl (refl, refl)
from_first-cases test (x ∷ xs) = elim (Bool-cases (test x)) [
  | inl e ↦ inr (x, xs, rw e refl, e)
  | inr e ↦ elim (from_first-cases test xs) [
    | inl (f, b) ↦ inl (rw e f, rw e (ap (λ l. x ∷ l) b))
    | inr (p, back, f, w) ↦ inr (p, back, rw e f, w)
  ]
]

-- What `detach` promises: the entry is gone, and what the others hold stays.
pub record Detached (p : ℕ) (q : Queue) (xs : List ℕ) (r : Queue) : Type 0 where
  pub holds : Holds r xs
  pub others :
      (x : ℕ)
      → ((r.entries x).text ≡ (q.entries x).text) × ((r.entries x).kind ≡ (q.entries x).kind)
  pub count : r.count ≡ pred_ℤ q.count

-- The `next` pointers that `detach` leaves, but with none at the entry itself.
cleared : Option ℕ → ℕ → Queue → ℕ → Option ℕ
cleared prev p q y = if p == y then none else next_of (detach prev p q) y

next-detach :
    (prev : Option ℕ) (p : ℕ) (q : Queue) (y : ℕ)
    → next_of (detach prev p q) y ≡ (if points_to prev y then next_of q p else next_of q y)
unfolding detach update
next-detach none p q y = refl
next-detach (some b) p q y = ground arith

head-detach :
    (prev : Option ℕ) (p : ℕ) (q : Queue)
    → (detach prev p q).head ≡ or_head q.head prev (next_of q p)
unfolding detach
head-detach none p q = refl
head-detach (some b) p q = refl

others-detach :
    (prev : Option ℕ) (p : ℕ) (q : Queue) (x : ℕ)
    → (((detach prev p q).entries x).text ≡ (q.entries x).text)
      × (((detach prev p q).entries x).kind ≡ (q.entries x).kind)
unfolding detach update
others-detach none p q x = (refl, refl)
others-detach (some b) p q x = ground arith

count-detach : (prev : Option ℕ) (p : ℕ) (q : Queue) → (detach prev p q).count ≡ pred_ℤ q.count
unfolding detach
count-detach none p q = refl
count-detach (some b) p q = refl

Distinct-remove :
    (ys : List ℕ) (p : ℕ) (ws : List ℕ) → Distinct (ys ++ p ∷ ws) → Distinct (ys ++ ws)
Distinct-remove [] p ws d = d.1
Distinct-remove (y ∷ ys) p ws d =
    (ground (arith, has-append y ys (p ∷ ws), has-append y ys ws, d.0), Distinct-remove ys p ws d.1)

removed_out :
    (ys : List ℕ) (p : ℕ) (ws : List ℕ) → Distinct (ys ++ p ∷ ws) → has p (ys ++ ws) ≡ false
removed_out [] p ws d = d.0
removed_out (y ∷ ys) p ws d = ground (arith, has-append y ys (p ∷ ws), d.0, removed_out ys p ws d.1)

tail_first :
    (p : ℕ) (q : Queue) (ws : List ℕ)
    → Chain (next_of q) (next_of q p) ws
    → q.tail ≡ last_or none (p ∷ ws)
    → (detach none p q).tail ≡ last_or none ws
unfolding detach
tail_first p q [] c t = rw c refl
tail_first p q (w ∷ ws) c t = rw c.0 t

tail_behind :
    (b p : ℕ) (q : Queue)
    → (detach (some b) p q).tail ≡ (if points_to q.tail p then some b else q.tail)
unfolding detach
tail_behind b p q = refl

module _ (p : ℕ) (q : Queue) (ys ws : List ℕ) (h : Holds q (ys ++ p ∷ ws)) where
  abbrev prev : Option ℕ
  prev = last_or none ys

  detach-Chain : Chain (next_of (detach prev p q)) (detach prev p q).head (ys ++ ws)
  unfolding cleared
  detach-Chain = rw (head-detach prev p q) (
      frame (cleared prev p q) (next_of (detach prev p q)) (or_head q.head prev (next_of q p))
        (ys ++ ws)
        (unlink-Chain (next_of q) (cleared prev p q) q.head p ys ws h.chain h.distinct
          (λ y. ap (λ v. if p == y then none else v) (next-detach prev p q y)))
        (λ y i. ground (arith, not_equal y p (ys ++ ws) i (removed_out ys p ws h.distinct))))

detach-last :
    (p : ℕ) (q : Queue) (ys ws : List ℕ)
    → Holds q (ys ++ p ∷ ws)
    → (detach (last_or none ys) p q).tail ≡ last_or none (ys ++ ws)
detach-last p q [] ws h = tail_first p q ws h.chain.1 h.last
detach-last p q (y ∷ ys) ws h =
    let (b, e, _, _) = last_of y ys in
    let moved : (if points_to q.tail p then some b else q.tail) ≡ last_or none (y ∷ ys ++ ws) =
      ap₂ (λ v o. if points_to v p then o else v) h.last (sym e)
      ∙ unlink-tail p (y ∷ ys) ws h.distinct in
    ap (λ o. (detach o p q).tail) e ∙ tail_behind b p q ∙ moved

detach-Detached :
    (p : ℕ) (q : Queue) (ys ws : List ℕ)
    → Holds q (ys ++ p ∷ ws)
    → Detached p q (ys ++ ws) (detach (last_or none ys) p q)
detach-Detached p q ys ws h = record {
  holds = record {
    chain = detach-Chain p q ys ws h;
    last = detach-last p q ys ws h;
    distinct = Distinct-remove ys p ws h.distinct;
  };
  others = others-detach (last_or none ys) p q;
  count = count-detach (last_or none ys) p q;
}

-- How a turn of `sys_msgrcv` ends for a buffer of `n` bytes: no entry is wanted and the receiver
-- waits, or the first wanted entry `p` is taken out, and its type and its first `n` bytes, or all
-- if there are fewer, are handed over.
abbrev pub Turned : ℤ → ℕ → Queue → List ℕ → Received → Type 0
Turned kind n q xs out =
    (Unwanted (fits_kind kind q) xs × (out ≡ waits))
    ⊎ ((ys : List ℕ) × (p : ℕ) × (ws : List ℕ) × (r : Queue) × (xs ≡ ys ++ p ∷ ws)
        × Unwanted (fits_kind kind q) ys
        × (fits_kind kind q p ≡ true)
        × (out ≡ took (q.entries p).kind (take n (q.entries p).text) r)
        × Detached p q (ys ++ ws) r)

-- `copy_len` bytes are the first `n`, or all.
take_all : (n : ℕ) (l : List ℕ) → (if ltb n (length l) then take n l else l) ≡ take n l
take_all zero [] = refl
take_all zero (x ∷ l) = ground arith
take_all (suc n) [] = ground arith
take_all (suc n) (x ∷ l) = ground (arith, take_all n l)

-- A turn of `sys_msgrcv` on a queue of entries, with more fuel than there are entries and a buffer
-- of `n` bytes, waits when no entry has the wanted type (0 wants any), and otherwise takes out the
-- oldest entry that has: it hands over its type and the bytes that find room, all other entries
-- stand as before, in order, and the count goes down by one.
pub msgrcv_turn-Turned :
    (fuel : ℕ) (kind : ℤ) (n : ℕ) (q : Queue) (xs : List ℕ)
    → Holds q xs
    → length xs < fuel
    → Turned kind n q xs (msgrcv_turn fuel kind (pos n) q)
unfolding msgrcv_turn
msgrcv_turn-Turned fuel kind n q xs h enough =
    let test = fits_kind kind q in
    let walked = walk-before test (next_of q) fuel none q.head xs h.chain enough in
    elim (from_first-cases test xs) [
      | inl (f, b) ↦ inl (
        subst (λ l. Unwanted test l) b (before-Unwanted test xs),
        rw (walked, f, msgrcv_turn) refl,
      )
      | inr (p, back, f, w) ↦
          let whole : xs ≡ before test xs ++ p ∷ back =
            sym (before-append-from_first test xs) ∙ ap (λ l. before test xs ++ l) f in
          inr (
            before test xs,
            p,
            back,
            detach (last_or none (before test xs)) p q,
            whole,
            before-Unwanted test xs,
            w,
            rw (walked, f, msgrcv_turn)
                (ap (λ t. took (q.entries p).kind t (detach (last_or none (before test xs)) p q))
                  (take_all n (q.entries p).text)),
            detach-Detached p q (before test xs) back (subst (λ l. Holds q l) whole h),
          )
    ]
