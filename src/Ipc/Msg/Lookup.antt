-- ===== src/Ipc/Msg/Lookup.antt =====
-- kernel/ipc/msg.c: `sys_msgget` and the lookup of a queue.
use rucix_kernel.Common.{
  ℕ, suc, ◌<◌, ◌≡◌, refl, ap, ap₂, sym, ◌∙◌, subst, true, false, Option, none, some, List, [], ◌∷◌,
  arith, if◌then◌else◌, inl, inr, Bool-cases, Option-cases, ==_refl,
}
use rucix_kernel.Common.Int.{ℤ, pos, negsuc, suc_ℤ}
use mathlib.Core.Option.{some-injective}
use rucix_kernel.Ipc.Msg.{Queue, Table, equal_ℤ, find_queue, find_queue_key, new_queue, msgget}

-- The identifiers are numbers below `n`, the newest the largest.
abbrev pub Below : ℕ → List Queue → Type 0
Below n [] = Unit {0}
Below n (q ∷ qs) = ((i : ℕ) × (q.id ≡ pos i) × (i < n) × Below i qs)

pub record IsTable (t : Table) : Type 0 where
  pub next : ℕ
  pub numbered : t.next_id ≡ pos next
  pub below : Below next t.queues

-- What a call of `sys_msgget` promises: it returns an identifier by which the lookup finds a queue
-- with this key, the table stays well-formed, a second call returns the same and changes nothing,
-- and every identifier that was in use finds the queue that it found.
abbrev pub Found : ℤ → Table → Option ℤ × Table → Type 0
Found key t r =
    (id : ℤ) × (q : Queue) × (r.0 ≡ some id)
    × IsTable r.1
    × (find_queue id r.1.queues ≡ some q)
    × (q.key ≡ key)
    × (msgget true key r.1 ≡ (some id, r.1))
    × ((i : ℤ) (p : Queue) → find_queue i t.queues ≡ some p → find_queue i r.1.queues ≡ some p)

equal_same : (z : ℤ) → equal_ℤ z z ≡ true
equal_same (pos n) = ==_refl n
equal_same (negsuc n) = ==_refl n

equal_key : (a b : ℤ) → equal_ℤ a b ≡ true → a ≡ b
equal_key (pos a) (pos b) e = ap pos (ground arith)
equal_key (pos a) (negsuc b) e = ground arith
equal_key (negsuc a) (pos b) e = ground arith
equal_key (negsuc a) (negsuc b) e = ap negsuc (ground arith)

Below-find :
    (n : ℕ) (qs : List Queue) (i : ℤ) (p : Queue)
    → Below n qs
    → find_queue i qs ≡ some p
    → (k : ℕ) × (i ≡ pos k) × (k < n)
Below-find n [] i p b h = ground arith
Below-find n (q ∷ qs) i p (j, e, lt, b) h = elim (Bool-cases (equal_ℤ q.id i)) [
  | inl s ↦ (j, sym (equal_key q.id i s) ∙ e, lt)
  | inr s ↦
      let (k, f, l) =
        Below-find j qs i p b (ap (λ v. if v then some q else find_queue i qs) (sym s) ∙ h) in
      (k, f, omega arith)
]

first_found :
    (x : Queue) (qs : List Queue) (i : ℤ) → equal_ℤ x.id i ≡ true → find_queue i (x ∷ qs) ≡ some x
first_found x qs i e = ap (λ v. if v then some x else find_queue i qs) e

abbrev added : ℤ → Table → Table
added key t = record { queues = new_queue t.next_id key ∷ t.queues; next_id = suc_ℤ t.next_id }

msgget_old :
    (key : ℤ) (t : Table) (q : Queue)
    → find_queue_key key t.queues ≡ some q
    → msgget true key t ≡ (some q.id, t)
unfolding msgget
msgget_old key t q h = rw (h, msgget) refl

msgget_new :
    (key : ℤ) (t : Table)
    → find_queue_key key t.queues ≡ none
    → msgget true key t ≡ (some t.next_id, added key t)
unfolding msgget
msgget_new key t h = rw (h, msgget) refl

find_key :
    (n : ℕ) (key : ℤ) (qs : List Queue) (q : Queue)
    → Below n qs
    → find_queue_key key qs ≡ some q
    → (q.key ≡ key) × (find_queue q.id qs ≡ some q)
find_key n key [] q b h = ground arith
find_key n key (x ∷ qs) q (j, e, lt, b) h = elim (Bool-cases (equal_ℤ x.key key)) [
  | inl s ↦
      let same : Path Queue x q =
        some-injective x q (ap (λ v. if v then some x else find_queue_key key qs) (sym s) ∙ h) in
      subst (λ y. (y.key ≡ key) × (find_queue y.id (x ∷ qs) ≡ some y)) same
        (equal_key x.key key s, first_found x qs x.id (equal_same x.id))
  | inr s ↦
      let (named, found) =
        find_key j key qs q b (ap (λ v. if v then some x else find_queue_key key qs) (sym s) ∙ h) in
      let (k, f, l) = Below-find j qs q.id q b found in
      let differ : equal_ℤ x.id q.id ≡ false = ap₂ equal_ℤ e f ∙ ground arith in
      (named, ap (λ v. if v then some x else find_queue q.id qs) differ ∙ found)
]

Found-msgget_old :
    (key : ℤ) (t : Table) (q : Queue)
    → IsTable t
    → find_queue_key key t.queues ≡ some q
    → Found key t (some q.id, t)
Found-msgget_old key t q v h =
    let (named, found) = find_key v.next key t.queues q v.below h in
    (q.id, q, refl, v, found, named, msgget_old key t q h, λ i p f. f)

Found-msgget_new : (key : ℤ) (t : Table) → IsTable t → Found key t (some t.next_id, added key t)
Found-msgget_new key t v =
    let q = new_queue t.next_id key in
    (
      t.next_id,
      q,
      refl,
      record {
        next = suc v.next;
        numbered = ap suc_ℤ v.numbered;
        below = (v.next, v.numbered, omega arith, v.below);
      },
      first_found q t.queues t.next_id (equal_same t.next_id),
      refl,
      msgget_old key (added key t) q
          (ap (λ v. if v then some q else find_queue_key key t.queues) (equal_same key)),
      λ i p f.
          let (k, e, l) = Below-find v.next t.queues i p v.below f in
          let differ : equal_ℤ t.next_id i ≡ false = ap₂ equal_ℤ v.numbered e ∙ ground arith in
          ap (λ v. if v then some q else find_queue i t.queues) differ ∙ f,
    )

-- `sys_msgget` on a well-formed table, when memory is there, returns an identifier by which the
-- lookup finds a queue with the key asked for. The table stays well-formed; a second call with the
-- key returns the same identifier and changes nothing; and all identifiers in use find the queues
-- that they found.
pub msgget-Found : (key : ℤ) (t : Table) → IsTable t → Found key t (msgget true key t)
msgget-Found key t v = elim (Option-cases (find_queue_key key t.queues)) [
  | inr (q, e) ↦
      subst (λ r. Found key t r) (sym (msgget_old key t q e)) (Found-msgget_old key t q v e)
  | inl e ↦ subst (λ r. Found key t r) (sym (msgget_new key t e)) (Found-msgget_new key t v)
]
