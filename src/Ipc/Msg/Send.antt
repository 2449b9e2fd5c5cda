-- ===== src/Ipc/Msg/Send.antt =====
-- kernel/ipc/msg.c: `sys_msgsnd` against a list of entries.
use rucix_kernel.Common.{
  ℕ, ◌≤◌, ◌<◌, ◌≡◌, refl, ap, sym, ◌∙◌, subst, true, false, Option, none, some, List, [], ◌∷◌, ◌++◌,
  arith, ◌==◌, if◌then◌else◌, tabulate, inl, inr, Bool-cases, ==_iff,
}
use mathlib.Core.List.{append-nil}
use mathlib.Core.Bool.{true≢false}
use rucix_kernel.Common.Int.{ℤ, pos, suc_ℤ}
use rucix_kernel.Common.Chain.{
  update, has, Distinct, Chain, last_or, is_last, splice, Distinct-snoc, last_of, last_or-snoc,
}
use rucix_kernel.Ipc.Msg.{Entry, Queue, failed, sent, link, cond_broadcast, msgsnd, msg_size}

pub not_equal : (y p : ℕ) (xs : List ℕ) → has y xs ≡ true → has p xs ≡ false → (y == p) ≡ false
not_equal y p xs i o = elim (Bool-cases (y == p)) [
  | inl e ↦ absurd (true≢false (sym i ∙ ap (λ x. has x xs) ((==_iff y p).0 e) ∙ o))
  | inr n ↦ n
]

abbrev pub next_of : Queue → ℕ → Option ℕ
next_of q x = (q.entries x).next

-- The queue holds the entries `xs`, the oldest first.
pub record Holds (q : Queue) (xs : List ℕ) : Type 0 where
  pub chain : Chain (next_of q) q.head xs
  pub last : q.tail ≡ last_or none xs
  pub distinct : Distinct xs

-- What `link` promises: the entry stands behind all others and holds the message, and the others
-- hold what they held.
pub record Linked (p : ℕ) (e : Entry) (q : Queue) (xs : List ℕ) (r : Queue) : Type 0 where
  pub holds : Holds r (xs ++ p ∷ [])
  pub text : (r.entries p).text ≡ e.text
  pub kind : (r.entries p).kind ≡ e.kind
  pub others :
      (x : ℕ)
      → has x xs ≡ true
      → ((r.entries x).text ≡ (q.entries x).text) × ((r.entries x).kind ≡ (q.entries x).kind)
  pub count : r.count ≡ suc_ℤ q.count

abbrev pub no_receivers : Queue → Queue
no_receivers q = record q { cond_recv = [] }

link_empty :
    (p : ℕ) (e : Entry) (q : Queue) → Holds q [] → e.next ≡ none → Linked p e q [] (link p e q)
unfolding link update
link_empty p e q h f = rw (h.last) (record {
  holds = record { chain = (refl, ground arith); last = refl; distinct = (refl, tt) };
  text = ground arith;
  kind = ground arith;
  others = λ x i. ground arith;
  count = refl;
})

abbrev behind : ℕ → ℕ → Entry → Queue → Queue
behind t p e q = record q {
  entries = update (update q.entries p e) t (record (update q.entries p e t) { next = some p });
  tail = some p;
  count = suc_ℤ q.count;
}

link-behind : (p t : ℕ) (e : Entry) (q : Queue) → q.tail ≡ some t → link p e q ≡ behind t p e q
unfolding link
link-behind p t e q h = rw (h, link) refl

next-behind :
    (p t : ℕ) (e : Entry) (q : Queue) (y : ℕ)
    → next_of (behind t p e q) y
      ≡ (if t == y then some p else if p == y then e.next else next_of q y)
unfolding update
next-behind p t e q y = ground arith

-- What is not `next` of an entry that is not new is as before.
kept-behind :
    (p t : ℕ) (e : Entry) (q : Queue) (y : ℕ)
    → (p == y) ≡ false
    → (((behind t p e q).entries y).text ≡ (q.entries y).text)
      × (((behind t p e q).entries y).kind ≡ (q.entries y).kind)
unfolding update
kept-behind p t e q y n = ground arith

new-behind :
    (p t : ℕ) (e : Entry) (q : Queue)
    → (t == p) ≡ false
    → (((behind t p e q).entries p).text ≡ e.text) × (((behind t p e q).entries p).kind ≡ e.kind)
unfolding update
new-behind p t e q n = ground arith

behind-Linked :
    (p t : ℕ) (e : Entry) (q : Queue) (x : ℕ) (xs : List ℕ)
    → Holds q (x ∷ xs)
    → has p (x ∷ xs) ≡ false
    → e.next ≡ none
    → ((y : ℕ) → is_last y (x ∷ xs) ≡ (y == t))
    → has t (x ∷ xs) ≡ true
    → Linked p e q (x ∷ xs) (behind t p e q)
behind-Linked p t e q x xs h out f is mem =
    let apart : (t == p) ≡ false = not_equal t p (x ∷ xs) mem out in
    record {
      holds = record {
        chain =
            splice (next_of q) (next_of (behind t p e q)) q.head (some p) (x ∷ xs) [] (p ∷ [])
              (rw append-nil h.chain) h.distinct
              (λ y i. ground (arith, next-behind p t e q y, is y, not_equal y p (x ∷ xs) i out))
              (refl, ground (arith, next-behind p t e q p, apart));
        last = sym (last_or-snoc none (x ∷ xs) p);
        distinct = Distinct-snoc (x ∷ xs) p h.distinct out;
      };
      text = (new-behind p t e q apart).0;
      kind = (new-behind p t e q apart).1;
      others = λ y i. kept-behind p t e q y (ground (arith, not_equal y p (x ∷ xs) i out));
      count = refl;
    }

link-Linked :
    (p : ℕ) (e : Entry) (q : Queue) (xs : List ℕ)
    → Holds q xs
    → has p xs ≡ false
    → e.next ≡ none
    → Linked p e q xs (link p e q)
link-Linked p e q [] h out f = link_empty p e q h f
link-Linked p e q (x ∷ xs) h out f =
    let (t, last, is, mem) = last_of x xs in
    subst (λ r. Linked p e q (x ∷ xs) r) (sym (link-behind p t e q (h.last ∙ last)))
      (behind-Linked p t e q x xs h out f is mem)

link-cond_recv : (p : ℕ) (e : Entry) (q : Queue) → (link p e q).cond_recv ≡ q.cond_recv
unfolding link
link-cond_recv p e q = ground arith

no_receivers-Linked :
    (p : ℕ) (e : Entry) (q : Queue) (xs : List ℕ) (r : Queue)
    → Linked p e q xs r
    → Linked p e q xs (no_receivers r)
no_receivers-Linked p e q xs r l = record {
  holds = record { chain = l.holds.chain; last = l.holds.last; distinct = l.holds.distinct };
  text = l.text;
  kind = l.kind;
  others = l.others;
  count = l.count;
}

broadcast-link :
    (p : ℕ) (e : Entry) (q : Queue)
    → cond_broadcast (link p e q) ≡ sent (no_receivers (link p e q)) q.cond_recv
unfolding cond_broadcast
broadcast-link p e q = ap (sent (no_receivers (link p e q))) (link-cond_recv p e q)

-- `sys_msgsnd` of at most 1024 bytes, with memory for an entry that is in no queue, appends the
-- message: its entry holds the type and the bytes, the entries before it stand and hold what they
-- held, in order, and the count goes up by one. It wakes all receivers that sleep on the queue, which
-- are then in its wait queue no longer. More than 1024 bytes, or no memory, is an error and changes
-- nothing.
pub msgsnd-Linked :
    (p : ℕ) (kind : ℤ) (text : ℕ → ℕ) (n : ℕ) (q : Queue) (xs : List ℕ)
    → Holds q xs
    → has p xs ≡ false
    → (n ≤ msg_size
        → (r : Queue) × (msgsnd (some p) kind text (pos n) q ≡ sent r q.cond_recv)
          × Linked p (record { kind = kind; text = tabulate n text; next = none }) q xs r
          × (r.cond_recv ≡ []))
      × (msg_size < n → msgsnd (some p) kind text (pos n) q ≡ failed)
      × (msgsnd none kind text (pos n) q ≡ failed)
unfolding msgsnd
msgsnd-Linked p kind text n q xs h out =
    let e : Entry = record { kind = kind; text = tabulate n text; next = none } in
    (
      λ le. (
        no_receivers (link p e q),
        ground (arith, broadcast-link p e q),
        no_receivers-Linked p e q xs (link p e q) (link-Linked p e q xs h out refl),
        refl,
      ),
      λ gt. ground arith,
      refl,
    )
