-- ===== src/Ipc/Msg.antt =====
-- kernel/ipc/msg.c: message queues.
pub mod Send
pub mod Receive
pub mod Lookup
mod Tests
use rucix_kernel.Common.{
  ℕ, zero, suc, ◌+◌, Bool, true, false, ◌||◌, not, Option, none, some, List, [], ◌∷◌, ltb, ◌==◌,
  if◌then◌else◌, tabulate, take, length,
}
use rucix_kernel.Common.Int.{ℤ, pos, negsuc, pred_ℤ, suc_ℤ, ltb_ℤ}
use rucix_kernel.Common.Chain.{update, walk}
use rucix_kernel.Common.Chain.Unlink.{points_to}

-- `msg_entry_t`. `text` holds the first `size` bytes of `data`.
pub record Entry : Type 0 where
  pub kind : ℤ
  pub text : List ℕ
  pub next : Option ℕ

-- `msg_queue_t`, with the entries by their address; `cond_recv` holds the receivers that sleep on it, the
-- longest first. The locks and the link to the next queue are left out.
pub record Queue : Type 0 where
  pub id : ℤ
  pub key : ℤ
  pub entries : ℕ → Entry
  pub head : Option ℕ
  pub tail : Option ℕ
  pub count : ℤ
  pub cond_recv : List ℕ

abbrev pub equal_ℤ : ℤ → ℤ → Bool
equal_ℤ (pos a) (pos b) = a == b
equal_ℤ (pos a) (negsuc b) = false
equal_ℤ (negsuc a) (pos b) = false
equal_ℤ (negsuc a) (negsuc b) = a == b

-- `MSG_SIZE`
abbrev pub msg_size : ℕ
msg_size = 1024

-- What a call does: it returns -1, it returns with the receivers that it has woken, or it copies a negative
-- number of bytes, which `memcpy` takes for a very large one.
pub data Sent : Type 0 where
  failed : Sent
  sent : Queue → List ℕ → Sent
  overrun : Sent

-- The entry is linked behind the last one.
unfoldable pub link : ℕ → Entry → Queue → Queue
link p e q = elim q.tail [
  | none ↦ record q {
    entries = update q.entries p e;
    head = some p;
    tail = some p;
    count = suc_ℤ q.count;
  }
  | some t ↦
      let entries = update q.entries p e in
      record q {
        entries = update entries t (record (entries t) { next = some p });
        tail = some p;
        count = suc_ℤ q.count;
      }
]

-- `cond_broadcast(&q->cond_recv)`: everyone who sleeps leaves the wait queue.
unfoldable pub cond_broadcast : Queue → Sent
cond_broadcast q = sent (record q { cond_recv = [] }) q.cond_recv

-- `sys_msgsnd` behind the lookup of the queue. `slot` is what `kmalloc` returns, `text` the sender's
-- memory.
unfoldable pub msgsnd : Option ℕ → ℤ → (ℕ → ℕ) → ℤ → Queue → Sent
msgsnd none kind text size q = failed
msgsnd (some p) kind text (pos n) q =
    if ltb msg_size n
    then failed
    else cond_broadcast (link p (record { kind = kind; text = tabulate n text; next = none }) q)
msgsnd (some p) kind text (negsuc n) q = overrun

-- `msgtyp == 0 || curr->type == msgtyp`
abbrev pub wants : ℤ → Entry → Bool
wants kind e = equal_ℤ kind (pos 0) || equal_ℤ e.kind kind

-- The entry `p` behind `prev` leaves the queue.
unfoldable pub detach : Option ℕ → ℕ → Queue → Queue
detach none p q =
    let head = (q.entries p).next in
    let tail : Option ℕ = elim head [ none ↦ none | some _ ↦ q.tail ] in
    record q { head = head; tail = tail; count = pred_ℤ q.count }
detach (some b) p q = record q {
  entries = update q.entries b (record (q.entries b) { next = (q.entries p).next });
  tail = if points_to q.tail p then some b else q.tail;
  count = pred_ℤ q.count;
}

-- How one turn of the loop of `sys_msgrcv` ends: with the entry's type and the bytes copied, in
-- `cond_wait`, with a copy of a negative number of bytes, or without fuel for the walk.
pub data Received : Type 0 where
  took : ℤ → List ℕ → Queue → Received
  waits : Received
  overruns : Received
  out_of_fuel : Received

-- `min(size, msgsz)` bytes of the text
abbrev pub copy_out : Entry → ℤ → Queue → Received
copy_out e (pos n) q = took e.kind (if ltb n (length e.text) then take n e.text else e.text) q
copy_out e (negsuc n) q = overruns

-- One turn of the loop of `sys_msgrcv`, with fuel for the walk along the queue.
unfoldable pub msgrcv_turn : ℕ → ℤ → ℤ → Queue → Received
msgrcv_turn fuel kind size q =
    elim (walk (λ x. wants kind (q.entries x)) (λ x. (q.entries x).next) fuel none q.head) [
      | none ↦ out_of_fuel
      | some (prev, none) ↦ waits
      | some (prev, some p) ↦ copy_out (q.entries p) size (detach prev p q)
    ]

-- `find_queue` and `find_queue_key` on the list of queues, the newest first
abbrev pub find_by : (Queue → Bool) → List Queue → Option Queue
find_by test [] = none
find_by test (q ∷ qs) = if test q then some q else find_by test qs

abbrev pub find_queue : ℤ → List Queue → Option Queue
find_queue id qs = find_by (λ q. equal_ℤ q.id id) qs

abbrev pub find_queue_key : ℤ → List Queue → Option Queue
find_queue_key key qs = find_by (λ q. equal_ℤ q.key key) qs

-- `queues` and `next_id`
pub record Table : Type 0 where
  pub queues : List Queue
  pub next_id : ℤ

abbrev nothing : Entry
nothing = record { kind = pos 0; text = []; next = none }

abbrev pub new_queue : ℤ → ℤ → Queue
new_queue id key = record {
  id = id;
  key = key;
  entries = λ x. nothing;
  head = none;
  tail = none;
  count = pos 0;
  cond_recv = [];
}

-- `sys_msgget`. `room` says whether `kmalloc` succeeds; the result is the identifier, `none` for -1.
unfoldable pub msgget : Bool → ℤ → Table → Option ℤ × Table
msgget room key t = elim (find_queue_key key t.queues) [
  | some q ↦ (some q.id, t)
  | none ↦
      let added = record t {
        queues = new_queue t.next_id key ∷ t.queues;
        next_id = suc_ℤ t.next_id;
      } in
      if room then (some t.next_id, added) else (none, t)
]
