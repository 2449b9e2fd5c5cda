-- ===== src/Ipc/Msg/Tests.antt =====
-- kernel/ipc/msg.c: runs on concrete queues.
use rucix_kernel.Common.{
  ℕ, ◌≤◌, ◌<◌, ◌≡◌, refl, true, none, some, [], ◌∷◌, arith, tabulate, ◌==◌, if◌then◌else◌,
}
use rucix_kernel.Common.Int.{pos}
use rucix_kernel.Common.Chain.{update, walk}
use rucix_kernel.Ipc.Msg.{
  Entry, Queue, failed, sent, msgsnd, msg_size, msgrcv_turn, took, detach, new_queue, msgget, Table,
}
use rucix_kernel.Ipc.Msg.Send.{Holds, Linked, msgsnd-Linked}
use rucix_kernel.Ipc.Msg.Lookup.{IsTable, Found, msgget-Found}
use rucix_kernel.Ipc.Msg.Receive.{Turned, msgrcv_turn-Turned}

-- Entries at 8, 16 and 24, of the types 1, 2 and 1.
abbrev oldest : Entry
oldest = record { kind = pos 1; text = 11 ∷ 12 ∷ []; next = some 16 }

abbrev middle : Entry
middle = record { kind = pos 2; text = 21 ∷ 22 ∷ 23 ∷ []; next = some 24 }

abbrev newest : Entry
newest = record { kind = pos 1; text = 31 ∷ []; next = none }

abbrev entry : ℕ → Entry
entry x = if x == 8 then oldest else if x == 16 then middle else newest

abbrev three : Queue
three = record {
  id = pos 1;
  key = pos 7;
  entries = entry;
  head = some 8;
  tail = some 24;
  count = pos 3;
  cond_recv = 2 ∷ 5 ∷ [];
}

three-Holds : Holds three (8 ∷ 16 ∷ 24 ∷ [])
three-Holds = record {
  chain = (refl, (refl, (refl, refl)));
  last = refl;
  distinct = (refl, (refl, (refl, tt)));
}

-- The second entry is the first of type 2; two of its three bytes find room.
second : (q : Queue) × (msgrcv_turn 4 (pos 2) (pos 2) three ≡ took (pos 2) (21 ∷ 22 ∷ []) q)
unfolding msgrcv_turn walk detach update
second = (_, refl)

msgrcv_turn-Turned_example :
    Turned (pos 2) 2 three (8 ∷ 16 ∷ 24 ∷ []) (msgrcv_turn 4 (pos 2) (pos 2) three)
msgrcv_turn-Turned_example =
    msgrcv_turn-Turned 4 (pos 2) 2 three (8 ∷ 16 ∷ 24 ∷ []) three-Holds (omega arith)

msgsnd-Linked_example :
    (3 ≤ msg_size
      → (r : Queue) × (msgsnd (some 32) (pos 5) (λ i. i) (pos 3) three ≡ sent r (2 ∷ 5 ∷ []))
        × Linked 32
            (record { kind = pos 5; text = tabulate 3 (λ i. i); next = none })
            three
            (8 ∷ 16 ∷ 24 ∷ [])
            r
        × (r.cond_recv ≡ []))
    × (msg_size < 3 → msgsnd (some 32) (pos 5) (λ i. i) (pos 3) three ≡ failed)
    × (msgsnd none (pos 5) (λ i. i) (pos 3) three ≡ failed)
msgsnd-Linked_example =
    msgsnd-Linked 32 (pos 5) (λ i. i) 3 three (8 ∷ 16 ∷ 24 ∷ []) three-Holds refl

abbrev one_queue : Table
one_queue = record { queues = new_queue (pos 1) (pos 7) ∷ []; next_id = pos 2 }

one_queue-IsTable : IsTable one_queue
one_queue-IsTable = record { next = 2; numbered = refl; below = (1, refl, omega arith, tt) }

msgget-Found_run : Found (pos 9) one_queue (msgget true (pos 9) one_queue)
msgget-Found_run = msgget-Found (pos 9) one_queue one_queue-IsTable
