-- ===== src/Sync/WaitQueue.antt =====
-- kernel/sync/waitqueue.c: wait queues, as the list of the sleeping processes, the longest first.
use rucix_kernel.Common.{ℕ, List, [], ◌∷◌}

-- What `wake_up` leaves in a wait queue: the first sleeper is made ready.
abbrev pub wake_up : List ℕ → List ℕ
wake_up [] = []
wake_up (p ∷ ps) = ps
