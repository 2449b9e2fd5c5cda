-- ===== src/Sync/Locks/Tests.antt =====
-- kernel/sync/waitqueue.c: runs of the locks.
use rucix_kernel.Common.{◌≡◌, refl, true, false, some, [], ◌∷◌, ◌-◌, ◌==◌, if◌then◌else◌}
use rucix_kernel.Common.Int.{pos}
use rucix_kernel.Common.Chain.{update}
use rucix_kernel.Common.Steps.{begin, go}
use rucix_kernel.Sync.Locks.{
  granted, must_sleep, mutex_init, mutex_lock, mutex_unlock, inherited, sem_init, sem_wait,
  sem_post, rwlock_init, rwlock_read_lock, rwlock_write_lock, barrier_init, barrier_wait,
  barrier_sleep,
}
use rucix_kernel.Sync.Locks.Exclusion.{
  MutexUse, MutexStep, locks, unlocks, Exclusive, Reachable-Exclusive,
}
use rucix_kernel.Sync.Locks.Readers.{RwUse, RwStep, reads, Separate, Reachable-Separate}
use rucix_kernel.Sync.Locks.Rendezvous.{gather, gather-passes, late_sleeper}

-- Process 5 locks the mutex twice, and process 6 has to sleep.
abbrev start : MutexUse
start = record { mutex = mutex_init; holds = λ p. 0 }

abbrev once : MutexUse
once = record {
  mutex = record { owner = some 5; recurse_count = pos 1; sleepers = [] };
  holds = update (λ p. 0) 5 1;
}

locked_once : MutexStep start (record { mutex = once.mutex; holds = update (λ p. 0) 5 1 })
unfolding mutex_init mutex_lock
locked_once = locks 5 start once.mutex refl

six_waits : mutex_lock 6 once.mutex ≡ must_sleep
unfolding mutex_lock
six_waits = refl

six_lends : inherited (λ p. if p == 6 then pos 1 else pos 3) 6 once.mutex ≡ some (5, pos 1)
unfolding inherited
six_lends = refl

Reachable-Exclusive_example :
    Exclusive
      (record { mutex = mutex_unlock 5 once.mutex; holds = update once.holds 5 (once.holds 5 - 1) })
Reachable-Exclusive_example =
    Reachable-Exclusive
      (record { mutex = mutex_unlock 5 once.mutex; holds = update once.holds 5 (once.holds 5 - 1) })
      (go {c = once} (go {c = start} begin locked_once) (unlocks 5 once))

abbrev nobody : RwUse
nobody = record { lock = rwlock_init; reading = []; writing = [] }

abbrev one_reader : RwUse
one_reader = record {
  lock = record { readers = pos 1; writers = pos 0; read_wait = []; write_wait = [] };
  reading = 5 ∷ [];
  writing = [];
}

reader_enters : RwStep nobody one_reader
unfolding rwlock_init rwlock_read_lock
reader_enters = reads 5 nobody one_reader.lock refl

writer_waits : rwlock_write_lock one_reader.lock ≡ must_sleep
unfolding rwlock_write_lock
writer_waits = refl

Reachable-Separate_example : Separate one_reader
Reachable-Separate_example = Reachable-Separate one_reader (go {c = nobody} begin reader_enters)

posted : sem_wait (sem_post (sem_init (pos 0))) ≡ granted (sem_init (pos 0))
unfolding sem_wait sem_post sem_init
posted = refl

gather-passes_run :
    ((gather (4 ∷ 9 ∷ []) (barrier_init (pos 3))).sleepers ≡ 4 ∷ 9 ∷ [])
    × (barrier_wait (gather (4 ∷ 9 ∷ []) (barrier_init (pos 3))) ≡ (barrier_init (pos 3), true))
gather-passes_run = gather-passes (4 ∷ 9 ∷ [])

late_sleeper_run :
    let first = barrier_wait (barrier_init (pos 2)) in
    let second = barrier_wait first.0 in
    (first.1 ≡ false)
    × (second.1 ≡ true)
    × ((barrier_sleep 4 second.0).sleepers ≡ 4 ∷ [])
    × ((barrier_sleep 4 second.0).current ≡ pos 0)
unfolding barrier_init
late_sleeper_run = late_sleeper (barrier_init (pos 2)) 0 4 refl refl
