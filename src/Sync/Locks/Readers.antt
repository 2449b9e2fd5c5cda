-- ===== src/Sync/Locks/Readers.antt =====
-- kernel/sync/waitqueue.c: the read-write lock.
use rucix_kernel.Common.{
  ℕ, suc, ◌<◌, ◌≤◌, ◌≡◌, refl, ap, ap₂, sym, ◌∙◌, Bool, true, false, ◌&&◌, List, [], ◌∷◌, ◌++◌,
  arith, ◌==◌, if◌then◌else◌, length,
}
use mathlib.Core.Bool.{true≢false}
use rucix_kernel.Common.Int.{pos, pred_ℤ, suc_ℤ}
use rucix_kernel.Common.Chain.{has}
use rucix_kernel.Common.Chain.Unlink.{erase}
use rucix_kernel.Common.Steps.{Reachable, invariant}
use rucix_kernel.Sync.Locks.{
  granted, must_sleep, is_zero_ℤ, RwLock, rwlock_init, rwlock_read_lock, rwlock_read_unlock,
  rwlock_write_lock, rwlock_write_unlock,
}
use rucix_kernel.Sync.Locks.Exclusion.{granted_same, not_granted, pred_pos}

-- A read-write lock, the processes that read under it, and those that write.
pub record RwUse : Type 0 where
  pub lock : RwLock
  pub reading : List ℕ
  pub writing : List ℕ

-- A process takes the lock to read or to write, sleeps in the wait queue, or gives back what it took.
pub data RwStep : RwUse → RwUse → Type 0 where
  reads :
      (p : ℕ) (s : RwUse) (w : RwLock)
      → rwlock_read_lock s.lock ≡ granted w
      → RwStep s (record s { lock = w; reading = p ∷ s.reading })
  writes :
      (p : ℕ) (s : RwUse) (w : RwLock)
      → rwlock_write_lock s.lock ≡ granted w
      → RwStep s (record s { lock = w; writing = p ∷ s.writing })
  sleeps_to_read :
      (p : ℕ) (s : RwUse)
      → rwlock_read_lock s.lock ≡ must_sleep
      → RwStep s (record s { lock = record s.lock { read_wait = s.lock.read_wait ++ p ∷ [] } })
  sleeps_to_write :
      (p : ℕ) (s : RwUse)
      → rwlock_write_lock s.lock ≡ must_sleep
      → RwStep s (record s { lock = record s.lock { write_wait = s.lock.write_wait ++ p ∷ [] } })
  stops_reading :
      (p : ℕ) (s : RwUse)
      → has p s.reading ≡ true
      → RwStep s (record s { lock = rwlock_read_unlock s.lock; reading = erase p s.reading })
  stops_writing :
      (p : ℕ) (s : RwUse)
      → has p s.writing ≡ true
      → RwStep s (record s { lock = rwlock_write_unlock s.lock; writing = erase p s.writing })

-- The counters count, there is at most one writer, and beside it no reader.
pub record Separate (s : RwUse) : Type 0 where
  pub readers : s.lock.readers ≡ pos (length s.reading)
  pub writers : s.lock.writers ≡ pos (length s.writing)
  pub single : length s.writing ≤ 1
  pub alone : 0 < length s.writing → length s.reading ≡ 0

length-erase : (p : ℕ) (xs : List ℕ) → has p xs ≡ true → suc (length (erase p xs)) ≡ length xs
length-erase p [] h = ground arith
length-erase p (x ∷ xs) h = ground (arith, length-erase p xs)

if_granted :
    (v : Bool) (a b : RwLock)
    → (if v then granted a else must_sleep) ≡ granted b
    → (v ≡ true) × (a ≡ b)
if_granted true a b h = (refl, granted_same (granted a) a b refl h)
if_granted false a b h = absurd (true≢false (not_granted must_sleep b refl h))

zero_of : (n : ℕ) → (n == 0) ≡ true → n ≡ 0
zero_of n h = ground arith

-- What a turn of `rwlock_read_lock` that gets the lock found, and what it leaves.
read_granted :
    (w v : RwLock) (n : ℕ)
    → w.writers ≡ pos n
    → rwlock_read_lock w ≡ granted v
    → (n ≡ 0) × (v.readers ≡ suc_ℤ w.readers) × (v.writers ≡ w.writers)
unfolding rwlock_read_lock
read_granted w v n e h =
    let (free, same) =
      if_granted (is_zero_ℤ w.writers) (record w { readers = suc_ℤ w.readers }) v h in
    (
      zero_of n (sym (ap is_zero_ℤ e) ∙ free),
      ap (λ x. x.readers) (sym same),
      ap (λ x. x.writers) (sym same),
    )

write_granted :
    (w v : RwLock) (n k : ℕ)
    → w.writers ≡ pos n
    → w.readers ≡ pos k
    → rwlock_write_lock w ≡ granted v
    → (n ≡ 0) × (k ≡ 0) × (v.readers ≡ w.readers) × (v.writers ≡ pos 1)
unfolding rwlock_write_lock
write_granted w v n k e f h =
    let (free, same) =
      if_granted (is_zero_ℤ w.writers && is_zero_ℤ w.readers) (record w { writers = pos 1 }) v h in
    let both : ((n == 0) && (k == 0)) ≡ true =
      sym (ap₂ (λ x y. is_zero_ℤ x && is_zero_ℤ y) e f) ∙ free in
    (ground arith, ground arith, ap (λ x. x.readers) (sym same), ap (λ x. x.writers) (sym same))

step-Separate : (s t : RwUse) → RwStep s t → Separate s → Separate t
unfolding rwlock_read_unlock rwlock_write_unlock
step-Separate s t (reads p u w h) v =
    let (none_writes, more, same) = read_granted u.lock w (length u.writing) v.writers h in
    record {
      readers = more ∙ ap suc_ℤ v.readers;
      writers = same ∙ v.writers;
      single = v.single;
      alone = λ some_writes. absurd (omega arith);
    }
step-Separate s t (writes p u w h) v =
    let (none_writes, none_reads, same, one) =
      write_granted u.lock w (length u.writing) (length u.reading) v.writers v.readers h in
    record {
      readers = same ∙ v.readers;
      writers = one ∙ ap pos (omega arith);
      single = omega arith;
      alone = λ some_writes. none_reads;
    }
step-Separate s t (sleeps_to_read p u h) v = record {
  readers = v.readers;
  writers = v.writers;
  single = v.single;
  alone = v.alone;
}
step-Separate s t (sleeps_to_write p u h) v = record {
  readers = v.readers;
  writers = v.writers;
  single = v.single;
  alone = v.alone;
}
step-Separate s t (stops_reading p u h) v =
    let fewer = length-erase p u.reading h in
    record {
      readers =
          ap pred_ℤ v.readers ∙ pred_pos (length u.reading) (omega arith) ∙ ap pos (omega arith);
      writers = v.writers;
      single = v.single;
      alone = λ some_writes. let none_reads = v.alone some_writes in omega arith;
    }
step-Separate s t (stops_writing p u h) v =
    let fewer = length-erase p u.writing h in
    let single = v.single in
    record {
      readers = v.readers;
      writers = ap pos (omega arith);
      single = omega arith;
      alone = λ some_writes. absurd (omega arith);
    }

-- However processes take, sleep on and give back a read-write lock that `rwlock_init` has set up, and
-- only give back what they hold, there is never more than one writer, no reader beside a writer, and
-- the counters count the readers and the writers.
pub Reachable-Separate :
    (s : RwUse)
    → Reachable RwStep (record { lock = rwlock_init; reading = []; writing = [] }) s
    → Separate s
unfolding rwlock_init
Reachable-Separate s r =
    invariant RwStep Separate (record { lock = rwlock_init; reading = []; writing = [] })
      (record { readers = refl; writers = refl; single = omega arith; alone = λ h. refl })
      step-Separate s r
