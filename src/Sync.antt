-- ===== src/Sync.antt =====
-- kernel/sync/waitqueue.c: semaphores, mutexes, barriers and read-write locks.
pub mod Locks
pub mod WaitQueue
pub mod RtMutex
pub mod Spin
