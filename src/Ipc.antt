-- ===== src/Ipc.antt =====
-- kernel/ipc: pipes, message queues, shared memory and signals.
pub mod Pipe
pub mod Msg
pub mod Shm
pub mod Signal
