-- ===== src/Lib.antt =====
-- Verification of the RucixOS kernel (kernel/), a hobby x86_64 kernel in C.
--
-- The kernel hands out physical pages by a bitmap (kernel/memory/pmm.c), carves its own objects
-- from a heap (kernel/memory/heap.c), schedules processes by two scheduler classes
-- (kernel/process/sched_mlfq.c, kernel/process/sched_fair.c), lets processes exchange bytes
-- through pipes (kernel/ipc/pipe.c) and messages through queues (kernel/ipc/msg.c), synchronises
-- them (kernel/sync/waitqueue.c), orders requests to block devices
-- (kernel/drivers/block/elevator.c) and checks system calls against a process's filter programs
-- (kernel/security/seccomp.c). Below them stand spin locks (kernel/sync/spinlock.c) and the string
-- routines (kernel/lib/string.c); pages go to a swap device and back (kernel/memory/swap.c), files
-- are cached in radix trees (kernel/lib/radix-tree.c, kernel/mm/page_cache.c), and processes get
-- signals (kernel/ipc/signal.c), share memory (kernel/ipc/shm.c), wait for real-time mutexes
-- (kernel/sync/rtmutex.c) and for timers (kernel/time/hrtimer.c). `heap_init` gets its pages from the page allocator; pipes and
-- filters live on the heap; a process that sleeps on a pipe's wait queue is enqueued again with
-- its scheduler class by `wake_up`.
--
-- Memory.Pmm models kernel/memory/pmm.c without `pmm_init`. `Pmm` holds the file's static
-- variables `bitmap`, `total_pages`, `free_memory` and `last_free_index`; the bitmap is the
-- memory from its address on, a byte at each offset, so that an index beyond `bitmap_size` reads
-- what lies there, as in the source. `set_bit`, `clear_page_bit` and `test_bit` are
-- `pmm_set_bit`, `pmm_clear_bit` and `pmm_test_bit`; `find_first_free`, `alloc_page_fuel`,
-- `alloc_pages_fuel`, `free_page` and `free_pages` are the functions with the prefix `pmm_`.
-- `uint64_t` arithmetic that may wrap is written `% 2 ^ 64`. Messages to the console are left
-- out. `pmm_alloc_page` calls itself after it has marked page 0: two rounds of fuel are enough.
-- The scan of `pmm_alloc_pages` goes up by a page or more each round: `total_pages + 2` rounds
-- are enough.
--
-- Process has the fields of `struct process` (kernel/include/process.h) that the schedulers use
-- and the schedulers' queues. A process is named by the address of its record. Process.Mlfq is
-- kernel/process/sched_mlfq.c and Process.Fair is kernel/process/sched_fair.c, one definition
-- for each function, under the function's name. The walks along a queue take fuel; more than the
-- length of the queue is enough. Signed fields are integers without overflow.
--
-- Memory.Heap models kernel/memory/heap.c: `Block` is `struct heap_block` and `Heap` the headers
-- in memory, by their address, with `free_list`. `kmalloc`, `kfree` and the last part of
-- `heap_init` are the functions of these names; `kmalloc_from` is the loop of `kmalloc`,
-- `split_block` and `take_block` its body, `merge_next` and `merge_prev` are the two merges of
-- `kfree`. The walk takes fuel; more than the number of blocks is enough. The bytes that clients
-- write behind the headers, the lock, `heap_dump_stats` and the mapping of pages in `heap_init`
-- are left out. Memory.Heap.Layout says which list of blocks (`Area`) stands in the memory.
--
-- Ipc.Pipe models kernel/ipc/pipe.c without `pipe_create`. `read_pass` and `write_pass` are one
-- turn of the loops of `pipe_read` and `pipe_write` between the lock's acquisition and release;
-- `read_loop` and `write_loop` run a call alone until it returns or sleeps. The wait queues hold
-- the sleeping processes. The position and count fields are natural numbers, which a valid pipe
-- keeps below 4097.
--
-- Ipc.Msg models kernel/ipc/msg.c: `msgsnd` is `sys_msgsnd` and `msgrcv_turn` one turn of the
-- loop of `sys_msgrcv`, both behind the lookup of the queue; `msgget` is `sys_msgget`. `kmalloc`
-- is a parameter: the address it returns, or whether it succeeds. A size is an integer, and a
-- copy of a negative number of bytes has an outcome of its own. The walk takes fuel; more than
-- the number of entries is enough. `cond_recv` is the list of the receivers that sleep on a queue,
-- and `msgsnd` returns those that its `cond_broadcast` wakes. The locks, and in `sys_msgrcv` the
-- body of `cond_wait` and the `kfree` of the entry, are left out.
--
-- Sync.Locks models the semaphores, mutexes, read-write locks and barriers of
-- kernel/sync/waitqueue.c, a definition for what each function does while it holds the object's
-- spin lock. A turn of a loop that takes a lock is `granted` or `must_sleep`. Sync.WaitQueue has
-- wait queues as lists. Sync.Locks.Exclusion and Sync.Locks.Readers put the turns of any number
-- of processes together as step relations. Counters are integers without overflow.
--
-- Block.Elevator models kernel/drivers/block/elevator.c: a queue is the list of its requests in
-- the order of the linked list, and a request has its first sector, its length and its chain of
-- bios. The function pointers of `struct elevator_ops` are the two cases of `Scheduler`.
--
-- Security.Seccomp models `seccomp_run_filter` (`run_filter`, with `execute` for the switch) and
-- the loop of `seccomp_check_syscall` (`check_filters`) of kernel/security/seccomp.c. `pc` is
-- the bit pattern of the C `int`, so that it wraps; what C leaves undefined (a shift by 32 or
-- more, a read outside the program) ends a run with an outcome of its own. A run takes fuel, one
-- round for each instruction executed.
--
-- Strings models kernel/lib/string.c on a memory of bytes (`Mem`), a definition for each
-- function under its name. `set_head`, `set_words` and `set_bytes` are the three loops of
-- `memset`, and `copy_head`, `copy_words` and `copy_bytes` those of `memcpy`; a loop over words
-- takes the number of bytes as its fuel. A loop that looks for the zero byte takes fuel; more
-- than the length of the string is enough.
--
-- Radix models kernel/lib/radix-tree.c. `Pointer` is what a `void *` slot holds: nothing, an
-- item or a node; a tree owns its nodes, so that a node is a value. `insert_walk`, `lookup_walk`
-- and `delete_walk` are the walks down, and for a deletion the way back over the stack.
-- `kmalloc` is the list of the outcomes of its next calls. The loops on the height take fuel; 11
-- rounds are enough for the indices below 2^60, the only ones for which the shifts of the source
-- are defined. Radix.PageCache is kernel/mm/page_cache.c on such trees, without `alloc_page` and
-- `__free_page`.
--
-- Memory.Swap models kernel/memory/swap.c with the page allocator of Memory.Pmm and the `memcpy`
-- of Strings. The page table entry that `handle_swap_fault` reads is an argument, and the page
-- that it maps a result.
--
-- Timer models kernel/time/hrtimer.c without the calibration of the counter: the queue is the
-- list of its timers. What the function of a timer does to the queue is a parameter. A run takes
-- fuel; one round more than the timers that have expired is enough.
--
-- Ipc.Shm models kernel/ipc/shm.c; `kmalloc` is the address that it returns, the calls of `kfree`
-- are listed, and the bytes of the memory are changed by `memset`; locks are left out. Ipc.Signal models
-- kernel/ipc/signal.c: `sys_kill` on the list of processes, the delivery loop of
-- `handle_pending_signals` (`deliver`), and `setup_frame` and `sys_sigreturn` on the bytes of
-- `struct interrupt_frame`, whose offsets are those of kernel/include/idt.h. The code that a handler
-- returns to is bytes; that its system call 119 reaches `sys_sigreturn` is not part of the model.
--
-- Sync.RtMutex models kernel/sync/rtmutex.c, a definition for what a function does while it
-- holds the spin lock of the mutex; `rt_mutex_resume` is what `rt_mutex_lock` does behind each
-- `process_schedule`. Priorities are natural numbers. Sync.Spin models kernel/sync/spinlock.c as
-- steps of any number of processes: the call, `__sync_lock_test_and_set`, a round of the inner
-- loop and the release, each at once; the flag of interrupts is left out.
--
-- Common holds the shared names, step relations (Common.Steps), bytes and words (Common.Words),
-- integers (Common.Int) and singly linked lists through `next` pointers (Common.Chain).
--
-- Not modelled are the assembly in boot/ and kernel/arch/ and the device drivers, which program
-- registers; and, so far, the page tables, the file systems, the block devices' buffers, the
-- process table, the network, modules and the system call table.
pub mod Common
pub mod Memory
pub mod Process
pub mod Ipc
pub mod Sync
pub mod Block
pub mod Security
pub mod Strings
pub mod Radix
pub mod Timer
