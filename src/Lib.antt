-- ===== src/Lib.antt =====
-- Timestone: a library of durable transactions over objects in non-volatile memory, with several
-- versions of an object. A transaction reads the newest version committed before its start and writes
-- to copies in the thread's transient version log (TLog); a commit records the operation in the
-- operation log (OLog), makes it durable and puts the copies at the heads of their objects' version
-- chains. A thread that detects quiescent periods orders the reclamation of the logs: checkpoints of the
-- newest versions go to the checkpoint log (CLog), and from there back to the objects.
--
-- The files and the code that they model:
--   Base, with Base/Tests, Base/Words and Base/Stores: shared names, tests on numbers, wrap-around
--     arithmetic of 32- and 64-bit words and the alignment of lib/util.h, memory as a function.
--   Config: lib/config.h, and the codes of lib/timestone_i.h.
--   Clock: include/ordo_clock.h and lib/clock.h, comparisons of clocks that agree only up to a boundary,
--     and the write clock of a copy in the middle of its commit.
--   PtrSet: the pointer sets of lib/util.h.
--   Nvlog: lib/nvlog.c and lib/nvlog.h, the circular log in non-volatile memory. The abstract view is
--     the queue of its entries, `entries`, of the slots that a log `Holds`.
--     Nvlog/Create: the creation and the destruction of a log store, with the list of all stores and the
--     mutex over it.
--   Oplog: lib/oplog.c, the operation log on top of it.
--   Memory: the headers of lib/timestone_i.h and the access functions of lib/util.h.
--   Version: ts_deref of lib/timestone.c. A chain of versions is a list of copies, `Versions`.
--   Version/Checkpoint: what a checkpoint of a copy does to its readers.
--   Tvlog: lib/tvlog.c and lib/tvlog.h, allocation in the ring; Tvlog/WriteSet has commit and abort,
--     Tvlog/Borderline the test for the copy that a checkpoint takes, Tvlog/Reclaim the reclamation. Its
--     proofs go from the bodies of the two loops (Bodies) to the loops (Walk, Loop) and both (Passed);
--     Logged, Growing and Persisted are about what they put into the checkpoint log.
--     Tvlog/Layout says where the objects of a write set lie, Tvlog/Publish is about the end of the
--     commit of a write set, and Tvlog/Wait has the loops that wait for the detecting thread.
--   Ckptlog: lib/ckptlog.c, the checkpoint log. Its entries are slots of the non-volatile log; what
--     stands behind an entry's header is in memory.
--   Recovery: lib/recovery.c, the volatile headers and the operations found in the logs after a crash.
--     Its child modules Newest, Scanned, Chosen and Latest follow the headers from one entry to all the
--     logs.
--   Lock: _ts_try_lock of lib/timestone.c, with what other threads do around its compare-and-swap.
--   Transaction: ts_end, ts_abort and ts_free of lib/timestone.c; Transaction/Begin has ts_begin, and
--     Transaction/Operands the operation that is recorded.
--   Objects: ts_alloc and the access to elements of arrays of lib/timestone.c.
--   Isolation: lib/isolation.h, with the levels above the snapshot, which are not compiled by default.
--   Qp: lib/qp.c, detection of quiescent periods, requests, trigger and barrier; Qp/Main has
--     the round of the detecting thread.
--   Links: the intrusive lists of lib/util.h. A list is a ring of nodes through its head, `IsRing`.
--   Threads: the lists of live threads and zombies of lib/qp.c, with their locks.
--   Zombies: the end and the freeing of a thread in lib/timestone.c, and the pass over the zombies in
--     lib/qp.c, which uses Threads, Tvlog/Reclaim, Ckptlog, Nvlog/Create and Region.
--   Nvm: nvm_init_heap of lib/nvm.c and the root's clock in lib/nvlog.c; Nvm/Crash has what a crash
--     leaves of the root while it is prepared.
--   Region: the allocator of log slots in lib/port-user.h.
--   Tests: concrete runs.
--
-- State is passed explicitly. A word of w bits is a number, with its wrap-around written out at every
-- addition and subtraction that may leave the word. An index into a log is a byte offset, and an entry
-- is read and written at the offset of its header only.
--
-- Loops: a loop whose length the code bounds (the bitmap, the objects of a write set, the threads) is
-- recursion on what is left. The others run on fuel. `walk_chain` needs as much fuel as the chain is
-- long, `reclaim_ops`, `reclaim_entries`, `writeback_entries`, `count_ops`, `collect_ops` and
-- `recover_entries` more than the log has entries, `unlink_from` more than there are stores,
-- `reap_from` more rounds than there are zombies, `each_set` more than the log has write sets,
-- `validate_from` more than there are reads, `flush_lines` as many as there are bytes,
-- `ordo_new_clock` as many readings as the counter takes, `wait_thread` as many rounds as the
-- transactions take to end, `wait_reclaim` more rounds than go by before the detecting thread's trigger.
--
-- Parameters: the time stamp counter, the results of the allocators, whether a
-- thread waits for a list of threads, the address that mmap gives, the sizes of three C
-- structures, what the counters of other threads show at a time, and when the detecting thread's
-- triggers reach a thread that waits. The steps of one thread are
-- modelled without another thread's steps between them, except where a thread waits for others, and
-- around the compare-and-swap of a lock.
--
-- Not modelled: ts_thread_init_x in lib/timestone.c, qp_help_reclaim_log
-- in lib/qp.c, whose effect is a part of the parameter `work` of a round, the threads that replay
-- operations in lib/recovery.c, the loop of lib/ckptlog.c that asks for a reclamation until one is
-- made, statistics and traces, the bindings to allocators of non-volatile memory,
-- lib-nv-jemalloc, which is another project's, the benchmarks and the unit tests.
pub mod Base
pub mod Config
pub mod Clock
pub mod PtrSet
pub mod Nvlog
pub mod Nvm
pub mod Objects
pub mod Oplog
pub mod Memory
pub mod Version
pub mod Qp
pub mod Region
pub mod Tvlog
pub mod Links
pub mod Lock
pub mod Ckptlog
pub mod Recovery
pub mod Isolation
pub mod Threads
pub mod Transaction
pub mod Tests
pub mod Zombies
