-- ===== src/Lib.antt =====
-- A model of the kernel in kernel/: its address spaces, its threads and mutexes, and its file
-- calls, with the theorems that say what they do. Functions keep their names from the source.
--
-- The parts and how they interact
--
-- * Vm (kernel/vm/vmmap.c). An address space is a list of areas of pages (`AreaList`), in the
--   order of the source's list. `vmmap_lookup`, `vmmap_insert`, `vmmap_is_range_empty`,
--   `vmmap_find_range` (Vm/Space), `vmmap_remove` (Vm/Remove) and `vmmap_map` (Vm/Map) are
--   functions on it. They call the memory objects, the slab allocator and the page table through
--   the record `Objects` (Vm/Objects), over a state that only these operations look into. Page
--   numbers are 32-bit words with their wrap-around (Base/Words); the user part of the address
--   space is the record `Layout`. `page_of` (Vm/Remove/Pages) is the abstract view of a list: what
--   each page is mapped to. Vm/Brk is `do_brk` (kernel/vm/brk.c), Vm/Mmap `do_mmap` and
--   `do_munmap` (kernel/vm/mmap.c), over the same operations and the open files of Fs; Vm/Fault is
--   `handle_pagefault` (kernel/vm/pagefault.c), over the area list and the page cache of Mm.
--   Vm/Access is `addr_perm` and `range_perm` of kernel/api/access.c, on addresses of 32 bits.
-- * Mm (kernel/mm/pframe.c, kernel/vm/anon.c, kernel/vm/shadow.c). The page cache is the record
--   `Cache` (Mm/Cache): frames, objects, the two lists with their counters and the hash table. Its
--   operations on frames are Mm/Frames, the `put` operations and `pframe_free`, which call each
--   other, Mm/Put, and `pframe_get`, the filling of pages and `pframe_lookup` through chains of
--   shadow objects Mm/Lookup. The allocators, the page table, wait queues and vnodes' pages are
--   the record `Machine` over a state of their own. A call that goes to sleep is a result, `waits`
--   or `starves`, with the state in which it does. Vm uses objects by its interface `Objects`
--   alone.
-- * Proc (kernel/proc/sched.c, kernel/proc/kmutex.c, kernel/proc/kthread.c). Of the last one
--   `kthread_cancel` and `kthread_exit` up to its call of `proc_thread_exited` are modelled.
--   Threads and queues have numbers, the run queue is number 0, and `Sched` holds all of them with
--   `curthr` (Proc/Queue). The kernel is not preempted, so an operation is one step up to its
--   `sched_switch`, and what follows the switch is a step of its own, taken when the thread runs
--   again (Proc/Sched, Proc/Mutex). Steps of all threads in any order are the relations `Step` and
--   `Reach` (Proc/Sched/Steps for the scheduler, Proc/Mutex/Invariant and Proc/Mutex/Lifetime for
--   threads that share a mutex). Proc/Pids is `_proc_getid` of kernel/proc/proc.c, over the list
--   of the numbers in use. Proc/Family is the tree of processes of the same file: `proc_create`,
--   `proc_cleanup` and `do_waitpid` on the record `Family`, which holds `Sched` and the processes
--   by number; files, address spaces and memory are the record `Resources` over a state of their
--   own. One turn of the loop of `do_waitpid` is one step, which ends asleep if there is no dead
--   child. Exits, waits and creations in any order are `Reach` (Proc/Family/Steps).
-- * Fs, descriptors (kernel/fs/open.c and the calls on descriptors of kernel/fs/vfs_syscall.c).
--   `p_files` is the list `Table` (Fs/Table); fget, fput and the vnodes' operations are the record
--   `FileOps`, and `FileLaws` says how they count references (Fs/Files). `do_open`, `do_read`,
--   `do_write`, `do_lseek`, `do_getdent`, `do_close`, `do_dup` and `do_dup2` stand in Fs/Calls,
--   their proofs below it. An `int` is a 32-bit word, negative from 2^31 on.
-- * Fs, path names (kernel/fs/namev.c and the calls on paths of kernel/fs/vfs_syscall.c).
--   `lookup`, `dir_namev` and `open_namev` stand in Fs/Names over the record `Vnodes`; `do_mknod`,
--   `do_mkdir`, `do_rmdir`, `do_unlink`, `do_link`, `do_rename`, `do_stat` and `do_chdir` in
--   Fs/Paths over it and `NodeOps`. `VnodeLaws` and `NodeLaws` say how the vnodes' operations
--   count references.
-- * Api (kernel/api/access.c, kernel/api/syscall.c). Api/Memory copies between user space and the
--   kernel over `range_perm`; the record `Kernel` keeps `kt_errno` and the blocks and pages that
--   are out. The functions sys_* stand in Api/Calls, those that loop in Api/Transfers, and
--   `syscall_dispatch` and `syscall_handler` in Api/Dispatch. The parts that do the work are the
--   record `Services`, the structures of the arguments `Structs`; an `int` result is an integer
--   `ℤ`.
-- * Fs, vnodes (kernel/fs/vnode.c). `VnodeTable` (Fs/Vnode) has the list of vnodes in use, their
--   counts and the scheduler; file systems and pages are the record `FileSystems`. `vget` and
--   `vput` are cut where a file system can block: `vget_finish` and `vput_finish` are steps of
--   their own, and the steps of all threads in any order are `Reach` (Fs/Vnode/Steps).
-- * Base has the names that all parts share: Boolean tests, `length`, 32-bit words.
--
-- Errors and assertions. A failed KASSERT, or a NULL pointer that is followed, is a result of its
-- own: none, `panic`, `fault` or `broken`. Errors are results as in the source.
--
-- Loops. The loop of `vmmap_remove` takes two rounds for each area as its fuel: each area is split
-- at most once, and the part split off meets the range no more, so the fuel is enough.
-- `sched_broadcast_on` takes one round for each thread of the queue, since a round takes one off,
-- and `_proc_getid` one for each number, since it tries none twice; `range_perm` takes at most one
-- round for each page up to the last, and one to end. `put` takes as its depth the number of the
-- object's pages and one more, since every nested call has one page less, and what the objects
-- below take; `vput` nests two deep, since a page's put is never the last; `pframe_lookup` the
-- length of the chain; `proc_cleanup` one round for each descriptor. `sys_read` and `sys_write`
-- take a round for each page of the request and one to end, `sys_getdents` at most one for each
-- byte. Every other loop is recursion on a list.
--
-- What is not modelled: contexts and stacks, interrupt levels and the wait for an interrupt, the
-- bytes that read and write copy, debug output and `kt_retval`; of vmmap.c reading, writing,
-- cloning and destroying and the list of an object's areas; of the rest of the kernel, killing and
-- looking up processes (proc.c, fork.c), pframe_clean_all and the pageout daemon, of vnode.c the
-- special files and flushing, and the boot code. The uninitialised `result` of do_mknod is an
-- argument of its model.
pub mod Base
pub mod Api
pub mod Mm
pub mod Vm
pub mod Proc
pub mod Fs
