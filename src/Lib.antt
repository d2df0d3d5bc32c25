-- ===== src/Lib.antt =====
-- Verification of parts of a RISC-V operating system: the lists, the page allocator, the strings,
-- the virtual file system, the small allocator, the scheduler, the semaphores, the pipes, the
-- descriptors, the signals, the virtual memory, the processes and the paths of its kernel. Paths are
-- from the root of the repository.
--
-- LinkedList: os/kernel/include/list.h. A heap gives the prev and next field of every node. Each
-- operation writes the fields that the source writes, in its order. LinkedList/Ring relates a heap
-- to the sequence of nodes that a circular list holds, Insert and Remove treat the operations.
--
-- PageAlloc: os/kernel/page.c and page.h. pages_map is a function from page numbers, and the list
-- of the pool is a sequence of page numbers, which is what LinkedList shows its operations to act
-- on. Blocks has the sequences of free blocks, Validity the invariant of the pool and page_init,
-- Cut and Take alloc_pages, Merge and Give free_pages, Defects two departures from what the code
-- means.
-- PM_SIZE is that of the board _QEMU. The spin lock is left out: each operation is one step.
--
-- CString: os/lib/string.c over a memory of bytes. A loop that ends at a NUL takes fuel, and one
-- more than the number of its bytes is enough; all other loops recur on a length. Number has
-- strtol, with its long as a number modulo 2^64.
--
-- Vfs: os/vfs. The state has the list of inodes (vfs_inode.c), the list of file systems (vfs_fs.c),
-- the pool of files (vfs_file.c), the open directories and the state of the drivers. A call takes
-- the state to a result and a new state, or faults, which stands for the use of a null or dangling
-- pointer. A driver is a parameter: each function of its table reads the file or directory that it
-- is called on and the state of the drivers, and writes the fields of a file that drivers may
-- write. A driver does not call the VFS and does not write the pointer to an inode. kmalloc is an
-- argument of the calls that use it: the address that it returns, whose memory is cleared.
--   Vfs/Inodes, Files   the inode list and the pool of files
--   Vfs/Calls, Open     the calls on descriptors of vfs.c, and vfs_open
--   Vfs/Dirs, Names     the calls on directories and on names of vfs.c
--   Vfs/Device, Mount   vfs_device.c, and vfs_fs.c
--   Vfs/Meet            how the name of an inode meets a path
--   Vfs/Search, Find    what the search for an inode finds, by match_inode and by the names
--   Vfs/Pool            what the search for a free entry finds
--   Vfs/Refs            the references to inodes and their counts, with a module for each call
--   Vfs/Devices         a device that comes and goes
--   Vfs/Dangling        calls that use a null or dangling pointer
-- The model keeps a path as its bytes, so the write past relative_path that a path of 32 bytes
-- makes is not in it. vfs_read and vfs_write return the int that the source converts to uint64.
--
-- Sched: os/kernel/sched.c and timer.c, and what os/kernel/procsyscall.c does to the lists of
-- processes. A process is a number, and the ready, waiting and sleeping processes are sequences. The
-- switch to the scheduler is written with what the scheduler does first when it comes back. An
-- operation runs with the lock of the lists held and is one step; get_time is an argument.
--   Sched/Counts, Conserve   the places of a process, and the runs of all operations
--   Sched/Expire, Turns      the timer, and how long a ready process waits
--   Sched/Waiters            the processes that sleep for one semaphore
--   Sched/Sem                P and V of os/kernel/sem.c, each one step, and in Gap P in its two
--                            parts. A value is an integer, and the model is read where it is an
--                            int: each P below 0 is a process that sleeps, but V is called without
--                            end where a pipe is written and not read, and nothing in the source
--                            keeps that value below the largest int.
--
-- Pipe: os/kernel/pipe.c over Sched/Sem, with sleeping reads that go on later. Buffer has the ring of
-- bytes, Queue the relation of a pipe to a queue of bytes, Reads, Writes and Close the operations.
-- The buffers of the callers are lists of bytes.
--
-- Ufiles: the descriptors of a process, os/kernel/fs.c from ufile_alloc to sys_dup2. Table has the list
-- of descriptors, Refs the relation of entries and pipes, Close, Dup and Pipes the calls. The calls
-- of the VFS are the fields of the record Calls, so the paths that they are given are not in it, nor
-- are the buffers of sys_read and sys_write. A descriptor is a number with no bound; the source has
-- an int, so the model of ufile_alloc is read where the descriptor behind the last one is an int.
--
-- Signals: os/kernel/signal.c, and from os/kernel/intr.c the delivery at the end of a trap. Pending has
-- the queue of signals, Frames the frame of a handler in the memory of the user. A default handler is
-- named by its outcome.
--
-- Slob: os/kernel/slob.c, and os/kernel/kmalloc.c in Slob/Kmalloc. The ring of free blocks is the
-- sequence that starts at p_free_small_blocks, counted in units of 16 bytes. Cover has the units that
-- the ring covers, Search the end of the loop of small_free, Sentinel the block that stays on the
-- ring, Alloc small_alloc. What slob_get_pages returns is a list, one entry for each call; for a
-- request of a page at most, one entry is enough.
--
-- Vmm: os/kernel/vmm.c and vmm.h, with sys_mmap, sys_munmap and sys_brk of os/kernel/procsyscall.c. The
-- list of areas is the sequence it holds, in the order of addresses. A page table is the number of
-- its page, and the words of all tables are one function; tables and pages come from the pool of
-- PageAlloc. The search for a place takes fuel, and one more than the number of areas is enough.
--   Vmm/Areas           the list of areas
--   Vmm/Gaps, Mmap      the search for a place, and sys_mmap
--   Vmm/Table           mappages, unmappages, va2pa and the calls beside them: Tree has the invariant
--                       of the tables, Links the entry of a new table, Enough how many pages a
--                       mapping needs, Maps one page, Loop and Translate what is mapped, Unmaps the
--                       way back, New the table of a new process
--   Vmm/Space           areas and tables together: sys_munmap, sys_brk, and in Heap what they leave
--   Vmm/Fault           do_exec_fault and do_page_fault: Reads has what is read of a program, Backed
--                       the page that is mapped
--   Vmm/Copy            copy2user, which takes fuel: one more than the number of bytes is enough
-- The bytes of user memory are not in the model, and there is memory for every struct vma.
--
-- Procs: os/kernel/process.c, with sys_exit, sys_wait4, sys_getpid and sys_getppid of
-- os/kernel/procsyscall.c and dfl_sigchld of os/kernel/signal.c, over Sched, Sched/Sem and Signals. Pids
-- has the numbers of processes, Exit the end of a process, Reap sys_wait4 and dfl_sigchld, Wait what
-- a parent finds. A call runs with no other hart in between; sys_wait4 is written up to the end of
-- its first round.
--
-- Paths: the paths of system calls, add_root, calc_abspath and sys_getcwd of os/kernel/fs.c, with a
-- string as its bytes. Resolve has what a path stands for.
--
-- Prelude has the Boolean tests, lists and integers over the native numbers.
--
-- Not modelled: the FatFs library, which is a third party's, and its binding; the drivers and the
-- hardware layer, which are accesses to registers; the SBI firmware, which is binary; spin locks, as
-- an operation under a lock is one step; the console, traps and the start. Of virtual memory
-- copy_pagetable, which nothing calls, and the copy of an address space in sys_clone; of processes
-- what their end does to memory, files and directory, and the programs from ELF files; of the calls
-- on files those over names, reads and writes, cfgfs.c and the table of system calls; and the user
-- library, whose calls are stubs.
pub mod Prelude
pub mod LinkedList
pub mod Sched
pub mod Pipe
pub mod Slob
pub mod Ufiles
pub mod Signals
pub mod PageAlloc
pub mod CString
pub mod Vfs
pub mod Vmm
pub mod Procs
pub mod Paths
