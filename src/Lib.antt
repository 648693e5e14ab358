-- ===== src/Lib.antt =====
-- Verification of parts of the kernel of UnixOS, a small SMP operating system for i686.
--
-- The kernel (src/kernel) runs processes (core), which reach files through the VFS (fs) and each other
-- through pipes (ipc) and signals. The VFS keeps a table of mounted file systems and walks paths over
-- their operations; ext2, one of them, writes through a journal. The tables of processes and pipes are
-- chained hash tables (lib).
--
-- Prelude: Boolean tests on the native numbers, lists indexed by them, 32-bit words, error codes.
-- Ipc/Pipe: src/kernel/ipc/pipe.c and wait_event_locked of include/kernel/waitq.h. A Pipe is a
-- pipe_buffer_t; read_buffer, write_buffer and close_end are pipe_read_buffer, pipe_write_buffer and
-- the counts of pipe_close_by_id. A call that sleeps takes a list of the states in which it finds the
-- pipe whenever it holds the lock again, so that other processes may do anything meanwhile. The
-- waiting loops have fuel for two rounds, since wait_event_locked returns only when the loop is over.
-- Fs/Journal: src/kernel/fs/journal.c, over a block device whose requests are done one after another,
-- each whole or not at all. A run takes the fates of its requests, and the power is cut when they are
-- used up. A block is a function from the index of a 32-bit word to the word. Replay makes at most 18
-- requests, which are given to it where a theorem says that it returns.
-- Fs/Mount: src/kernel/fs/vfs_mount.c: mount, and the resolution of paths to inodes. The state of all
-- file systems is a type S; the operations of include/kernel/fs_internal.h are functions on it.
-- Fs/Path: src/kernel/fs/vfs_path.c: make_abs_path and the calls mkdir, unlink, rename, rmdir, truncate,
-- chmod, chown and chdir; dcache_invalidate of src/kernel/fs/dcache.c. The lock vfs_lock makes each of
-- them one step.
-- Core/Process, Life, Cred, Jobs, Signal, Fork: the process table of include/kernel/process.h and
-- src/kernel/core/process.c; src/kernel/core/cred.c, jobctl.c with priority.c, signal.c, fork.c. A pointer to
-- a process is its slot in the table. What kmalloc and clone_process_memory return is an argument.
-- Core/Sched: src/kernel/core/sched.c with cpu_t of include/kernel/percpu.h. The run queues are the next
-- pointers of the processes; Shape relates them to lists. A loop over the pointers has fuel for the number
-- of slots of the process table, since a queue holds each process at most once.
-- Core/Waitq: src/kernel/core/waitq.c. An entry is a number; Chain relates the next pointers to the list of
-- the sleepers, and a loop over them has fuel for its length.
-- Fs/Files: src/kernel/fs/vfs_fd.c and vfs_core.c, with sys_dup of src/kernel/syscalls/sys_fs.c and the loop
-- over descriptors of core/fork.c. Files holds open_files and the descriptors of one process, System those
-- of all. A call that would write outside open_files gives none.
-- Fs/Cpio: initramfs_load of src/kernel/fs/cpio_parse.c, which reads the first files from an archive in
-- memory. Each round of its loop takes more than 110 bytes, so fuel beyond the length is enough. An access
-- behind the end has no result. The calls
-- that put an entry into the VFS, and the path they make of its name, are left out.
-- Fs/Elf: src/kernel/fs/elf_loader.c. The calls into the VFS, the frame allocator and the page directory are
-- operations on a state of any type; int32_t results are 32-bit words. The loop that reads into a frame has
-- fuel for the bytes asked for, since a round reads at least one.
-- Mm/Heap: src/kernel/mm/heap.c. The heap is the list of its blocks by address; the number of canary
-- bytes that KASAN adds is an argument, its checks are left out. A heap_free of a pointer that is behind no
-- block header has no result.
-- Mm/Frames: src/kernel/mm/frame_alloc.c, with addresses as frame numbers.
-- Hash: include/kernel/hashtable.h and src/kernel/lib/hashtable.c. A chain is the list of its nodes.
--
-- Strings are lists of the characters before the NUL. Addition and subtraction of uint32_t wrap around
-- where the code's values may reach the bound. Atomic accesses are single steps, and locks are held for
-- a whole call but where a call sleeps.
--
-- Not modelled: the architecture (src/kernel/arch), drivers, interrupts and start-up, which are accesses
-- to the hardware; slabs and address spaces; timers, ramfs and ext2; most of the
-- system-call layer; libc, the loader and the programs of user space.
pub mod Prelude
pub mod Core
pub mod Fs
pub mod Hash
pub mod Ipc
pub mod Mm
