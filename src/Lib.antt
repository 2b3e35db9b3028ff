-- ===== src/Lib.antt =====
-- A verification library for the kernel of project5 of this repository, a Pintos system with
-- priority scheduling, an alarm clock, a buffer cache and extensible files.
--
-- Paths below are from the repository's root. Routines that fail an ASSERT or PANIC end in
-- `panic`, those that call exit(-1) in `killed` (Common/Ending.antt).
--
-- Common.antt and its children: shared names, lists by native indices, bits of numbers.
-- Block.antt: project5/src/devices/block.c. The driver is a map from sectors to their contents.
-- Cache.antt: project5/src/filesys/cache.c. A pointer to an entry is its index; bc_lock is
--   whether the running thread holds it. Children: Find (what the array holds for a sector),
--   Clock (the victim loop; its fuel of 65 exceeds the number of reference bits, and each round
--   clears one), Invariant, Steps, Fetch, Refine (reads and writes), Runs (sequences of calls and
--   termination), Start (initialisation, sectors past the end), Tests.
-- Bitmap.antt: project5/src/lib/kernel/bitmap.c over words of 32 bits with the native bit
--   operations. Children: Single (one bit), Group, Scan, Reuse, Tests.
-- Klist.antt: the ordered operations of project5/src/lib/kernel/list.c on sequences of element
--   pointers. The fuel of a sorting pass is the number of elements, that of the passes one more
--   than it. Children: Order, Sort, Tests.
-- Sched.antt: project5/src/threads/thread.c, in the build without user programs. A thread is its
--   pointer, the memory of the threads a function from pointers. Routines that switch threads end
--   with the next thread running. Interrupt levels and contexts are not modelled. Children:
--   Invariant, Switch (block, yield, unblock), Priority, Aging, Sample and Tests.
-- Mlfqs.antt: the fixed-point arithmetic and the feedback queue of thread.c, and thread_tick. The
--   arithmetic of int wraps around, as on the machine, though C leaves its overflow undefined.
--   Children: Bounds, Tests.
-- Timer.antt: the alarm clock of project5/src/devices/timer.c with its helpers in thread.c. Both
--   copies of smallest_tick are fields. Children: Kept (list lemmas), Wake, Sleep, Tick,
--   Interrupt, Alarm (many interrupts), Tests.
-- Synch.antt: semaphores and locks of project5/src/threads/synch.c. Children: Up, Down, Machine
--   (a lock under any interleaving, as a step relation), Exclusion, Tests.
-- Palloc.antt: project5/src/threads/palloc.c over Bitmap.antt. Addresses are 32-bit numbers.
--   Children: Groups (one pool), Pages (a grant), Trips (all branches, and the return of a
--   grant), Tests.
-- Swap.antt: project5/src/vm/swap.c over Bitmap.antt and Block.antt. Children: Slots, Insert,
--   Trips, Tests.
-- Freemap.antt: project5/src/filesys/free-map.c over Bitmap.antt; whether the map is written to
--   its file is a parameter here. Inode/Mapped.antt has the routines with the file. Children:
--   Sectors, Tests.
-- Inode.antt: project5/src/filesys/inode.c over Cache.antt. The fuel of the loops of
--   inode_read_at and inode_write_at is the number of bytes asked for, of which each round takes
--   at least one. Children: Index, Bytes, Read (reads by position), Open, Write (the loop of
--   writes), Put, Written, Store (what it stores), Growth (inode_reserve, inode_write_at,
--   inode_create), Codec (the inode on its sector), Create (a new file), Trips (writes, then
--   reads), Allocator (the interface of free_map_allocate), Slots, Reserve, Grown, Extended
--   (files of at most 123 sectors that grow), Mapped (free_map_allocate over the disk, release of
--   sectors, inode_close), Unopened (the allocator before the map's file is open), Tests,
--   Samples.
-- Dir.antt: project5/src/filesys/directory.c over Inode.antt. An open inode is known by its
--   sector, an entry is its 20 bytes. The fuel of the searches is one more than the length of the
--   file in bytes; each round reads 20. Children: Change (dir_add, dir_remove, paths), Find,
--   Fields, Slot, Entries, Add, Filling, Trips, Tests.
-- Hash.antt: project5/src/lib/kernel/hash.c. An element is its pointer, a bucket a sequence of
--   them; the fuel of the loop that looks for a power of two is the number that it starts with.
--   Children: Sums, Buckets (the invariant, searches), Rehash, Insert, Remove, Refine, Tests.
-- File.antt: project5/src/filesys/file.c over Inode.antt, with the open inodes of Dir.antt.
--   Children: Trips, Denied, Tests.
-- Links.antt: project5/src/lib/kernel/list.c on the memory of the elements: what each has for
--   next and prev. An assertion that fails is a panic. Children: Chain (the lists in a memory),
--   Places, Insert, Remove, Refine, Queue (the ends), Fifo, Tests.
-- Paths.antt: divide_fn of project5/src/filesys/directory.c, with strtok_r of
--   project5/src/lib/string.c for one delimiter. What the buffer for the directory holds before,
--   which divide_fn reads, is an argument. Children: Divide, Tests.
-- Filesys.antt: project5/src/filesys/filesys.c over Dir.antt, File.antt and Paths.antt, with
--   make_path of directory.c. The directory of the running thread is an argument. Children: Open,
--   Tests.
-- Intq.antt: project5/src/devices/intq.c over Sched.antt. A call that has to wait ends there; the
--   wait itself is not modelled. Children: Ring, Tests.
-- Stdlib.antt: binary_search of project5/src/lib/stdlib.c. The fuel of its loop counts the
--   elements, of which each round takes at least one out of the range, and one more for the round
--   that finds the range empty. The outer none is the end of the fuel, the inner one a key that
--   is not there. Children: Search, Tests.
--
-- Not modelled: processes, system calls and virtual memory but for the swap table, which are
-- planned; interrupt levels, switches of stacks, drivers and descriptors, which are hardware; the
-- tests and the earlier states of the system, project1 to project4, which project5 contains. What
-- lib/ has beside the parts named above is a library that the code calls.
pub mod Common
pub mod Block
pub mod Cache
pub mod Bitmap
pub mod Klist
pub mod Sched
pub mod Mlfqs
pub mod Timer
pub mod Synch
pub mod Palloc
pub mod Swap
pub mod Freemap
pub mod Inode
pub mod Dir
pub mod Hash
pub mod Stdlib
pub mod Links
pub mod File
pub mod Paths
pub mod Filesys
pub mod Intq
