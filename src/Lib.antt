-- ===== src/Lib.antt =====
-- BoringOS: the core of the kernel and parts of its C library.
--
-- The program. BoringOS is a small kernel for amd64 with user programs above it. Spinlocks guard the
-- shared data of all parts. The page allocator hands out pages; kernel address regions (XMem) grow by
-- such pages, and each slab of objects lives in a region. The buffer cache keeps disk blocks in
-- entries of one slab, and asks the driver for a block through a scatter-gather list. The scheduler
-- keeps the runnable and the waiting threads; semaphores and wait channels put threads to sleep and
-- wake them through it. The timer wheel and the calendar build on the processor's time stamp counter.
-- A process finds its open handles by descriptor in a hash table, and the system calls move their
-- arguments through guarded copies. Its address space is a tree of page tables, made of pages of the
-- page allocator. The loader maps the segments of a program there and reads them from a file, which it
-- finds by its path through the virtual file system. Processes and threads are counted by their references.
-- The file system o2fs stands on the buffer cache. In the C library, malloc takes its
-- memory from the kernel by mmap, and the threads' mutexes and condition variables take their objects
-- from malloc.
--
-- Files, and the code that each is about:
--   Prelude                    shared names, Boolean tests, lists, maps as functions, flags in words
--   Spinlock                   sys/kern/spinlock.c: one lock; Step is what one CPU does at a time
--   Copy                       sys/kern/copy.c and the two routines of sys/amd64/support.S
--   PAlloc                     sys/kern/palloc.c: the pool of pages
--   XMem                       sys/amd64/xmem.c: the table of regions, which grow by pages of PAlloc
--   Slab                       sys/kern/slab.c: slabs over a region of XMem
--   Sga, BufCache              sys/kern/sga.c, sys/kern/bufcache.c: the cache over a disk driver
--   Disk                       sys/kern/disk.c: the list of disks
--   Handle                     sys/kern/handle.c: the handle table of a process
--   Sched                      sys/kern/sched.c, and Thread_Retain and Thread_Release of
--                              sys/kern/thread.c
--   Process                    sys/kern/process.c and sys/kern/thread.c: the life of processes and,
--                              in Threads, of their threads
--   Semaphore, WaitChannel     sys/kern/semaphore.c, sys/kern/waitchannel.c, over Sched
--   KTimer                     sys/kern/ktimer.c: the timer wheel
--   KTime                      sys/kern/ktime.c: calendar and clock
--   LibTime                    lib/libc/time.c: the C library's calendar
--   CString                    sys/kern/libc.c: strings and memory; Concat is two functions of
--                              lib/libc/string.c
--   PMap                       sys/amd64/pmap.c: page tables; Alloc is PMap_AllocMap, Lifetime and
--                              Destroy are PMap_NewAS and PMap_DestroyAS
--   O2fs                       sys/fs/o2fs/o2fs.c: Bitmap is the blocks in use, File is reading,
--                              Write is growing and writing, and Directory is the lookup of a name
--   Vfs                        sys/kern/vfs.c: the lookup of a path, and the open of vfsuio.c
--   Loader                     sys/kern/loader.c: programs, over PMap
--   Console                    sys/dev/console.c: keys, lines and writing
--   Kprintf                    sys/kern/printf.c: the printing of numbers
--   Malloc                     lib/libc/malloc.c: the heap of a program
--   Pthread                    lib/libc/posix/pthread.c: Cond, Mutex and Threads are its three parts
-- The children of a component hold its invariants (Valid, Queues, Linked, Slot), what its operations
-- do (Pages, Region, Grow, Table, Objects, Steps, Blocks, Lookup, Teardown, Robin, Permits, Wakeup,
-- Timely, Exclusion, Guard, Copy, Compare, Calendar, Roundtrip, Clock, Agree, MkTime, Buckets, Small,
-- Reuse, Large, Queue, Entry, Walk, Leaf, Map, Translate, Alloc, Free, Bits, Read, InPlace, Growth,
-- Spawn, Release, Leave, Trace, Bytes, Ring, Write, Line, Segment, Parts, Image, Program, Path, Find, Digits), the races
-- that the code admits (Race, Lazy), BufCache_Init (Startup) and the theorems at concrete inputs (Tests).
--
-- State and operations. A record of a component holds its globals, and the fields of its heap objects
-- as functions from pointers, with 0 for NULL; a queue of sys/include/queue.h is a list of pointers.
-- An operation has the name of its C function without the prefix, in snake case: PAlloc_AllocPage is
-- PAlloc.alloc_page. A failed ASSERT, a panic, and a read behind a table are `none`. The code holds a
-- component's lock over an operation, so that operations are single steps; Spinlock itself, the mutexes
-- and condition variables of Pthread, and the Race modules look between them. A kernel that
-- has stopped in the ASSERT of PAlloc_AllocPage is `false` or `none` in PMap. An answer of the kernel to
-- a user program, of malloc to Pthread, or of the buffer cache to O2fs.File is an argument.
--
-- Bounds and fuel. Numbers are natural, and 64-bit wrap-around is written out. The time conversions
-- take fuel for each day, and a year takes more than one, so that it is never used up (find_year_total).
-- A read or write of a file has a round for each byte and one more, and each round but the last takes a byte at
-- least. The search for a pool of the heap has a round for each pool. The loops over pages have a round
-- for each page that is asked for; the int product PGSIZE * i of PMap_Map and PMap_AllocMap holds for 2^19
-- pages, which their theorems have as a condition.
-- The digits of a number have 65 rounds, where 64 bits have at most 64 digits.
-- The loops of the loader and of Console_Write have a round for each byte and one more.
-- The string loops take fuel that is given as an argument, one more than the length of the string being
-- enough.
--
-- Not modelled: drivers (the driver of a disk is a parameter of BufCache.read), the kernel half of the
-- page tables, boot, traps, system calls, zombies of threads beyond Process.wait_thread, the reading of
-- directories and the mounting of o2fs (its operations are arguments of Vfs and of Loader), the step of the loader into
-- user mode, output and debugger commands, most of the C library, the user programs, and lwIP, which is
-- the copy of another project.
pub mod Prelude
pub mod CString
pub mod Copy
pub mod Disk
pub mod Semaphore
pub mod WaitChannel
pub mod Handle
pub mod Sga
pub mod BufCache
pub mod KTimer
pub mod Spinlock
pub mod PAlloc
pub mod XMem
pub mod Slab
pub mod KTime
pub mod LibTime
pub mod Sched
pub mod Process
pub mod Console
pub mod Kprintf
pub mod Loader
pub mod Vfs
pub mod Malloc
pub mod Pthread
pub mod PMap
pub mod O2fs
