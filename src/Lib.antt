-- ===== src/Lib.antt =====
-- A model of the Pintos kernel of this repository, with the theorems that make its parts correct.
--
-- The thread system (proj1/src/threads/thread.c, synch.c, and timer_sleep of devices/timer.c) is
-- Threads. Threads/State has the structs and static variables as one record, Kernel; a pointer to
-- a struct is a number and a store gives what it points to. Threads/Sched has the scheduler,
-- Threads/Synch the semaphores and locks with priority donation, Threads/Cond the condition
-- variables and what a thread does when it runs again (run, continue). Each C function is a
-- function of the same name on Kernel, with its ASSERTs in their places. These functions run with
-- interrupts off from their first to their last line, so each is one atomic step; a function that
-- comes to schedule takes as Resume what its caller has still to do, and returns the state in which
-- the next thread runs. The interrupt level itself is therefore not in the state, and timer_sleep,
-- which wants interrupts on, takes it as an argument; whether the machine is in an external
-- interrupt is in the state (intr_context). Threads/Sched/Sound says what a
-- well-formed state is.
--
-- A call comes to an Outcome: it returns, it fails an ASSERT (panic), or it is still in a loop when
-- the fuel is used up (out_of_fuel). The only fuel of Threads is that of the loop of lock_acquire, one for
-- each round; a chain of n locks takes n + 1.
--
-- proj1/src/lib/kernel/bitmap.c is KernelLib/Bitmap, an array of 32-bit words; KernelLib/Bits has what
-- the bit operations do to each bit of a word.
--
-- proj1/src/lib/kernel/list.c is KernelLib/Links, and KernelLib/Sorting for its functions that compare
-- elements: the state is the prev and next of every list_elem, and IsList of KernelLib/Links/Seg says
-- which sequence of elements they stand for. A loop over a list takes its length and one as fuel.
--
-- proj1/src/threads/palloc.c, the page allocator on two such bitmaps, is KernelLib/Palloc.
--
-- proj1/src/userprog/pagedir.c is UserProg/Pagedir, with the entries and addresses of
-- proj1/src/threads/pte.h and vaddr.h in UserProg/Entries. Directories and tables are bytes of the memory
-- that KernelLib/Palloc hands out; UserProg/Pagedir/Directory says what a well-formed directory is.
--
-- proj2/src/vm is Vm: Vm/State has its tables and static variables, Vm/Tables frame.c and page.c, and
-- Vm/Swap swap.c, on the memory and page directories of UserProg. A call that has to wait for
-- swap_IO_lock is a result of its own.
--
-- proj1/src/devices/intq.c is Devices/Intq, a ring of 64 bytes with the threads that wait for it, on the
-- Kernel of Threads; a call that sleeps is a result of its own. Its fuel is that of lock_acquire.
--
-- proj1/src/lib/arithmetic.c, the 64-bit division that GCC calls, is SharedLib/Arithmetic, on natural
-- numbers with each wrap-around written out; the DIVL instruction is a division that may trap.
--
-- The file system is FileSys. FileSys/Block is the block device (proj1/src/devices/block.c), with the
-- driver taken as a store of sectors; FileSys/Bytes is memory, a function from an offset to a byte.
-- FileSys/Inode has inode_read_at and inode_write_at of proj1/src/filesys/inode.c, and FileSys/Inodes the
-- rest of that file; FileSys/FreeMap is free-map.c, FileSys/Files file.c, FileSys/Directory directory.c
-- and FileSys/Calls filesys.c. FileSys/Store is their common state. What malloc and calloc return is a
-- stream of that state, so any call may fail. Loops over a file or a directory take as fuel the number
-- of bytes to transfer, or the length of the file, and one more: each round but the last advances by a
-- byte at least.
--
-- Not modelled: boot code, interrupt stubs and context switching in assembly, device drivers for
-- hardware registers, printing, the kernel's self tests, and the user programs.
pub mod Prelude
pub mod SharedLib
pub mod Threads
pub mod FileSys
pub mod Devices
pub mod UserProg
pub mod Vm
pub mod KernelLib
