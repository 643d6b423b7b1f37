-- ===== src/Lib.antt =====
-- A verification library for the xv6 kernel of this repository (xv6-labs-2024/kernel), with the
-- system calls trace and sysinfo that it adds.
--
-- How the kernel is put together. A trap from user mode reaches `syscall` (syscall.c), which calls
-- the function that the number selects: those of sysproc.c work on the process table (proc.c),
-- those of sysfile.c on open files (file.c, pipe.c) and the file system (fs.c). A file system
-- call runs between begin_op and end_op of the log (log.c), over the buffer cache (bio.c) and the
-- disk. Pages come from the allocator (kalloc.c), address spaces from vm.c.
--
-- The files, and the code that they model:
--   Prelude      tests, lists, finite maps, integers and Option shared by all parts
--   Layout       param.h, memlayout.h, riscv.h, fs.h: the constants
--   Kalloc       kernel/kalloc.c: kinit, freerange, kfree, kalloc, nfree over the free list
--   Log          kernel/log.c: initlog, begin_op, log_write, end_op, commit and recovery, over a disk
--                that keeps its image after each write, so that a crash is the choice of an image;
--                Operations has the interleavings of operations and of the commit without the lock
--   Proc         kernel/proc.h, kernel/proc.c: the table. Load has nproc and the load average, Sched
--                sched, yield, sleep, wakeup, kill and the scheduler's choice, Memory page tables of
--                a process and growproc, Life allocproc, freeproc, fork and userinit, Wait reparent,
--                exit and wait
--   Syscall      kernel/syscall.c, kernel/sysproc.c, kernel/sysinfo.h: Args fetches arguments, Calls
--                has the calls of sysproc.c, Dispatch the table, `syscall` and its trace; Numbered has the
--                numbers of kernel/syscall.h
--   Pipe         kernel/pipe.c: pipewrite, piperead and pipeclose; Queue has the bytes of a pipe as a list
--   Bytes        kernel/string.c, over memory as the byte at each address
--   Files        kernel/file.h, kernel/file.c, and pipealloc of kernel/pipe.c: open files and their
--                references; what file.c calls elsewhere is the record `Under`
--   Locks        kernel/spinlock.c as steps of several processors, kernel/sleeplock.c
--   Vm           kernel/vm.c: page tables, over words and bytes of physical memory. Space has address spaces,
--                Copy copyout, copyin and copyinstr, Kernel kvmmake; Tree says what a page table is and
--                what an address is translated to
--   Fs           kernel/fs.c, over the bytes of blocks as the buffer cache shows them and the blocks given to
--                log_write: here the bitmap, Inodes the table and inodes on the disk, Content bmap,
--                itrunc and iput, Data readi and writei, Dirs directories, Paths path names. A call that
--                would wait for an inode's lock ends in `none`, like a panic
--   Bio          kernel/bio.c: the buffers and their doubly linked list; Ring, Order, Lookup and Unique have
--                the proofs on the order of the list and on the buffer of a block
--   Grep         user/grep.c: match and the loop of grep with its buffer of 1024 bytes, over what the calls of
--                read return; Language has what a pattern means, Lines the lines of a text, Buffer what
--                the buffer holds
--   Numbers      printint of kernel/printf.c and user/printf.c, atoi of user/ulib.c
-- In each, the file of a component's name and the ones just named hold definitions with the names of
-- the C functions, the modules beside them hold the proofs, and Examples holds concrete runs.
--
-- Conventions. A pointer to an entry of a table is its index; a null pointer is `none` or 0. A panic is
-- `none`, or a constructor of the result. Code that a spinlock protects is one step, since no
-- other processor sees the state in between; a call that sleeps ends its step, and is run again from
-- its test when it is woken. In acquire and release, the loads of `holding` are one step with what
-- follows them, as are the stores to the lock's fields. Machine words are natural numbers with their
-- wrap-around written out, but for `nextpid`, which has no bound; a sum of C's `int` that overflows, as
-- in atoi, wraps around. An entry of a page table is a sum where the code has `|`, which is the same for
-- permissions of ten bits. A loop over a table is recursion on the entries that are left. The loops of freerange and nfree run on
-- fuel, of which one unit per page and one more is enough, since each round takes a page; the loop of
-- filewrite needs at most one per byte and one more, since a round that goes on has written a byte;
-- strlen has the fuel that a caller gives it. copyout, copyin, copyinstr, readi and writei have a round
-- for each byte, and each takes one at least; namex has one for each character of the path and one more;
-- grep has one call of read for each byte and one more; bget one round for each buffer and one more; printint 64, as many as a 64-bit number has binary digits.
--
-- Memory has two views, the words of page tables and the bytes of data: between kalloc and kfree a page
-- is used as one of them. So a leaf entry that maps a page table, or a page of the free list, to user
-- code is outside the model. freewalk runs to a depth, of which 3 are enough for a tree of three levels.
--
-- Interfaces. Proc takes what it calls in vm.c, kalloc.c, file.c, fs.c and log.c as a record `World` of
-- operations over a state of their own, so what is proved of proc.c holds whatever those do; Vm.Kernel
-- gives its part of vm.c and kalloc.c. The calls of sysfile.c are a parameter of Syscall in the same
-- way, and either_copyout and either_copyin one of Fs.Data. The symbols `end`, `trampoline` and
-- `forkret` of the linker and the addresses of variables are parameters.
--
-- What is not modelled: the assembly files, the drivers (uart.c, plic.c, virtio_disk.c, console.c) and
-- the trap path around `syscall`, which act on hardware; start.c and main.c, which call the
-- initialisers once; sysfile.c and exec.c, which are behind the interfaces above; the formats of
-- printf; the other programs of user/, and mkfs/. The copy of the kernel in Submission/ is the same code.
pub mod Prelude
pub mod Layout
pub mod Kalloc
pub mod Log
pub mod Proc
pub mod Syscall
pub mod Pipe
pub mod Bytes
pub mod Files
pub mod Locks
pub mod Vm
pub mod Fs
pub mod Bio
pub mod Grep
pub mod Numbers
