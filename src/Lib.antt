-- ===== src/Lib.antt =====
-- Verification library of the xv6 kernel in xv6-public/, extended by memory-mapped files (mmap,
-- munmap, copy-on-write fork).
--
-- Parts of the program and the modules that model them:
--   Mmu       xv6-public/mmu.h, memlayout.h: page arithmetic and flags of `uint` values
--   Kalloc    xv6-public/kalloc.c: kinit1, kinit2, freerange, kfree, kalloc over the memory itself,
--             in which the free list is threaded
--   Proc      xv6-public/proc.h: struct proc, struct mem_mapping
--   Vm        xv6-public/vm.c: walkpgdir, mappages, deallocuvm, freevm, on the same memory
--   Mmap      xv6-public/sysproc.c: find_available_address, sys_mmap
--   Munmap    xv6-public/sysproc.c: sys_munmap; it reads page tables through Vm and calls the file
--             layer through the record Files
--   PageFault xv6-public/proc.c: page_fault_handler, over Kalloc, Vm, the mappings and the file layer
--   Fork      xv6-public/proc.c: the loop of fork that shares private mappings copy-on-write
--   Ptable    xv6-public/proc.c: allocproc (which takes a page from Kalloc), wakeup1, kill, the table
--             part of exit, wait, count_children
--   Pipe      xv6-public/pipe.c: pipewrite, piperead, pipeclose
--   Ftable    xv6-public/file.c: filealloc, filedup, fileclose, fileread, filewrite; pipes, inodes and
--             the log enter through the record Lower, which its child Inodes fills with fs.c's writei
--   Spinlock  xv6-public/spinlock.c, sleeplock.c: the steps of the processors that use a lock
--   Fs        xv6-public/fs.c: Bitmap has the block allocator, Inode the inodes and, in its child Content,
--             the reading and writing of their data through bmap, Icache the table of inodes in use,
--             Dir the directories, Path the names of files
--   Syscall   xv6-public/syscall.c, sysfile.c: the arguments of system calls and file descriptors
--   Bio       xv6-public/bio.c: the buffer cache with its links, and iderw of xv6-public/memide.c
--   Log       xv6-public/log.c: all of it, over a disk that a crash can leave at any write
--   Cstring   xv6-public/string.c: memset, memcmp, memmove, strncmp, strncpy, safestrcpy; the string
--             instructions of x86.h
--   Ulib      xv6-public/ulib.c: strcmp, strchr, atoi
--   Printf    xv6-public/printf.c: printint, printf
--   Grep      xv6-public/grep.c: the matcher and the loop over the input
--   Shell     xv6-public/sh.c: the parser; its child Syntax has the syntax of command lines
--   Tests     runs at concrete inputs
--   Prelude   shared names, tests on numbers, lists, tables
--
-- Numbers are natural numbers; an `int` or `uint` is its 32-bit pattern and every sum that can wrap is
-- taken modulo 2^32. Pointers are numbers, 0 is NULL, and the pointer to ptable.proc[i] is i + 1. A
-- panic, and undefined behaviour such as a write past an array, is `none`. A function that runs under
-- a spin lock is one step; a call that sleeps ends there and goes on by another call.
-- Fuel: the loop of find_available_address gets one round for each page of the area and two more;
-- that of sys_munmap one for each page of the request and two more; that of filewrite one for each
-- piece and two more; that of fork one for each page of a mapping and two more; those of freerange,
-- of mappages and of deallocuvm one for each page of the address space (freerange one more); those
-- of balloc one for each block of the bitmap and two more, and one for each of its bits; those of
-- readi and writei one for each block touched and more; those over a directory one for each entry
-- and two more; those of bget one for each buffer and one more; that of namex one for each
-- character and one more; the parser of the shell three calls for each character and three more;
-- that of grep over the lines one for each character held; that of printint ten, the digits of the
-- largest `uint` in base 10. The theorems show that this is enough, except for the loop of fork,
-- whose theorem is on one round, and for the directories, on which there is none.
--
-- Not modelled: the interrupt and device layer (trap entry, lapic, ioapic, ide, uart, console, mp),
-- the boot code, and the user programs but grep and the shell's parser; they are assembly, device
-- registers or text output. Nor, of the kernel: exec, setupkvm, allocuvm, copyuvm and copyout of
-- vm.c, the scheduler, the rest of fork, and the system calls of sysfile.c beyond their arguments.
pub mod Prelude
pub mod Mmu
pub mod Kalloc
pub mod Proc
pub mod Vm
pub mod Mmap
pub mod Ptable
pub mod Munmap
pub mod PageFault
pub mod Pipe
pub mod Ftable
pub mod Fork
pub mod Cstring
pub mod Log
pub mod Grep
pub mod Ulib
pub mod Printf
pub mod Spinlock
pub mod Fs
pub mod Syscall
pub mod Shell
pub mod Bio
mod Tests
