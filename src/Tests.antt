-- ===== src/Tests.antt =====
-- Tests, and the theorems at concrete inputs.
mod Kalloc
mod Mmap
mod Pipe
mod Ptable
mod Vm
mod PageFault
mod Ftable
mod Fork
mod Cstring
mod Log
mod Printf
mod Fs
mod Spinlock
mod Grep
mod Inodes
mod Bio
mod Shell
