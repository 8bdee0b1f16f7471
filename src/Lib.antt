-- ===== src/Lib.antt =====
-- The kernel of an xv6 system with a lazy page allocator, in C. The parts, and the file that models
-- each: Kalloc, the physical pages (kalloc.c); Vm, page tables (vm.c) in those pages; Proc, the
-- process table (proc.c), with Proc/Memory for sbrk, the lazy allocator and the page fault (proc.c,
-- sysproc.c, trap.c); File, open files and descriptors (file.c, sysfile.c); Pipe (pipe.c); Bio, the
-- block cache (bio.c); Log, the write-ahead log over it (log.c); Strings (string.c); Args, the
-- fetching of system-call arguments (syscall.c); Sysproc, the calls on processes (sysproc.c);
-- Console, the line buffer of the keyboard (console.c), with Console/Print for cprintf; Spinlock
-- (spinlock.c); Grep, the matcher of a user program (grep.c); Ulib, strings and numbers of the user
-- library (ulib.c, printf.c), with Ulib/Heap for malloc and free (umalloc.c); Sh, the parser of the
-- shell (sh.c), with Sh/Run for runcmd and main; Fs, the file system (fs.c): Fs/Blocks has the
-- bitmap, Fs/Inodes the cache of inodes and their copies on the disk, Fs/Content bmap, readi and
-- writei, Fs/Dirs directories and namex, Fs/Path the splitting of paths; Sysfile, the system calls
-- on files (sysfile.c, file.c), on top of Fs and File. Base has what they share. fork, exit and
-- wait of Proc call kalloc, kfree, copyuvm and freevm, and the loops over descriptors in File; the
-- page fault calls kalloc and mappages. Definitions have the names of the C functions; the part of
-- a function that is a loop, or that stands behind a call, is a definition of its own.
--
-- Memory is a function from addresses to words, or to bytes in Strings and Args; an unsigned int is
-- a number with `% 2 ^ 32` written out, an int that a function returns an integer. panic is a
-- result. A function that sleeps ends there, and says on what; a call made under a lock is one
-- step. exit runs pipeclose and iput, which are arguments of it, on a state of their own. Loops are
-- recursions over the list or on the number of rounds that is left. The loops over pages of
-- freerange, mappages, allocuvm and deallocuvm have fuel for each page of their range; the fuel of
-- strlen is an argument, and a string longer than it has no length. A crash of the disk is the loss
-- of all writes past a given number of them.
--
-- printint has the 16 rounds that its buffer has room for. Fs sees a block as bread gives it, whole
-- and current; an operation on it is a function of the state that is done, panics, or waits for a
-- locked inode. Its log_write has the panics of log.c's, from the number of calls in a transaction
-- and the blocks that the transaction has logged; the size of the log is that of the superblock.
-- The loops of readi and writei have a round for each byte, those over a directory one for each
-- entry, balloc one for each block of the bitmap; namex has the length of the path as fuel, and the
-- parser of the shell 4 for each character of the line; malloc and free take theirs as an argument.
-- The tables of device functions, and in Sysfile the functions on pipes, are arguments.
--
-- Ide is the disk driver (ide.c): its requests wait in a queue of buffers, the disk behind its
-- ports is a record of operations with the behaviour that the ATA standard gives them, and a run is
-- any sequence of requests and interrupts; Ide/Memory has memide.c, and sets Ide beside the one
-- step that Bio takes. The polls of idewait are bounded by the disk's own time to get ready, and
-- any status may report a fault; Bio's step is that of a disk without a fault. Proc/Pass is a pass
-- of the scheduler over the table, in which a process's run is an argument. Exec is exec.c, with
-- loaduvm and copyout of vm.c: Exec has the loading of the file, Exec/Stack the user stack,
-- Exec/Call the whole, Exec/Args sys_exec (sysfile.c); loaduvm has a round for each page, copyout
-- one for each byte. Mkfs builds the file system's image (mkfs.c), whose bitmap Fs then reads.
--
-- Not modelled: the screen, the start of the machine, the drivers of other devices, and the saved
-- registers of a process.
pub mod Base
pub mod Args
pub mod Bio
pub mod Console
pub mod Exec
pub mod File
pub mod Fs
pub mod Grep
pub mod Ide
pub mod Kalloc
pub mod Log
pub mod Mkfs
pub mod Pipe
pub mod Proc
pub mod Sh
pub mod Spinlock
pub mod Strings
pub mod Sysfile
pub mod Sysproc
pub mod Ulib
pub mod Vm
