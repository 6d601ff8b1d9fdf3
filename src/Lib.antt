-- ===== src/Lib.antt =====
-- The frog kernel, an i686 kernel in C: its memory management, its processes and system calls, its
-- virtual file system with the file systems behind it, its threads, its interrupts, its input devices
-- and its string, memory and formatting functions.
--
-- The parts and how they interact. At boot, the memory map of the loader (src/memory/mmap.c) gives
-- the usable regions, from which the physical memory manager (src/memory/pmm.c) builds a bitmap of
-- page frames. Paging (src/memory/paging.c) takes frames from it for page tables, and the
-- heap (src/memory/kheap.c) for its pages. The virtual file system (src/vfs/vfs.c) resolves paths over
-- a table of mounts and calls the drivers through their tables of operations; the initial RAM disk and
-- the device file system are such drivers. Interrupts (src/idt/isr.c) go to handlers: those of the
-- devices (src/devices) keep the time and put the keys that are pressed into ring buffers, and that of
-- a system call (src/userspace/usyscall.c) checks the pointers of the program and calls the virtual
-- file system or changes the state of processes and threads. A process (src/userspace/uprocess.c) has
-- a page directory, which is filled through windows in that of the kernel, a program, and a thread,
-- which the scheduler (src/thread/kthread.c) keeps in a ring.
--
--   Base        helpers: tests and their lemmas, lists and integers over the native numbers, arrays
--               as functions, and Outcome, the result of code that may call panic
--   Memory      Tags: the loader's data; Mmap: mmap_init; Pmm: the bitmap, the allocator,
--               and pmm_init in Pmm/Init; Paging: map_page, unmap_page and paging_init;
--               Heap: src/memory/kheap.c
--   Misc        Util: src/misc/util.c; Mem: src/misc/mem.c; Printf: src/misc/printf.c
--   Vfs         src/vfs/vfs.c: the descriptors, the mounts and vfs_resolve; Calls: the
--               entry points; Walk and Open: what a path and an open come to
--   Devfs       src/devfs/devfs.c
--   Initrd      src/initrd/initrd.c; Fs: src/initrd/initrdfs.c; Archive: the files
--               that an archive in memory has
--   Devices     Clock: src/devices/rtc/rtc.c and src/devices/pit/pit.c; Tty: src/devices/tty/tty.c;
--               Keyboard: src/devices/keyboard/keyboard.c; Mouse: src/devices/mouse/mouse.c;
--               Chars and Register: src/devices/fb/fb.c, src/devices/null/null.c and
--               src/devices/zero/zero.c
--   Screen      src/framebuffer/console.c
--   Thread      src/thread/kthread.c; Create: the stack of a new thread
--   Process     src/userspace/uprocess.c: the list; Dir: page directories; Load: programs, with the
--               stack in Load/Args; Create: uprocess_create
--   Syscall     src/userspace/usyscall.c; Life: sys_exit and sys_wait, with the steps of a system of
--               processes in Life/Steps; Table: the numbers of the calls
--   Idt, Gdt    src/idt/idt.c and src/idt/isr.c; src/gdt/gdt.c
--   Ksym        src/ksym/ksym.c
--   Libc        initrd/libc/string.c
--
-- A function keeps its name without the prefix that is the module's own (pmm_alloc_frame is
-- Memory.Pmm.alloc_frame). Global variables are a record that is passed along; a static loop is a
-- function over the rounds that are left. A pointer is a number and NULL is 0. Words wrap around
-- where the code's types do (`% 2 ^ 32`). A call of panic does not return: the result is `panic`.
-- Where the code writes past the end of a local array (component in vfs_resolve, fullpath in
-- initrd_lookup, tmp in vsnprintf), or frees an address that no block of the heap has, nothing is said
-- of what follows: the result is `none`.
-- Memory is a function of the address; where only words are read and written, of words.
--
-- A handler that sleeps is cut where it sleeps. What runs meanwhile is a relation of steps between
-- states, in which the scheduler may choose any process.
--
-- Fuel: vfs_resolve runs on one round per character of the path and one more, since each round but
-- the last takes a component off it, vsnprintf on one per character of the format and one more, and
-- utoa on 32 rounds and one more, since each halves a 32-bit value at least. The walks over the ring
-- of threads, the list of processes, the loader's tags, the headers of the archive and a text in
-- memory, and kmalloc, which calls itself, take any fuel: a round for each thread, process, tag,
-- header or character and one more, or two calls for a block that fits a page, are enough.
--
-- Not modelled: assembly (start-up, interrupt stubs, the flush of the TLB, the switch of stacks),
-- port I/O, the order of initialisation in kernel.c, ftoa, the pixels of framebuffer.c, what is
-- printed to the serial port, sys_spawn as a whole (its parts are modelled), and user programs. The
-- drivers of file systems stand behind the record Vfs.Drivers.
mod Base
pub mod Devfs
pub mod Devices
pub mod Gdt
pub mod Idt
pub mod Initrd
pub mod Ksym
pub mod Libc
pub mod Memory
pub mod Misc
pub mod Process
pub mod Screen
pub mod Syscall
pub mod Thread
pub mod Vfs
