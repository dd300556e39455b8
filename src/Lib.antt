-- ===== src/Lib.antt =====
-- The kernel of McpgOS, a 32-bit x86 operating system in C, in a model that runs.
--
-- The parts and how they meet. The memory manager hands out physical pages, and ranges
-- of kernel address space with physical pages mapped to them, and keeps the page directories of
-- processes, between which the scheduler switches. Drivers register with
-- the driver manager and show themselves as streams, tables of callbacks; the terminal and the RAM
-- disks are such drivers, and `Kprintf` writes to a stream, the terminal's unless another is set.
-- File systems register by name; the one of the devices shows them as the children of a directory.
-- The interrupt table leads every interrupt to `IdtGlobalIntHandler`, which calls the handler that
-- is registered for the vector and then acknowledges the interrupt at the interrupt controllers.
-- `KMain` starts the parts one after the other, and then waits for interrupts.
-- The scheduler is the handler of the timer's vector: it keeps processes and threads in linked
-- lists and exchanges the registers of the interrupted thread for those of the next one.
--
-- Where each part stands:
--   Mm.Physical        kernel/src/MM/PhysicalMemory.c: the bitmap of pages and its search start
--   Mm.Virtual         kernel/src/MM/VirtualMemory.c, over Mm.Physical and the kernel's page tables
--   Mm.Hooks           kernel/src/MM/LibAllocStubs.c, over Mm.Virtual
--   Mm.Paging          kernel/src/MM/Paging.c: page directories and page tables in a memory of words
--   Utils.LinkedList   kernel/src/Utils/LinkedList.c, over a heap of elements
--   Io                 kernel/include/IOStream.h
--   Kprintf            kernel/src/Kprintf.c
--   Vfs                kernel/src/Vfs/Vfs.c: the registered file systems
--   Vfs.Devfs          kernel/src/Vfs/Devfs.c, over Vfs
--   Drivers.Manager    kernel/src/Drivers/DriverManager.c
--   Drivers.Tty        kernel/src/Drivers/TTY.c
--   Drivers.RamDisk    kernel/src/Drivers/RamDisk.c
--   Drivers.Keyboard   kernel/src/Drivers/PS2Keyboard.c
--   Cpu.Ports          kernel/include/CPU/IO.h
--   Cpu.Pic            kernel/src/CPU/PIC.c and kernel/src/CPU/Pit.c
--   Cpu.Idt            kernel/src/CPU/IDT.c and kernel/include/CPU/Idt.h
--   Syscalls           kernel/src/Syscalls/Syscalls.c
--   Scheduler.Frames   `SchedSaveFrame` and `SchedLoadFrame` of kernel/src/Scheduler/Scheduler.c
--   Scheduler.Irq      `SchedIrqHandler` and what it calls, in the same file
--   Scheduler.Create   `SchedCreateProcess` and `SchedCreateThread`, in the same file
--   Scheduler.Start    `SchedInit` and `SchedSleep`, in the same file
--   Libc.Memory        libc/src/string/memset.c and libc/src/string/memcpy.c
--   Libc.Strings       libc/src/string/strlen.c and libc/src/string/strcmp.c
--   Kernel             kernel/src/KMain.c, with the end of `TTYInit`, over all parts, and the interrupts
--                      after it; Kernel.Panic: kernel/src/KPanic.c
--   Base               words, runs and lemmas that the parts share
-- A function of the source has its name without the prefix of its part, in lower case:
-- `MmPmAllocate` is `allocate` of Mm.Physical, `LListPushBack` is `push_back` of Utils.LinkedList.
-- The modules below a part are named for what they prove; those named Tests run it.
--
-- A piece of code is a function from a state to a run (Base.Run): it returns a value and a new
-- state, or it panics, or it faults, where the source would follow a bad pointer or leave an array,
-- or it is out of fuel. Numbers are natural numbers, with the wrap of each width written out.
-- Pointers are addresses, and 0 is NULL; structures that are linked to each other lie in functions
-- from addresses.
--
-- Loops over a fixed range are structural. Loops that follow pointers run on fuel, one unit a round:
-- on a list, one more than the elements that are passed is enough, and the theorems on lists have
-- this as their bound. The search of the scheduler for the next thread runs on fuel too. It need not
-- end, since every thread may sleep; where the walk over the lists leads to a running thread, as much
-- fuel as its steps, and as the processes that one step passes, is enough. The loops of `MmMmap` test
-- nothing that they change: the one that maps ends in a panic or a fault within as much fuel as there
-- are physical pages left, and the one that looks at the pages behind a given pointer need not end.
-- `strcmp` and the search for a file system have one fuel for all their loops,
-- more than the names have characters and than there are file systems. `KMain` has one fuel for all
-- that it calls, for which six is enough.
--
-- Not in the model: the heap allocator (kernel/src/MM/LibAlloc.c), a copy of another project's
-- library, whose results are arguments, so that the pages it takes do not show in the state of the
-- kernel; the loops of the first two threads, so that what a thread does shows only in the
-- registers of its interrupts, which are any, and in a call of `SchedSleep`; and the assembly
-- files, which load the tables of the processor and start `KMain`. kernel/include/Multiboot2.h
-- declares structures that no code uses. What devices answer at a port is a parameter, as is the
-- byte that the processor reads at the address that a system call is given, or the page fault that
-- it meets, which ends the run as a fault, and so are the size of the kernel and the addresses of
-- its objects and page tables, which the linker script gives. The writes of the terminal to ports
-- and the acknowledgements of interrupts are kept in two logs.
--
-- `UserEsp` and `Ss` are fields of every interrupt's frame here, as the functions that save and load
-- it use them. At an interrupt of the kernel's mode the processor neither pushes nor loads them: there
-- they are the two words behind the frame on the stack.
mod Base
pub mod Libc
pub mod Mm
pub mod Utils
pub mod Vfs
pub mod Io
pub mod Kprintf
pub mod Drivers
pub mod Cpu
pub mod Scheduler
pub mod Syscalls
pub mod Kernel
