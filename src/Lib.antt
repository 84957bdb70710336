-- ===== src/Lib.antt =====
-- Verification of the kernel of lOSt.
--
-- The kernel is a single program in C. The page allocator hands out memory to everything else. The
-- scheduler keeps a list of processes in pages that it gets there, and its `schedule` runs at each
-- timer interrupt. The interrupt dispatcher calls the handlers of the drivers: the timer counts, the
-- keyboard passes characters to a listener. The console prints over the first serial port with the
-- string routines, and the shell edits a line in a page and writes to the screen. The drives and the
-- filesystems stand in two tables; the FAT driver works on a drive through them. A process reaches the
-- allocator, the scheduler and the files by its system calls. `kmain` starts the parts one after the
-- other and leaves two processes, the idle one and the shell.
--
-- Files, with the source that each is about (paths from the root of the repository):
--   Common       shared names, tests, lists, words of 8, 16 and 32 bits, signed integers
--   Memory       kernel/memory/mmanager.c: the page table is a function from indices to entries;
--                Search, Marks, Alloc, Free, Pages, Count, Init, Owner and Filling hold what is
--                proved of it
--   Text         kernel/memory/string.c on the bytes of memory; Sprintf is ksprintf, with its steps in
--                Sheet, Appends and Pieces and its comparison with kprintf in Formats
--   Timer        kernel/drivers/timer.c
--   Keyboard     kernel/drivers/kb.c and kernel/drivers/ps2.c
--   Scheduler    kernel/proc/scheduler.c with proc.h, scheduler.h and push_args of scheduler.s,
--                with Fork for fork and exec: Next, Switch and Rounds are about schedule, Slots and
--                Kfork about the list
--   Serial       kernel/drivers/serial.c: Console and Printf are about the printing, Wire about ports
--   Interrupts   kernel/cpu/idt.c: the gates, the handlers, the dispatch, and Panic with its
--                texts
--   Syscalls     native_irq and software_int of kernel/cpu/idt.c: Pages is about memory, Input about
--                the standard input
--   Storage      kernel/drivers/storage.c: the tables, the ramdisk and the choice of a driver; Detect
--                recognises a FAT volume by the records of kernel/filesystems/fat.h, and
--                Partitions and Mounting are about register_drive
--   Ata          kernel/drivers/ata.c: reading and writing; Identify is the identification of drives
--   Floppy       kernel/drivers/floppy.c: Driver has the waits, Commands the calls, Starting and
--                Reading what is sent; Dma and Bounds are about kernel/drivers/dma.c
--   Screen       kernel/graphics/vga.c, and the writing at the cursor of kernel/eshell/eshell.c
--   Shell        kernel/eshell/eshell.c: the line that is typed, the commands, the prompt
--   Fat          kernel/filesystems/fat.c: the cached table; Chains is the search for a free cluster,
--                Files reads and writes, Names searches a directory, Mount registers, Open opens,
--                and Calls has the file calls of kernel/drivers/storage.c
--   Boot         kernel/main.c and kernel/cpu/cpu.c: Main is kmain, Started the first processes, Steps
--                and Ready what kmain leaves
-- The file Tests of each part runs definitions at concrete values and applies the theorems there.
--
-- State is a record of the variables of a C file, and an operation returns the new record. A function
-- keeps the name it has in the source; a part of one that has no name there is named for what it does
-- (`find_pages` is the outer loop of kmalloc, `next_pid` the search in schedule). Addresses and
-- words are natural numbers; where the source wraps around, the remainder is written out. A null
-- pointer is 0, or `none` where the model has the object itself.
--
-- Loops are structural, or recurse on fuel, and `none` is a run past its fuel. The walks of kfree over
-- a block have 2^20 steps, the number of pages of the address space; the walks over the list of
-- processes have 65536, its length; those over strings take their fuel as an argument, and the
-- theorems ask for one more than the length of the string, and for ksprintf for the size of its pages.
-- The waits of the ATA and floppy drivers take theirs as an argument too, since they last as long as
-- the hardware takes. fat32_read halves a number below 2^32 in each of its rounds, so that 33 are
-- enough.
--
-- Taken as arguments: what a fresh page holds, what a handler or a listener does, what a port answers,
-- the file calls in Syscalls, the key that kernel/cpu/ksec.c makes, the entry points of idt.s, the
-- registration of a FAT volume in Storage.Detect, that of a drive in Ata.Identify, and in Storage and
-- Fat the ATA driver, which Ata has on a memory of words; there `none` is a call that does not come
-- back, and the theorems that need it to come back say so. A text that kmain or panic prints is what
-- kprintf sends for it. Interrupts come in where a theorem says so: kmain takes one between its two
-- calls of kfork as an argument, and the floppy driver those after which the interrupted code goes on,
-- which its void handler does not make sure of. Not modelled: fat32_create_file, which works on the
-- null pointers that fat32_open_file returns, kernel/cpu/ksec.c, whose shifts are undefined, and the
-- tables of the processor and the boot loader, which are assembly.
pub mod Common
pub mod Memory
pub mod Text
pub mod Timer
pub mod Keyboard
pub mod Scheduler
pub mod Serial
pub mod Interrupts
pub mod Storage
pub mod Ata
pub mod Floppy
pub mod Screen
pub mod Shell
pub mod Fat
pub mod Syscalls
pub mod Boot
