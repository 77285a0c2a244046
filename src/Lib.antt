-- ===== src/Lib.antt =====
-- VSOP is a small kernel for 32-bit PCs with several processors. Processes exchange bytes through
-- streams, the kernel schedules their threads by priority, and drivers such as the screen run as
-- processes of their own. This library models the parts of the kernel, and of the programs that
-- come with it, that compute on state of their own.
--
-- How the parts interact: a process that connects to another gets a descriptor with two new
-- streams, and so does the other (Descriptors); reading and writing it moves bytes through a
-- stream (Stream) and blocks while it is full or empty. A blocked thread waits for an event,
-- which the scheduler's tick tests (Scheduler, with its queues of threads in LinkedList); the
-- tick is the handler of a vector that Interrupts set up, and sets the stack in the task state of
-- Gdt. Sleeping threads wait for the counter of Timer. A system call (Syscall) works on the state
-- of the whole kernel (Kernel), which holds the processes, streams, drivers (Drivers) and the
-- memory. Paging maps virtual pages, in tables that it reaches through the directory's own entry.
-- At the start Mboot reserves the modules of the boot loader, and Loading makes a process of
-- each. Pages of physical memory come from Palloc, and spin locks (Locks) guard its map and the
-- lists. Util has the routines on text and memory that the others use, Screen prints, and Snake
-- is a program on the full-screen driver.
--
-- The files, with the code that each models:
-- Base, in Base/: numbers, tests, arrays as lists, words and bits, counted loops. No code of the
-- program.
-- Stream: kernel/stream.c, the ring of one stream and its transfer of bytes. Channel has a writer
-- and a reader as a step relation, one step for each round of their loops.
-- Descriptors: kernel/stream.c from iostream_select on, a process's table of descriptors.
-- Locks: kernel/locks.c, with the processors that contend for a lock as a step relation.
-- LinkedList: kernel/list.c, on a heap of list elements.
-- Scheduler: kernel/scheduler.c, the tick and the choice of a processor.
-- Palloc: kernel/palloc.c, the bit map of physical pages.
-- Memory: kernel/memory.c, the filling of that map at the start.
-- Timer: kernel/timer.c, ticks, times and waiting.
-- Util: kernel/util.c, and strlen of libc/utils.c.
-- Screen: kernel/screen.c; Screen/Server: userspace/srv_screen.c; Screen/Fullscreen:
-- userspace/srv_fullscreen.c.
-- Snake: userspace/snake.c.
-- Process: kernel/process.c, the table of processes and its searches.
-- Paging: kernel/paging.c, on a physical memory of words and the walk of the processor. Walk has
-- the kernel's windows into directory and tables, Lookup the lookups, Mapping, Clearing, NewTable
-- and Total the mapping of a page, Clone, Present, Fill, Steps and NewDir the copy of a
-- directory, Switch its use, Boot the directory that kernel/entry.s builds and one of the running
-- kernel.
-- Kernel: the state that system calls and drivers share; Kernel/Tables: reading it after a write.
-- Syscall: kernel/syscall.c; Connect has the call that connects two processes, Transfer bytes
-- from one to the other, Driver the interrupt that a process asks for.
-- Drivers: kernel/drivers.c.
-- Kmalloc: kernel/kmalloc.c, and kbrk of kernel/memory.c; Order has the list of a size, Large the
-- sizes without a list, Break the kernel's break. Weight has sums over the nodes of all lists,
-- Chains the pointers of a list, Shape, Moves, Removal and Nodes what a write does to the lists
-- and to every sum, Runs the functions one step each; Puts, Merges and Cleans have list_clean,
-- Ends list_put, Covers the sums for bytes and for multiples, Takes and Levels list_get, Manages
-- the allocator between its calls, Gives mem_free, Calls, Heaps and Allocs mem_alloc, Start the
-- allocator at its start, and Reach runs of calls as a step relation.
-- Libc: libc/syscalls.c, the calls of the C library; Calls has them at the kernel.
-- Loading: kernel/elf.c, and proc_create of kernel/process.c.
-- Cpu: kernel/cpu.c, the search for the multiprocessor tables and the list of processors; Sync
-- has cpu_sync as a step relation, one step for a processor's way through the section or a test
-- of its loop.
-- Mboot: kernel/mboot.c, the modules of the boot loader and the command line.
-- Gdt: kernel/gdt.c.
-- Interrupts: kernel/interrupts.c, kernel/isr_impl.c and kernel/isr_list.h.
--
-- Owned directories: kernel/entry.s puts one table of the first 4 MiB into entry 0 and entry 768
-- of the directory, and page_dir_clone copies both. A directory is owned where those two entries
-- share their table and no other two entries do, where its last entry leads to itself, and where
-- no page of its tables is free. The home of a page is the page from 768 tables on that stands
-- for it in the shared table, and every other page itself: a mapping changes the pages of one
-- home.
--
-- How the models read: a struct, or the static variables of a file, is a record with the source's
-- field names, and a function of the source is a definition of its name from the state before to
-- the result and the state after. An array is a list, whose reads out of bounds give a default
-- and whose writes out of bounds change nothing; where the code can go out of bounds, the
-- theorems say so through the list's length, or the definition answers none. A pointer to a list
-- element or a thread is a number, 0 for null. Unsigned words are natural numbers with the
-- wrap-around written out, and signed ones integers. The file that holds the definitions comes
-- first, its child modules prove, and the modules called Tests run the code at examples.
--
-- Fuel: the tick's loop, active waiting and the loop over the digits of a number recur on fuel.
-- The tick needs one round more than the number of waiting threads in front of the one it
-- chooses; waiting needs one round more than its ticks; a number has fewer digits than one more
-- than itself, which int2str is given. The calls of list_put, list_clean and mem_alloc in the
-- heap's allocator share one fuel: a list_put needs, for each list from its own on but the last,
-- two rounds more than there are nodes, which is the constant `enough` of Kmalloc/Manages for all
-- lists and all nodes, and mem_alloc of at most a page needs two rounds more. The loop of
-- scheduler_wake_all is given one round more than the size of its list.
--
-- Not modelled: port and register I/O, assembly (the context switch, entry code, stubs of
-- interrupts), printing of diagnostics, and the loops of the driver programs, which only pass
-- messages. Interrupts are enabled in the loop of a tick: the answers of the event functions may
-- differ from round to round, and nothing else changes there. Two processors run the code of a
-- list or of the page map one after the other, as its lock makes them. What kmalloc answers is a
-- parameter where it is called. kmalloc and kfree around the allocator, the thread that a program
-- starts with and messages have no model here.
pub mod Base
pub mod Cpu
pub mod Descriptors
pub mod Drivers
pub mod Gdt
pub mod Interrupts
pub mod Kernel
pub mod Kmalloc
pub mod Libc
pub mod LinkedList
pub mod Loading
pub mod Locks
pub mod Mboot
pub mod Memory
pub mod Paging
pub mod Palloc
pub mod Process
pub mod Scheduler
pub mod Screen
pub mod Snake
pub mod Stream
pub mod Syscall
pub mod Timer
pub mod Util
