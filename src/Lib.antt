-- ===== src/Lib.antt =====
-- The Flinstone kernel and its embedded x86 machine.
--
-- The repository holds a small kernel core in C, hosted or on bare metal, and an x86 machine that
-- runs inside of it. This library models the parts below as functions on records and states what
-- makes them correct. A C int or fixed-width integer is a natural number with its wrap-around
-- written out (u8, u16, u32 and u64 of Base), an array is a function of its index, a byte string
-- a list, and a function that may fail returns an Option or a Boolean in place of 0 and -1.
--
-- Base: the names of the mounted libraries, and helpers on lists, arrays, words and rings.
-- PriorityQueue: kernel/core/sched/priority_queue.c. Slots, links, free stack, bitmap of layers and
--   generations as in the source. Inv says how the links represent one list for each layer, Spec is
--   the abstract queue, Traces compares the two over sequences of calls. The loop of pq_count_layer
--   has fuel 128, the number of slots, which no list in the queue exceeds.
-- Ipc: kernel/core/sys/ipc.c. Pipe and Msgq are the rings of bytes and of messages, in both builds;
--   an operation holds its lock throughout and is one step. A call of the hosted build that would
--   block is the outcome waits, and its wake-up a step of its own; a freed object is none, and what
--   is done to it has no defined answer. Spec says for each what it promises.
-- Sys: Vrt is kernel/core/sys/vrt.c, the table of handles, and Syscall is kernel/core/sys/syscall.c,
--   the calls on pipes and message queues through the table.
-- Vfs: kernel/core/vfs. Policy is fs_policy.c, Chain fs_chain.c, PathLog path_log.c, Events
--   fs_events.c, Command fs_command.c and Manager fs_facade.c, the file manager with its undo stack.
--   Provider is the table of functions of fs_provider.c, which the manager takes as an interface;
--   Manager/Store names what a provider's calls do. MemoryVfs and HostVfs are the two file systems
--   of vfs.c. Jail is fs_jail.c, whose loop has as fuel the number of components of the path.
--   Policy/Below tells paths by their components.
-- Drivers: kernel/drivers. Table is the C array with a count that driver_model.c has for each of its
--   parts: Resources the claims, Devfs the device files, Irq the interrupts, Dma the DMA records,
--   Lifecycle the way from enumeration to shutdown, Query what it tells, Block the driver it
--   registers. Enumerate is bus.c. A loop that removes entries has as fuel the number of entries.
--   The operations of a driver and the interrupt handlers act on a state of their own, and not on
--   these tables. Vga is the text screen of display_driver.c on x86.
-- Mm: kernel/core/mm, of it the arenas of mem_domain.c on bare metal (Arena) with the calls of
--   kmalloc.c. The free list is a list; a block is named by its place. Frames is pmm.c, whose loops
--   count the 16 words of the bitmap or the frames of a range.
-- Jobs: kernel/core/sched/threadpool.c over the priority queue, one step for each hold of its lock.
-- Vm: VM/devices. Mem is vm_mem.c, Cpu is vm_cpu.c and the register access of vm.c, Decode is
--   vm_decode.c, Exec the execute function and Step the fetch loop of vm.c, whose count of
--   instructions is its own bound. Host is vm_host.c, Host/Snapshot is vm_snapshot.c, and Io with
--   Io/Handlers is vm_io.c. Exec takes the ports as the interface Devices, and the ports take the
--   disk, the drivers, the serial output and the system calls as the interface World. A local that
--   a failed read leaves unset is a parameter too (junk). Sched is the scheduler loops of vm.c over
--   the priority queue, whose fuel is the number of passes: two for each cycle and one more.
--
-- Parameters are what an allocation returns, the files of the host, the disk image, the block
-- driver and the interrupt controller. Not modelled, since they are input and output of the host or of
-- ports, are the assembly, the other drivers, the windows and files of the host, the shell, the
-- switching of threads, and the boot of the machine.
pub mod Base
pub mod PriorityQueue
pub mod Vm
pub mod Ipc
pub mod Sys
pub mod Vfs
pub mod Drivers
pub mod Mm
pub mod Jobs
