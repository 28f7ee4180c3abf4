-- ===== src/Lib.antt =====
-- The GuideOS kernel: a small x86-64 kernel in C under kernel/, with a system-call library in
-- lib/libsys and two boot loader stages.
--
-- The parts, and the files that model them:
-- - Prelude: shared names, lists with native indices, bits of a word, and `Cmd S A`, the commands on
--   a state `S`. A run ends with a value and a state, in `panic`, in a fault or out of fuel;
--   `Returns P r` says that it ends with a value and a state of which `P` holds.
-- - Fifo: kernel/src/util/fifo.c, the ring of bytes with one writer and one reader. Fifo.Refine
--   compares it with a bounded queue; Fifo.Concurrent interleaves the memory accesses of the two
--   sides, in the order of the source and sequentially consistent.
-- - Heap and Dequeue: kernel/src/util/queue.c, a doubly linked queue over an explicit memory of
--   nodes. `kmalloc` and `kfree` are a pool of blocks there: `kfree` gives a node's block back to it.
--   At the start the pool is empty, and Mpmain fills it from Kmalloc.
-- - Cpu: kernel/src/cpu.c, the table of CPUs and the nesting of interrupt disabling.
-- - Spinlock: kernel/src/spinlock.c, as one CPU runs it, and (Spinlock.Mutex) as interleaved steps
--   of any number of CPUs.
-- - Sched: kernel/src/proc/sched.c. `sched_ctxsw` is assembly that switches stacks, so a function
--   that calls it is cut there into the part before (`yield_out`, `sleep_out`, `sched_pick`) and the
--   part after (`yield_in`, `sleep_in`, `sched_put_back`). It calls the queue, the lock and the CPU
--   models on its own state.
--   Sched.Yield and Sched.Sleep say what the parts before the switch do, and Sched.Start has the loop of
--   `sched_start`, where what happens between two switches is a parameter, a list of turns.
-- - Proc: kernel/src/proc/proc.c, the table of processes, its lock and the kernel stacks, with pages
--   from PageAlloc; and how sched.c makes a kernel process. A stack on the page NULL faults, since
--   `vmm_init` maps nothing below the kernel's half.
-- - Loader: stage2_bootloader/src/stage2_loader.c, which copies the kernel to where it starts.
-- - Memlayout: kernel/include/mem/memlayout.h, physical and virtual addresses.
-- - PageAlloc: kernel/src/mem/page_alloc.c, the buddy allocator, on page indices. PageAlloc.Locked
--   has the functions that take its lock, and PageAlloc.Init `pgalloc_init`, which takes the bitmaps
--   from BootAlloc; what those pages hold is part of the state.
-- - Kmalloc: kernel/src/mem/kmalloc.c, the free list of small blocks, with its lock and the pages that
--   it takes from PageAlloc. `free_bytes` counts the bytes of both allocators.
-- - BootAlloc: kernel/src/mem/boot_alloc.c.
-- - Kmain: how kernel/src/kmain.c sets up the memory: BootAlloc, Vm, PageAlloc and Kmalloc in turn.
--   Kmain.Whole is all of `kmain`, with the devices of Controllers, Descriptors, Console and Systick and
--   the processes of Mpmain, up to the first switch.
-- - Mpmain: `proc_init` of kernel/src/proc/proc.c, `mpmain` of kernel/src/kmain.c and the set-up in
--   `sched_start`, up to the first switch: Proc, PageAlloc, Kmalloc and Sched on one
--   state. `take_node` takes the block for the queue node of the first process from `kmalloc`, just
--   before `sched_add`.
-- - Strings: kernel/src/util/string.c on a byte-addressed memory.
-- - Console: the text screen of kernel/src/arch/x86/console.c, which scrolls with `memcpy`, and
--   (Console.Input) `putchar`, `console_getc` and the interrupt handler, over the ring, the serial
--   port and the scheduler; Console.Init sets it up, with a buffer from Kmalloc.
-- - Handshake: a reader in `console_getc` and the handler on another CPU, as interleaved steps: one for
--   each lock operation and each access to the ring, sequentially consistent.
-- - Shell: the line editor, the splitter and the commands of kernel/src/kshell.c. Shell.Words says
--   what the words of a line are, and Shell.Round what a round of the loop of `kshell_main` answers.
-- - Vm: kernel/src/arch/x86/mem/vm.c, the kernel's page table, with pages from BootAlloc.
-- - Descriptors: the tables that kernel/src/arch/x86/interrupt.c and kernel/src/arch/x86/system.c
--   fill in for the processor.
-- - Uart: kernel/src/device/uart/uart.c as a trace of register writes. What a read answers is a
--   parameter, the function `device` of the writes so far. Uart.Device says at which ports or addresses
--   these writes are.
-- - Systick: kernel/src/time/systick.c.
-- - Trap: `handle_interrupt` of kernel/src/arch/x86/interrupt.c and kernel/src/syscall.c, up to the
--   switch if the interrupted process gives the CPU up. What the serial port has received is a list.
-- - Controllers: kernel/src/arch/x86/lapic.c, kernel/src/arch/x86/ioapic.c and
--   kernel/src/arch/x86/x86_pic.c as traces of register writes.
--
-- Integers: `size_t` and `u32` wrap where the source can reach the bound, written out as `% 2 ^ w`.
-- Pointers are numbers, and NULL is 0 or `none`.
--
-- Fuel: `spins` bounds the rounds of the wait in `acquire`, one round for a free lock; the loop of
-- `sched_wakeup` gets one round more than the waiting queue has processes; `push_front` gets a depth
-- of calls; `free_block` and `alloc_block` get a call for each order, 11 and 12. `map_loop` gets 513
-- rounds, and the wait of `s_uart_putc` one for a device that is ready; `pgalloc_free_range` gets one
-- round more than the index of its last page; `ksh_split_line` and `strcmp` get one round more than
-- the string has characters. The theorems show that this is enough, or for
-- `push_front` that nothing is.
--
-- Not modelled: formatted output (kernel/src/util/kprintf.c, a copy of another project), assembly
-- (the first boot loader among it), the system-call library (two instructions) and the messages that are printed.
pub mod Prelude
pub mod Memlayout
pub mod Fifo
pub mod Heap
pub mod Dequeue
pub mod Cpu
pub mod Spinlock
pub mod Sched
pub mod Proc
pub mod PageAlloc
pub mod Strings
pub mod Kmalloc
pub mod BootAlloc
pub mod Kmain
pub mod Mpmain
pub mod Console
pub mod Handshake
pub mod Shell
pub mod Descriptors
pub mod Vm
pub mod Uart
pub mod Systick
pub mod Trap
pub mod Controllers
pub mod Loader
