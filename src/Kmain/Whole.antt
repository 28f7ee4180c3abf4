-- ===== src/Kmain/Whole.antt =====
-- `kmain` of kernel/src/kmain.c from its first call to the first switch of `mpmain`, on one state: the
-- memory, the processes, and the devices that are set up between and behind them.
pub mod Switch
use guide_os.Prelude.{ℕ, ◌+◌, ◌*◌, ◌^◌, Bool, Cmd, map_state, ok, pure, ◌>>=◌, ◌>>◌, Ptr}
use guide_os.Memlayout.{p2kv}
use guide_os.Heap.{Heap}
use guide_os.Dequeue.{Dequeue}
use guide_os.Cpu.{cpu_bsp_init}
use guide_os.BootAlloc.{boot_alloc_init, boot_alloc_disable}
use guide_os.Vm.{vmm_init}
use guide_os.PageAlloc.Locked.{pgalloc_free_range}
use guide_os.PageAlloc.Init.{pgalloc_init}
use guide_os.Kmalloc.{kmalloc_init}
use guide_os.Fifo.{Fifo}
use guide_os.Uart.{Trace}
use guide_os.Controllers.{Lapic, lapic_id, lapic_init, pic_init, ioapic_init}
use guide_os.Descriptors.{Gate, interrupt_init}
use guide_os.Systick.{systick_init}
use guide_os.Console.Init.{Devices, console_init}
use guide_os.Sched.{Proc}
use guide_os.Proc.{Stack, Created}
use guide_os.Mpmain.{Image, Boot, proc_init, mpmain}
use guide_os.Kmain.{System, kmem, on_boot, on_tables, on_start, on_machine, on_kmem, on_locked}

-- What the devices answer: the serial port, a local APIC, the base-address register of the processor,
-- and the version register of the I/O APIC
pub record Hardware : Type 0 where
  pub uart : Trace → ℕ → ℕ
  pub lapic : Trace → ℕ → ℕ
  pub apic_base : ℕ
  pub ioapic_version : ℕ

pub record Computer : Type 0 where
  pub system : System
  pub lapic : Lapic
  pub idt : ℕ → Gate
  pub pic : Trace
  pub ioapic : Trace
  pub fifo : Fifo
  pub uart : Trace
  pub uart_enable : Bool
  pub sys_tick : ℕ
  pub heap : Heap
  pub proc : Ptr → Proc
  pub idle_proc : ℕ → Ptr
  pub ready_queue : Dequeue
  pub waiting_queue : Dequeue
  pub next_pid : ℕ
  pub stack : ℕ → Stack
  pub idle_stack : ℕ → Stack
  pub made : Ptr → Created

abbrev pub on_system : {A : Type 0} → Cmd System A → Cmd Computer A
on_system f c = map_state (λ s. record c { system = s }) (f c.system)

abbrev pub on_lapic : {A : Type 0} → Cmd Lapic A → Cmd Computer A
on_lapic f c = map_state (λ l. record c { lapic = l }) (f c.lapic)

abbrev pub devices : Computer → Devices
devices c = record {
  mem = kmem c.system;
  fifo = c.fifo;
  uart = c.uart;
  ioapic = c.ioapic;
  uart_enable = c.uart_enable;
}

abbrev pub with_devices : Computer → Devices → Computer
with_devices c d = record c {
  system = record (c.system) {
    start = record (c.system.start) { machine = d.mem.machine; pages = d.mem.pages };
    size_list = d.mem.size_list;
    size_at = d.mem.size_at;
    bytes = d.mem.bytes;
  };
  fifo = d.fifo;
  uart = d.uart;
  ioapic = d.ioapic;
  uart_enable = d.uart_enable;
}

abbrev pub on_devices : {A : Type 0} → Cmd Devices A → Cmd Computer A
on_devices f c = map_state (with_devices c) (f (devices c))

abbrev pub processes : Computer → Boot
processes c = record {
  kernel = record {
    machine = c.system.start.machine;
    heap = c.heap;
    proc = c.proc;
    idle_proc = c.idle_proc;
    ready_queue = c.ready_queue;
    waiting_queue = c.waiting_queue;
  };
  pages = c.system.start.pages;
  next_pid = c.next_pid;
  stack = c.stack;
  idle_stack = c.idle_stack;
  made = c.made;
  size_list = c.system.size_list;
  size_at = c.system.size_at;
  bytes = c.system.bytes;
}

abbrev pub with_processes : Computer → Boot → Computer
with_processes c b = record c {
  system = record (c.system) {
    start = record (c.system.start) { machine = b.kernel.machine; pages = b.pages };
    size_list = b.size_list;
    size_at = b.size_at;
    bytes = b.bytes;
  };
  heap = b.kernel.heap;
  proc = b.kernel.proc;
  idle_proc = b.kernel.idle_proc;
  ready_queue = b.kernel.ready_queue;
  waiting_queue = b.kernel.waiting_queue;
  next_pid = b.next_pid;
  stack = b.stack;
  idle_stack = b.idle_stack;
  made = b.made;
}

abbrev pub on_processes : {A : Type 0} → Cmd Boot A → Cmd Computer A
on_processes f c = map_state (with_processes c) (f (processes c))

-- `kmain` from the set-up of the system devices on
unfoldable pub start_devices : Hardware → Image → ℕ → Cmd Computer Ptr
start_devices hw im spins = do
  (λ c. on_devices (console_init hw.uart (lapic_id hw.lapic c.lapic) spins spins) c)
  (λ c. ok tt (record c { sys_tick = systick_init c.sys_tick }))
  on_processes (proc_init spins im)
  on_processes (mpmain spins im)

-- The calls of `kmain` in their order. `vectors` are the addresses of the interrupt vectors, and
-- `fuel` is for the loop of `pgalloc_free_range`.
unfoldable pub kmain : Hardware → Image → (ℕ → ℕ) → ℕ → ℕ → Ptr → Cmd Computer Ptr
kmain hw im vectors spins fuel kern_end = do
  on_system (on_boot (λ b. (tt, boot_alloc_init kern_end (64 * 1024 * 1024) b)))
  on_system (on_tables vmm_init)
  on_system (on_start (pgalloc_init (4 * 1024 * 1024 * 1024)))
  on_lapic (lapic_init hw.lapic spins hw.apic_base)
  on_system (on_machine cpu_bsp_init)
  (λ c. ok tt (record c { idt = interrupt_init vectors }))
  (λ c. map_state (λ t. record c { pic = t }) (pic_init c.pic))
  (λ c. map_state (λ t. record c { ioapic = t }) (ioapic_init hw.ioapic_version c.ioapic))
  avail ← on_system (on_boot boot_alloc_disable)
  on_system (on_kmem kmalloc_init)
  on_system (on_locked (pgalloc_free_range spins fuel avail (p2kv (64 * 1024 * 1024))))
  start_devices hw im spins
