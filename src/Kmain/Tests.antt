-- ===== src/Kmain/Tests.antt =====
-- The start of a kernel that ends at 2 MB, on a machine whose serial port is ready.
use guide_os.Prelude.{◌+◌, refl, false, none, [], ◌∷◌, arith, Returns}
use guide_os.Memlayout.{kernbase}
use guide_os.Spinlock.Fixture.{one_cpu}
use guide_os.Sched.{unused}
use guide_os.Proc.{kern_stack, sched_create_kproc}
use guide_os.Heap.{node}
use guide_os.Mpmain.{Image}
use guide_os.Descriptors.{interrupt_init}
use guide_os.Kmain.Whole.{Hardware, Computer}
use guide_os.Kmain.{System, memory_init}
use guide_os.Kmain.Memory.{Fresh, Started, memory_init-Started}

abbrev system : System
system = record {
  start = record {
    machine = record (one_cpu 0) { ncpu = 0 };
    boot = record { begin_kva = 0; end_kva = 0; initialized = false };
    words = λ a. 0;
    pages = record { bin = λ o. record { list = []; size = 0; bitmap = [] } };
    max_addr = 0;
  };
  entry = λ t i. 7;
  size_list = [];
  size_at = λ a. 0;
  bytes = λ a. 0;
}

system-Fresh : Fresh 0x200000 system
system-Fresh = record {
  boot = refl;
  max_addr = refl;
  off = refl;
  room = omega arith;
  zeros = λ a le. refl;
}

memory_init-Started_example :
    Returns (λ r s'. Started 0x200000 s') (memory_init 1 16385 (kernbase + 0x200000) system)
memory_init-Started_example = memory_init-Started 0 16385 0x200000 system (omega arith) system-Fresh

abbrev hardware : Hardware
hardware = record {
  uart = λ t r. 0x20;
  lapic = λ t r. 0;
  apic_base = 0xfee00800;
  ioapic_version = 0x170020;
}

abbrev image : Image
image = record {
  entries = 70 ∷ [];
  proc_kentry = 500;
  kshell_main = 600;
  idle_function = 700;
  kern_pml4 = 4096;
}

abbrev computer : Computer
computer = record {
  system = system;
  lapic = record { address = 0; writes = [] };
  idt = interrupt_init (λ i. 0);
  pic = [];
  ioapic = [];
  fifo = record { buffer = []; buffer_size = 0; read = 0; write = 0; watermark = 0 };
  uart = [];
  uart_enable = false;
  sys_tick = 5;
  heap = record { cell = λ a. none; pool = []; junk = λ a. node 0 0 0 };
  proc = λ a. record { state = unused; chan = 0; ctx = 0; pid = 0 };
  idle_proc = λ i. 60;
  ready_queue = record { size = 0; head = 0; tail = 0 };
  waiting_queue = record { size = 0; head = 0; tail = 0 };
  next_pid = 0;
  stack = λ i. kern_stack 0;
  idle_stack = λ i. kern_stack 0;
  made = λ a. sched_create_kproc 0 0 (kern_stack 0) 0;
}
