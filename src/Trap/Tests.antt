-- ===== src/Trap/Tests.antt =====
-- A tick, and a system call, while CPU 0 runs the process 90.
use guide_os.Prelude.{◌≡◌, ◌≢◌, refl, true, false, none, some, [], arith, Returns, Ptr}
use guide_os.Heap.{node}
use guide_os.Spinlock.Fixture.{one_cpu, one_cpu-RunsOn}
use guide_os.Sched.{running, runnable, sched_lock}
use guide_os.Trap.{Trapped, switching, handle_interrupt}
use guide_os.Descriptors.{vector_syscall}
use guide_os.Trap.Syscall.{Answered, syscall-Answered}
use guide_os.Trap.Timer.{timer_switches}

abbrev trapped : Trapped
trapped = record {
  console = record {
    kernel = record {
      machine = one_cpu 90;
      heap = record { cell = λ a. none; pool = []; junk = λ a. node 0 0 0 };
      proc = λ a. record { state = running; chan = 0; ctx = 0; pid = a };
      idle_proc = λ i. 80;
      ready_queue = record { size = 0; head = 0; tail = 0 };
      waiting_queue = record { size = 0; head = 0; tail = 0 };
    };
    screen = record { crt = λ a. 0; cursor_high = 0; cursor_low = 0 };
    uart = [];
    uart_enable = true;
    fifo = record { buffer = []; buffer_size = 0; read = 0; watermark = 0; write = 0 };
  };
  ticks = 41;
  eois = 0;
}

timer_switches_example :
    Returns
      (λ stand s'.
        (stand ≡ switching false)
        × (s'.ticks ≡ 42)
        × (s'.eois ≡ 1)
        × (s'.console.kernel.proc 90 ≡ record { state = runnable; chan = 0; ctx = 0; pid = 90 })
        × ((a : Ptr) → a ≢ 90 → s'.console.kernel.proc a ≡ trapped.console.kernel.proc a)
        × (s'.console.kernel.machine.lock sched_lock ≡ record { locked = true; cpu = some 0 }))
      (handle_interrupt 1 [] 32 7 trapped)
timer_switches_example =
    timer_switches 0 0 90 7 [] trapped
      (record { here = one_cpu-RunsOn 90; layer = refl; proc = refl }) refl (omega arith) refl refl

-- Processes run with interrupts on, and the gate of the system call leaves them so.
abbrev calling : Trapped
calling = record trapped {
  console = record (trapped.console) {
    kernel = record (trapped.console.kernel) { machine = record (one_cpu 90) { if_flag = true } };
  };
}

syscall-Answered_example :
    Returns
      (λ stand s'. Answered 0 90 0x10 calling stand s')
      (handle_interrupt 1 [] vector_syscall 0x10 calling)
syscall-Answered_example =
    syscall-Answered 0 0 90 0x10 [] calling
      (record { here = one_cpu-RunsOn 90; layer = refl; proc = refl }) (omega arith) refl refl
