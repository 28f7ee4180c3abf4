-- ===== src/Console/Input/Tests.antt =====
-- The handler of the console with a reader asleep, and bytes from the serial port.
use guide_os.Prelude.{
  ◌≤◌, ◌<◌, ◌≡◌, refl, true, none, some, [], ◌∷◌, arith, ◌==◌, if◌then◌else◌, panic, Returns,
}
use guide_os.Heap.{node}
use guide_os.Spinlock.Fixture.{one_cpu, one_cpu-RunsOn}
use guide_os.Fifo.{Fifo}
use guide_os.Fifo.Refine.{IsValid}
use guide_os.Sched.{Kernel, sleeping}
use guide_os.Sched.Wakeup.{Queues}
use guide_os.Console.Input.{Console, fifo_channel, console_isr_handler}
use guide_os.Console.Input.Handler.{Handled, console_isr_handler_lem}

-- The process 70, in node 1 of the waiting queue, waits for input.
abbrev kernel : Kernel
kernel = record {
  machine = one_cpu 0;
  heap = record {
    cell = λ a. if a == 1 then some (node 70 0 0) else none;
    pool = 3 ∷ [];
    junk = λ a. node 0 0 0;
  };
  proc = λ a. record { state = sleeping; chan = fifo_channel; ctx = 0; pid = a };
  idle_proc = λ i. 90;
  ready_queue = record { size = 0; head = 0; tail = 0 };
  waiting_queue = record { size = 1; head = 1; tail = 1 };
}

abbrev ring : Fifo
ring = record { buffer = 0 ∷ 0 ∷ 0 ∷ 0 ∷ []; buffer_size = 4; read = 3; watermark = 0; write = 3 }

ring-IsValid : IsValid ring
ring-IsValid = omega arith

abbrev console : Console
console = record {
  kernel = kernel;
  screen = record { crt = λ a. 0; cursor_high = 0; cursor_low = 0 };
  uart = [];
  uart_enable = true;
  fifo = ring;
}

one_waits : Queues kernel.heap kernel.waiting_queue kernel.ready_queue ((1, 70) ∷ []) [] 1
one_waits = record {
  waiting_is = record {
    size = refl;
    head = refl;
    tail = refl;
    chain = (omega arith, refl, refl, tt);
  };
  ready_is = record { size = refl; head = refl; tail = refl; chain = tt };
  apart = (refl, tt);
  free = (omega arith, refl, refl, tt);
  room = omega arith;
}

console_isr_handler_lem_example :
    (2 < 4
      → Returns
          (λ r s'. Handled (104 ∷ 105 ∷ []) ((1, 70) ∷ []) [] 0 console s')
          (console_isr_handler 1 (104 ∷ 105 ∷ []) console))
    × (4 ≤ 2 → console_isr_handler 1 (104 ∷ 105 ∷ []) console ≡ panic "uart buffer full\n")
console_isr_handler_lem_example =
    console_isr_handler_lem 0 0 (104 ∷ 105 ∷ []) ((1, 70) ∷ []) [] console refl ring-IsValid
      (one_cpu-RunsOn 0) (omega arith) (λ pos. refl) refl refl one_waits
