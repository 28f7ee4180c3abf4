-- ===== src/Console/Tests.antt =====
-- Runs of console.c.
use guide_os.Memlayout.{kernbase}
use guide_os.Spinlock.Fixture.{one_cpu, one_cpu-RunsOn}
use guide_os.PageAlloc.Fixture.{one_block, one_block-Valid}
use guide_os.Kmalloc.Add.{cover}
use guide_os.Kmalloc.Bytes.{Sound}
use guide_os.Kmalloc.Allocate.{OutOfMemory}
use guide_os.Kmalloc.Locking.{Calm}
use guide_os.Uart.{Trace}
use guide_os.Console.Init.{Devices, console_init}
use guide_os.Console.Init.Ready.{SetUp, console_init_lem}
use guide_os.Prelude.{
  test_bit, true, ◌%◌, ◌-◌, ◌/◌, refl, false, [], Ends, if◌then◌else◌, ◌==◌, ℕ, ◌≤◌, ◌<◌, ◌≡◌,
  arith, ◌+◌,
}
use guide_os.Console.{Screen, cursor, cga_putchar}
use guide_os.Console.Bounds.{cga_putchar-bounds}

-- The last cell of the screen: the cursor is in row 23, column 79.
abbrev screen : Screen
screen = record { crt = λ i. i; cursor_high = 7; cursor_low = 127 }

cga_putchar-bounds_example :
    (cursor (cga_putchar 65 screen) < 1920)
    × ((i : ℕ) → 1920 ≤ i → (cga_putchar 65 screen).crt i ≡ i)
    × ((cga_putchar 65 screen).crt (cursor (cga_putchar 65 screen)) ≡ 32 + 0x700)
cga_putchar-bounds_example = cga_putchar-bounds 65 screen (omega arith)

-- Two pages are free, and nothing else has been set up.
abbrev devices : Devices
devices = record {
  mem = record {
    machine = one_cpu 0;
    pages = one_block;
    size_list = [];
    size_at = λ a. 0;
    bytes = λ a. 0;
  };
  fifo = record { buffer = []; buffer_size = 0; read = 0; watermark = 0; write = 0 };
  uart = [];
  ioapic = [];
  uart_enable = false;
}

one_cpu-Calm : Calm 0 (one_cpu 0)
one_cpu-Calm = record {
  here = one_cpu-RunsOn 0;
  bounded = omega arith;
  off = λ pos. refl;
  kmalloc_free = refl;
  pgalloc_free = refl;
}

devices-Sound : Sound 4 devices.mem
unfolding cover
devices-Sound = record {
  valid = one_block-Valid;
  once = λ q. let a = one_block-Valid.apart ((q - kernbase) / 4096) in ground arith;
}

-- A port that keeps what its scratch register gets
abbrev port : Trace → ℕ → ℕ
port t o = if o == 7 then 0x69 else 0x20

port_ready : (t : Trace) → test_bit (port t 5 % 256) 5 ≡ true
unfolding test_bit
port_ready t = refl

console_init_lem_example :
    Ends
      (λ u s'. SetUp port 0 0 4 devices s')
      (OutOfMemory 32 devices.mem)
      (console_init port 0 1 1 devices)
console_init_lem_example =
    console_init_lem port 0 0 0 0 4 devices port_ready (omega arith) one_cpu-Calm devices-Sound
