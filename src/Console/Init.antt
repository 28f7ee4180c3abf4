-- ===== src/Console/Init.antt =====
-- `console_init` of kernel/src/arch/x86/console.c, over the small-block allocator, the ring, the serial
-- port and the I/O APIC.
pub mod Ready
use guide_os.Prelude.{
  ℕ, zero, suc, ◌+◌, Bool, true, false, Option, none, some, List, [], ◌∷◌, ◌==◌, if◌then◌else◌, Cmd,
  map_state, ok, panic, fault, pure, ◌>>=◌, ◌>>◌, Ptr, null,
}
use guide_os.Strings.{Mem}
use guide_os.Cpu.{Machine}
use guide_os.Spinlock.{init_lock}
use guide_os.Kmalloc.{Kmem, kmalloc}
use guide_os.Fifo.{OsError, Fifo, spsc_fifo_init}
use guide_os.Uart.{Trace, uart_init}
use guide_os.Controllers.{ioapic_unmask}
use guide_os.Console.Input.{console_lock, console_read_lock}

abbrev pub con_fifo_size : ℕ
con_fifo_size = 32

-- The interrupt of the serial port, and `IDT_ENTRY_IRQ_COM1`
abbrev pub com1_irq : ℕ
com1_irq = 4

abbrev pub com1_vector : ℕ
com1_vector = 32 + 4

pub record Devices : Type 0 where
  pub mem : Kmem
  pub fifo : Fifo
  pub uart : Trace
  pub ioapic : Trace
  pub uart_enable : Bool

abbrev pub on_mem : {A : Type 0} → Cmd Kmem A → Cmd Devices A
on_mem c s = map_state (λ k. record s { mem = k }) (c s.mem)

abbrev pub on_machine : {A : Type 0} → Cmd Machine A → Cmd Devices A
on_machine c s =
    map_state (λ m. record s { mem = record (s.mem) { machine = m } }) (c s.mem.machine)

-- The `n` bytes at `p`, which are the buffer of the ring
unfoldable pub bytes_at : Mem → Ptr → ℕ → List ℕ
bytes_at m p zero = []
bytes_at m p (suc n) = m p ∷ bytes_at m (p + 1) n

-- The ring after a call that gets its address, which is not NULL
abbrev pub own_fifo : OsError × Option Fifo → Cmd Devices (Unit {0})
own_fifo (e, none) s = fault
own_fifo (e, some f) s = ok tt (record s { fifo = f })

-- `console_init` once `kmalloc` has answered, with what the serial port answers, and the number of the
-- CPU's local APIC
unfoldable pub with_buffer : (Trace → ℕ → ℕ) → ℕ → ℕ → Ptr → Cmd Devices (Unit {0})
with_buffer device lapic_id fuel con_buffer = do
  if con_buffer == null then (λ s. panic "console init oom") else pure tt
  (λ s.
      own_fifo
        (spsc_fifo_init (some s.fifo) (bytes_at s.mem.bytes con_buffer con_fifo_size) con_fifo_size)
        s)
  found ← (λ s. map_state (λ t. record s { uart = t }) (uart_init device fuel s.uart))
  if found
      then (do
        (λ s.
            map_state (λ t. record s { ioapic = t })
              (ioapic_unmask com1_irq com1_vector lapic_id s.ioapic))
        (λ s. ok tt (record s { uart_enable = true })))
      else (λ s. ok tt (record s { uart_enable = false }))

unfoldable pub console_init : (Trace → ℕ → ℕ) → ℕ → ℕ → ℕ → Cmd Devices (Unit {0})
console_init device lapic_id spins fuel = do
  on_machine (init_lock console_lock)
  on_machine (init_lock console_read_lock)
  con_buffer ← on_mem (kmalloc spins con_fifo_size)
  with_buffer device lapic_id fuel con_buffer
