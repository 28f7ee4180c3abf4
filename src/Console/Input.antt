-- ===== src/Console/Input.antt =====
-- The console of kernel/src/arch/x86/console.c between the serial port, the screen and the processes
-- that read. `sched_ctxsw` cuts `console_getc` as it cuts `sched_sleep`.
pub mod Handler
mod Tests
use guide_os.Prelude.{
  ℕ, ◌+◌, ◌%◌, Bool, true, false, ◌||◌, Option, none, some, List, [], ◌∷◌, ◌⊎◌, inl, inr, ◌==◌,
  if◌then◌else◌, Cmd, map_state, ok, panic, fault, pure, ◌>>=◌, ◌>>◌, Ptr,
}
use guide_os.Cpu.{Machine, LockId}
use guide_os.Spinlock.{acquire, release}
use guide_os.Fifo.{OsError, oserr_ok, Fifo, spsc_fifo_write, spsc_fifo_read}
use guide_os.Sched.{Kernel, sleep_out, sleep_in, sched_wakeup}
use guide_os.Console.{Screen, backspace, newline, cga_putchar}
use guide_os.Uart.{Trace, uart_putc}

-- The locks `console_lock` and `console_read_lock`, and the address `&console_fifo`, which is the
-- channel
abbrev pub console_lock : LockId
console_lock = 3

abbrev pub console_read_lock : LockId
console_read_lock = 4

abbrev pub fifo_channel : Ptr
fifo_channel = 0xffff800000102000

pub record Console : Type 0 where
  pub kernel : Kernel
  pub screen : Screen
  pub uart : Trace
  pub uart_enable : Bool
  pub fifo : Fifo

abbrev pub on_kernel : {A : Type 0} → Cmd Kernel A → Cmd Console A
on_kernel c s = map_state (λ k. record s { kernel = k }) (c s.kernel)

abbrev pub on_machine : {A : Type 0} → Cmd Machine A → Cmd Console A
on_machine c s =
    map_state (λ m. record s { kernel = record (s.kernel) { machine = m } }) (c s.kernel.machine)

abbrev pub on_uart : {A : Type 0} → Cmd Trace A → Cmd Console A
on_uart c s = map_state (λ t. record s { uart = t }) (c s.uart)

abbrev pub on_fifo : {A : Type 0} → Cmd Fifo A → Cmd Console A
on_fifo c s = map_state (λ f. record s { fifo = f }) (c s.fifo)

-- `putchar`, on fuel for the lock and for the waits of the serial port
unfoldable pub putchar : (Trace → ℕ → ℕ) → ℕ → ℕ → ℕ → Cmd Console (Unit {0})
putchar device spins fuel c = do
  on_machine (acquire spins console_lock)
  (λ s.
      (if s.uart_enable
          then (do
            if c == newline then on_uart (uart_putc device fuel 13) else pure tt
            on_uart (uart_putc device fuel c))
          else pure tt)
        s)
  (λ s. ok tt (record s { screen = cga_putchar c s.screen }))
  on_machine (release console_lock)

-- `spsc_fifo_write` on the console's own ring, and the test of its result
abbrev pub put_byte : OsError × Option Fifo → Cmd Fifo (Unit {0})
put_byte (oserr_ok, some f) s = ok tt f
put_byte (oserr_ok, none) s = fault
put_byte (_, _) s = panic "uart buffer full\n"

-- The loop of `console_isr_handler` over what `uart_getc` answers before it answers -1
unfoldable pub drain : List ℕ → Cmd Fifo (Unit {0})
drain [] = pure tt
drain (c ∷ cs) = do (λ f. put_byte (spsc_fifo_write (some f) (c % 256)) f); drain cs

unfoldable pub handle_input : ℕ → List ℕ → Cmd Console (Unit {0})
handle_input spins received = do
  on_machine (acquire spins console_read_lock)
  on_fifo (drain received)
  on_kernel (sched_wakeup spins fifo_channel)
  on_machine (release console_read_lock)

unfoldable pub console_isr_handler : ℕ → List ℕ → Cmd Console (Unit {0})
console_isr_handler spins received s =
    if s.uart_enable then handle_input spins received s else ok tt s

-- The filter of `console_getc`
abbrev pub filter_char : ℕ → ℕ
filter_char v = if (v == 0x7f) || (v == 0x08) then backspace else v

-- The rounds of the loop of `console_getc`: with a byte it ends, and without one it gets to the
-- switch in `sched_sleep`, which comes back in `getc_resume`.
abbrev pub got_byte : ℕ → Option ℕ × Option Fifo → Cmd Console (ℕ ⊎ (Ptr × Bool))
got_byte spins (some v, some f) = do
  (λ s. ok tt (record s { fifo = f }))
  on_machine (release console_read_lock)
  pure (inl (filter_char v))
got_byte spins (none, f) = do
  r ← on_kernel (sleep_out spins fifo_channel (some console_read_lock))
  pure (inr r)
got_byte spins (some v, none) = λ s. fault

unfoldable pub getc_round : ℕ → Cmd Console (ℕ ⊎ (Ptr × Bool))
getc_round spins s = got_byte spins (spsc_fifo_read (some (s.fifo)) true) s

unfoldable pub console_getc : ℕ → Cmd Console (ℕ ⊎ (Ptr × Bool))
console_getc spins = do on_machine (acquire spins console_read_lock); getc_round spins

unfoldable pub getc_resume : ℕ → Ptr → Bool → Cmd Console (ℕ ⊎ (Ptr × Bool))
getc_resume spins p intena = do
  on_kernel (sleep_in spins p console_read_lock intena)
  getc_round spins
