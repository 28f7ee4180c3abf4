-- ===== src/Uart.antt =====
-- kernel/src/device/uart/uart.c on its port-mapped registers. The device is a parameter: what a read
-- of a register answers, after the writes so far; the driver's writes are a trace.
pub mod Putc
pub mod Device
use guide_os.Prelude.{
  ℕ, zero, suc, ◌+◌, ◌/◌, ◌%◌, ◌^◌, Bool, true, false, not, Option, none, some, List, [], ◌∷◌, ◌++◌,
  ◌==◌, if◌then◌else◌, Cmd, ok, out_of_fuel, pure, ◌>>=◌, ◌>>◌, test_bit,
}
use guide_os.Console.{backspace}

-- A write of a value to the register at an offset
pub record Write : Type 0 where
  pub offset : ℕ
  pub value : ℕ

-- The writes so far, in order
abbrev pub Trace : Type 0
Trace = List Write

abbrev pub wr : ℕ → ℕ → Write
wr o v = record { offset = o; value = v }

unfoldable pub uart_write : ℕ → ℕ → Cmd Trace (Unit {0})
uart_write offset value t = ok tt (t ++ (wr offset (value % 256) ∷ []))

-- `device t o`: the register at offset `o` after the writes `t`
module _ (device : Trace → ℕ → ℕ) where
  unfoldable pub uart_read : ℕ → Cmd Trace ℕ
  uart_read offset t = ok (device t offset % 256) t

  -- The wait of `s_uart_putc` for the transmitter, on fuel, and the write
  unfoldable pub s_uart_putc : ℕ → ℕ → Cmd Trace (Unit {0})
  s_uart_putc zero c = λ t. out_of_fuel
  s_uart_putc (suc fuel) c = do
    status ← uart_read 5
    if test_bit status 5 then uart_write 0 c else s_uart_putc fuel c

  unfoldable pub uart_putc : ℕ → ℕ → Cmd Trace (Unit {0})
  uart_putc fuel c =
      if c == backspace
      then (do s_uart_putc fuel 8; s_uart_putc fuel 32; s_uart_putc fuel 8)
      else s_uart_putc fuel c

  unfoldable pub uart_hasbyte : Cmd Trace Bool
  uart_hasbyte = do status ← uart_read 5; pure (test_bit status 0)

  -- `uart_getc`; `none` is the result -1
  unfoldable pub uart_getc : Cmd Trace (Option ℕ)
  uart_getc = do has ← uart_hasbyte; if has then (do b ← uart_read 0; pure (some b)) else pure none

  -- The loop of `uart_init` over its greeting
  unfoldable pub put_all : ℕ → List ℕ → Cmd Trace (Unit {0})
  put_all fuel [] = pure tt
  put_all fuel (c ∷ cs) = do uart_putc fuel c; put_all fuel cs

  -- "..uart..\n"
  abbrev pub greeting : List ℕ
  greeting = 46 ∷ 46 ∷ 117 ∷ 97 ∷ 114 ∷ 116 ∷ 46 ∷ 46 ∷ 10 ∷ []

  -- `uart_init`; false is the result -1
  unfoldable pub uart_init : ℕ → Cmd Trace Bool
  uart_init fuel = do
    uart_write 3 0x80
    uart_write 0 1
    uart_write 1 0
    uart_write 3 3
    uart_write 1 0
    uart_write 2 7
    uart_write 7 0x69
    scratch ← uart_read 7
    if scratch == 0x69 then (do uart_write 1 1; put_all fuel greeting; pure true) else pure false
