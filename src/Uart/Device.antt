-- ===== src/Uart/Device.antt =====
-- `uart_device_t` of kernel/include/device/uart.h: where the registers of a device are, and the two
-- functions that set one up.
use guide_os.Prelude.{
  ℕ, suc, ◌+◌, ◌*◌, ◌%◌, ◌^◌, ◌≡◌, refl, ap, Bool, true, List, [], ◌∷◌, ◌++◌, map, ◌==◌,
  if◌then◌else◌, Cmd, map_state, ok, pure, ◌>>◌, Ptr, null, test_bit, Returns, map_state-Returns,
  weaken-Returns,
}
use guide_os.Uart.{Write, Trace, uart_init}
use guide_os.Uart.Putc.{keeps_scratch, uart_init_lem}

pub record UartDevice : Type 0 where
  pub mmio_base : Ptr
  pub pio_base : ℕ

-- A register is at a port, or at an address.
pub data Place : Type 0 where
  port : ℕ → Place
  cell : Ptr → Place

pub data Access : Type 0 where
  write : Place → ℕ → Access
  read : Place → Access

-- The accesses of `uart_write`, which reads a register in memory back
unfoldable pub write_accesses : UartDevice → Write → List Access
write_accesses u w =
    if u.mmio_base == null
    then write (port ((u.pio_base + w.offset) % 2 ^ 16)) w.value ∷ []
    else write (cell (u.mmio_base + 4 * w.offset)) w.value
      ∷ read (cell (u.mmio_base + 4 * w.offset))
      ∷ []

-- The access of `uart_read`
unfoldable pub read_access : UartDevice → ℕ → Access
read_access u offset =
    if u.mmio_base == null
    then read (port ((u.pio_base + offset) % 2 ^ 16))
    else read (cell (u.mmio_base + 4 * offset))

unfoldable pub all_accesses : UartDevice → Trace → List Access
all_accesses u [] = []
all_accesses u (w ∷ ws) = write_accesses u w ++ all_accesses u ws

pub record Driver : Type 0 where
  pub device : UartDevice
  pub writes : Trace

-- `uart_pio_init`, with what the device answers; false is the result -1
unfoldable pub uart_pio_init : (Trace → ℕ → ℕ) → ℕ → ℕ → Cmd Driver Bool
uart_pio_init answers fuel pio_base = do
  (λ s. ok tt (record s { device = record { mmio_base = null; pio_base = pio_base } }))
  (λ s. map_state (λ t. record s { writes = t }) (uart_init answers fuel s.writes))

-- `uart_mmio_init` fails.
unfoldable pub uart_mmio_init : Ptr → Cmd Driver ℕ
uart_mmio_init mmio_base = pure 1

abbrev port_write : ℕ → Write → Access
port_write pio_base w = write (port ((pio_base + w.offset) % 2 ^ 16)) w.value

accesses-ports :
    (pio_base : ℕ) (t : Trace)
    → all_accesses (record { mmio_base = null; pio_base = pio_base }) t
      ≡ map (port_write pio_base) t
unfolding all_accesses write_accesses
accesses-ports pio_base [] = refl
accesses-ports pio_base (w ∷ ws) =
    ap (λ as_. port_write pio_base w ∷ as_) (accesses-ports pio_base ws)

-- For a device that is ready to send whenever it is asked, `uart_pio_init` returns whether the device
-- keeps its scratch register, and every write is one to a port then: one access for each.
pub uart_pio_init_lem :
    (answers : Trace → ℕ → ℕ) (fuel pio_base : ℕ) (s : Driver)
    → ((t : Trace) → test_bit (answers t 5 % 256) 5 ≡ true)
    → Returns
        (λ found s'.
          (found ≡ keeps_scratch answers s.writes)
          × (all_accesses s'.device s'.writes ≡ map (port_write pio_base) s'.writes))
        (uart_pio_init answers (suc fuel) pio_base s)
unfolding uart_pio_init
uart_pio_init_lem answers fuel pio_base s ready =
    weaken-Returns
      (map_state-Returns
        (λ t. record { device = record { mmio_base = null; pio_base = pio_base }; writes = t })
        (uart_init_lem answers ready fuel s.writes))
      λ found s' (t, (is, sent), e). rw e (is, accesses-ports pio_base t)
