-- ===== src/Controllers.antt =====
-- kernel/src/arch/x86/lapic.c, kernel/src/arch/x86/ioapic.c and kernel/src/arch/x86/x86_pic.c: the
-- interrupt controllers, as the writes that the drivers make. What a register answers is a parameter.
pub mod Routes
use guide_os.Prelude.{
  ℕ, zero, suc, ◌+◌, ◌*◌, ◌/◌, ◌%◌, ◌^◌, Bool, true, false, List, [], ◌∷◌, ◌++◌, ◌==◌,
  if◌then◌else◌, leb, Cmd, ok, panic, out_of_fuel, pure, ◌>>=◌, ◌>>◌, Ptr, null, test_bit,
}
use guide_os.Memlayout.{p2kv}
use guide_os.Uart.{Trace, Write, wr}

-- The masks of an entry, of a local vector, and the vectors that the drivers use
abbrev pub int_disabled : ℕ
int_disabled = 0x10000

abbrev pub irq_0 : ℕ
irq_0 = 32

abbrev pub irq_spurious : ℕ
irq_spurious = 63

-- The registers of the I/O APIC: the writes to one, through `reg` and `data`, are the writes to its
-- index.
unfoldable pub ioapicwrite : ℕ → ℕ → Cmd Trace (Unit {0})
ioapicwrite reg data_ t = ok tt (t ++ (wr reg data_ ∷ []))

-- The loop of `ioapic_init` from interrupt `i` on, with `left` to go
unfoldable pub ioapic_loop : ℕ → ℕ → Cmd Trace (Unit {0})
ioapic_loop zero i = pure tt
ioapic_loop (suc left) i = do
  ioapicwrite (0x10 + 2 * i) (int_disabled + (irq_0 + i))
  ioapicwrite (0x10 + 2 * i + 1) 0
  ioapic_loop left (i + 1)

-- `ioapic_init`, with the version register that the device answers
unfoldable pub ioapic_init : ℕ → Cmd Trace (Unit {0})
ioapic_init version = ioapic_loop (version / 2 ^ 16 % 256 + 1) 0

unfoldable pub ioapic_unmask : ℕ → ℕ → ℕ → Cmd Trace (Unit {0})
ioapic_unmask irq vector apicid = do
  ioapicwrite (0x10 + 2 * irq) vector
  ioapicwrite (0x10 + 2 * irq + 1) (apicid * 2 ^ 24 % 2 ^ 32)

unfoldable pub ioapic_mask : ℕ → Cmd Trace (Unit {0})
ioapic_mask irq = do
  ioapicwrite (0x10 + 2 * irq) (int_disabled + irq_spurious)
  ioapicwrite (0x10 + 2 * irq + 1) 0

-- `pic_init`: the writes to the two data ports
unfoldable pub pic_init : Cmd Trace (Unit {0})
pic_init t = ok tt (t ++ (wr 0x21 0xff ∷ wr 0xa1 0xff ∷ []))

-- The local APIC: its address, which is NULL before `lapic_init`, and the writes to its registers
pub record Lapic : Type 0 where
  pub address : Ptr
  pub writes : Trace

-- `lapicw`; registers are byte offsets here.
abbrev pub lapicw : ℕ → ℕ → Cmd Lapic (Unit {0})
lapicw reg value l = ok tt (record l { writes = l.writes ++ (wr reg value ∷ []) })

unfoldable pub lapic_eoi : Cmd Lapic (Unit {0})
lapic_eoi l = if l.address == null then ok tt l else lapicw 0xb0 0 l

module _ (device : Trace → ℕ → ℕ) where
  unfoldable pub lapic_id : Lapic → ℕ
  lapic_id l = device l.writes 0x20 / 2 ^ 24 % 256

  -- The wait for the delivery status, on fuel
  unfoldable pub wait_delivered : ℕ → Cmd Lapic (Unit {0})
  wait_delivered zero l = out_of_fuel
  wait_delivered (suc fuel) l =
      let rest = wait_delivered fuel l in
      if test_bit (device l.writes 0x300) 12 then rest else ok tt l

  -- `lapic_init`, with the base-address register that the processor answers
  unfoldable pub lapic_init : ℕ → ℕ → Cmd Lapic (Unit {0})
  lapic_init fuel apic_base =
      if test_bit apic_base 11
      then (do
        (λ l. ok tt (record l { address = p2kv (apic_base / 4096 * 4096) }))
        lapicw 0xf0 (0x100 + irq_spurious)
        lapicw 0x3e0 0xb
        lapicw 0x320 (0x20000 + irq_0)
        lapicw 0x380 10000000
        lapicw 0x350 int_disabled
        lapicw 0x360 int_disabled
        (λ l.
            if leb 4 (device l.writes 0x30 / 2 ^ 16 % 256)
            then lapicw 0x340 int_disabled l
            else ok tt l)
        lapicw 0x370 (irq_0 + 19)
        lapicw 0x280 0
        lapicw 0x280 0
        lapicw 0xb0 0
        lapicw 0x310 0
        lapicw 0x300 (0x80000 + 0x500 + 0x8000)
        wait_delivered fuel
        lapicw 0x80 0)
      else (λ l. panic "apic disabled")
