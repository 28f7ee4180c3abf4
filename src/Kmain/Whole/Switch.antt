-- ===== src/Kmain/Whole/Switch.antt =====
-- `kmain` gets to the first process.
use guide_os.Prelude.{
  ℕ, ◌+◌, ◌/◌, ◌%◌, ◌^◌, ◌<◌, ◌≡◌, ◌≢◌, true, false, ◌&&◌, ◌==◌, if◌then◌else◌, [], length,
  get_elem?, some, none, Ptr, null, test_bit,
}
use guide_os.Fifo.Refine.{IsValid, contents}
use guide_os.Uart.{Trace}
use guide_os.Uart.Putc.{keeps_scratch}
use guide_os.Controllers.{int_disabled, irq_0}
use guide_os.Controllers.Routes.{value, low}
use guide_os.Console.Init.{com1_irq, com1_vector}
use guide_os.Mpmain.{Image}
use guide_os.Mpmain.First.{Dispatched}
use guide_os.Kmain.Whole.{Hardware, Computer, processes}

-- The local APIC is enabled and delivers, and the serial port is ready to send whenever it is asked.
pub record Working (hw : Hardware) : Type 0 where
  pub enabled : test_bit hw.apic_base 11 ≡ true
  pub delivers : (t : Trace) → test_bit (hw.lapic t 0x300) 12 ≡ false
  pub sends : (t : Trace) → test_bit (hw.uart t 5 % 256) 5 ≡ true

-- The table of processes has an entry, none of its entries is NULL or the idle process of the first
-- CPU, and there is no node of a queue.
pub record Tables (im : Image) (c : Computer) : Type 0 where
  pub no_nodes : (a : Ptr) → c.heap.cell a ≡ none
  pub empty_pool : c.heap.pool ≡ []
  pub some_entry : 0 < length im.entries
  pub entries :
      (i : ℕ) (p : Ptr) → get_elem? im.entries i ≡ some p → (p ≢ null) × (p ≢ c.idle_proc 0)

-- How many interrupts the I/O APIC has
abbrev pub entries : Hardware → ℕ
entries hw = hw.ioapic_version / 2 ^ 16 % 256 + 1

-- At the first switch: the ring of the console is empty; of the interrupts only that of the serial
-- port, if that is there, is let through; the clock is at 0; and `q`, an entry of the table, is about to
-- run `kshell_main`, with the scheduler and the idle process as `Dispatched` says.
pub record Switched (hw : Hardware) (im : Image) (uart : Trace) (idle_proc : ℕ → Ptr) (q : Ptr)
    (c : Computer) : Type 0 where
  pub valid : IsValid c.fifo
  pub empty : contents c.fifo ≡ []
  pub enabled : c.uart_enable ≡ keeps_scratch hw.uart uart
  pub routes :
      (j d : ℕ)
      → j < entries hw
      → value c.ioapic (low j) d
        ≡ (if c.uart_enable && (j == com1_irq) then com1_vector else int_disabled + (irq_0 + j))
  pub ticks : c.sys_tick ≡ 0
  pub dispatched : Dispatched 0 im (idle_proc 0) q (processes c)
