-- ===== src/Descriptors/Fields.antt =====
-- The addresses that the processor reads back from the descriptors.
use guide_os.Prelude.{ℕ, ◌+◌, ◌*◌, ◌^◌, ◌<◌, ◌≡◌, ◌≢◌, refl, arith, ==_of_ne}
use guide_os.Descriptors.{
  Gate, TssDescriptor, mk_idt_entry, interrupt_init, gdt_setup, vector_syscall, user_trap,
  kernel_interrupt,
}

-- The handler of a gate, and the base and the limit of a task state segment, by the layout of the
-- fields
abbrev pub handler : Gate → ℕ
handler g = g.offset_1 + 2 ^ 16 * g.offset_2 + 2 ^ 32 * g.offset_3

abbrev pub tss_base : TssDescriptor → ℕ
tss_base d = d.base_15_0 + 2 ^ 16 * d.base_23_16 + 2 ^ 24 * d.base_31_24 + 2 ^ 32 * d.base_63_32

-- Each gate of the table leads to its vector; that of the system call may be used by user code, and
-- no other.
pub interrupt_init_lem :
    (vectors : ℕ → ℕ) (i : ℕ)
    → vectors i < 2 ^ 64
    → (handler (interrupt_init vectors i) ≡ vectors i)
      × (i ≡ vector_syscall → (interrupt_init vectors i).type_attributes ≡ user_trap)
      × (i ≢ vector_syscall → (interrupt_init vectors i).type_attributes ≡ kernel_interrupt)
unfolding interrupt_init mk_idt_entry
interrupt_init_lem vectors i bound =
    (grind arith, λ e. rw e refl, λ ne. rw (==_of_ne i vector_syscall ne) refl)

-- The descriptor of the task state segment holds its address.
pub gdt_setup_lem :
    (tss_addr : ℕ)
    → tss_addr < 2 ^ 64
    → (tss_base (gdt_setup tss_addr).tss_entry ≡ tss_addr)
      × ((gdt_setup tss_addr).tss_entry.limit_15_0
            + 2 ^ 16 * (gdt_setup tss_addr).tss_entry.limit_19_16
          ≡ 0x68)
unfolding gdt_setup
gdt_setup_lem tss_addr bound = (omega arith, refl)
