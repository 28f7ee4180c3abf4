-- ===== src/Descriptors.antt =====
-- The descriptor tables that the processor reads: the interrupt gates of
-- kernel/include/arch/x86/interrupt.h and kernel/src/arch/x86/interrupt.c, and the segment
-- descriptors of kernel/include/arch/x86/system.h and kernel/src/arch/x86/system.c.
pub mod Fields
pub mod Registers
use guide_os.Prelude.{ℕ, zero, suc, ◌+◌, ◌*◌, ◌/◌, ◌%◌, ◌^◌, ◌==◌, if◌then◌else◌}

-- `interrupt_gate_64_t`
pub record Gate : Type 0 where
  pub offset_1 : ℕ
  pub selector : ℕ
  pub ist : ℕ
  pub type_attributes : ℕ
  pub offset_2 : ℕ
  pub offset_3 : ℕ

unfoldable pub mk_idt_entry : ℕ → ℕ → ℕ → ℕ → Gate
mk_idt_entry handler_fn ist type_attr cs = record {
  offset_1 = handler_fn % 2 ^ 16;
  selector = cs;
  ist = ist % 8;
  type_attributes = type_attr;
  offset_2 = handler_fn / 2 ^ 16 % 2 ^ 16;
  offset_3 = handler_fn / 2 ^ 32 % 2 ^ 32;
}

abbrev pub vector_syscall : ℕ
vector_syscall = 0x80

abbrev pub kernel_code : ℕ
kernel_code = 1

-- `IDT_GATE_FLAGS_P` with the kernel's privilege level for an interrupt gate, and with the user's for
-- a trap gate
abbrev pub kernel_interrupt : ℕ
kernel_interrupt = 0x80 + 0xe

abbrev pub user_trap : ℕ
user_trap = 0x80 + 0x60 + 0xf

-- The table that `interrupt_init` loads: the write to the entry of `VECTOR_SYSCALL` comes last.
unfoldable pub interrupt_init : (ℕ → ℕ) → ℕ → Gate
interrupt_init vectors i =
    if i == vector_syscall
    then mk_idt_entry (vectors vector_syscall) 0 user_trap (kernel_code * 8)
    else mk_idt_entry (vectors i) 0 kernel_interrupt (kernel_code * 8)

-- `struct segment_descriptor`, without its limit and base, which stay 0
pub record Segment : Type 0 where
  pub type : ℕ
  pub dpl : ℕ
  pub p : ℕ
  pub flags : ℕ

-- `struct tss_descriptor`
pub record TssDescriptor : Type 0 where
  pub limit_15_0 : ℕ
  pub base_15_0 : ℕ
  pub base_23_16 : ℕ
  pub type : ℕ
  pub dpl : ℕ
  pub p : ℕ
  pub limit_19_16 : ℕ
  pub flags : ℕ
  pub base_31_24 : ℕ
  pub base_63_32 : ℕ

pub record Gdt : Type 0 where
  pub seg_descs : ℕ → Segment
  pub tss_entry : TssDescriptor

abbrev empty_segment : Segment
empty_segment = record { type = 0; dpl = 0; p = 0; flags = 0 }

abbrev kernel_code_segment : Segment
kernel_code_segment = record { type = 0b11010; dpl = 0; p = 1; flags = 0b1010 }

abbrev kernel_data_segment : Segment
kernel_data_segment = record (kernel_code_segment) { type = 0b10010 }

-- `sizeof(struct task_state_segment)`
abbrev pub tss_size : ℕ
tss_size = 0x68

-- The table that `gdt_setup` fills in, for a task state segment at `tss_addr`
unfoldable pub gdt_setup : ℕ → Gdt
gdt_setup tss_addr = record {
  seg_descs = λ i.
      if i == 1
      then kernel_code_segment
      else if i == 2
      then kernel_data_segment
      else if i == 3
      then record (kernel_code_segment) { dpl = 3 }
      else if i == 4
      then record (kernel_data_segment) { dpl = 3 }
      else empty_segment;
  tss_entry = record {
    limit_15_0 = tss_size % 2 ^ 16;
    base_15_0 = tss_addr % 2 ^ 16;
    base_23_16 = tss_addr / 2 ^ 16 % 2 ^ 8;
    type = 0b01001;
    dpl = 0;
    p = 1;
    limit_19_16 = tss_size / 2 ^ 16 % 2 ^ 4;
    flags = 0b0010;
    base_31_24 = tss_addr / 2 ^ 24 % 2 ^ 8;
    base_63_32 = tss_addr / 2 ^ 32 % 2 ^ 32;
  };
}
