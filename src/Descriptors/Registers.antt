-- ===== src/Descriptors/Registers.antt =====
-- The task state segment, and the registers that point at the tables: `load_idt` of
-- kernel/src/arch/x86/interrupt.c, and `tss_setup` and the register of `gdt_setup` of
-- kernel/src/arch/x86/system.c.
use guide_os.Prelude.{ℕ, ◌+◌, ◌-◌, ◌*◌, ◌≤◌, ◌<◌, ◌≡◌, refl, arith, Ptr}

-- `struct task_state_segment`
pub record TaskState : Type 0 where
  pub rsp : ℕ → ℕ
  pub ist : ℕ → ℕ
  pub iopb : ℕ

unfoldable pub tss_setup : TaskState → TaskState
tss_setup tss = record { rsp = λ i. 0; ist = λ i. 0; iopb = 0 }

-- `idtr_t` and `struct gdtr`
pub record TableRegister : Type 0 where
  pub size : ℕ
  pub base : Ptr

-- `sizeof(idt64_t)` and `sizeof(struct gdt)`
abbrev pub idt_bytes : ℕ
idt_bytes = 256 * 16

abbrev pub gdt_bytes : ℕ
gdt_bytes = 5 * 8 + 16

unfoldable pub load_idt : Ptr → TableRegister
load_idt idt = record { size = idt_bytes - 1; base = idt }

unfoldable pub load_gdt : Ptr → TableRegister
load_gdt gdt = record { size = gdt_bytes - 1; base = gdt }

-- The last byte of the gate of each vector lies within the limit, and so does that of each segment
-- descriptor and of the descriptor of the task state segment, which the selector 5 names.
pub limits_lem :
    (idt gdt : Ptr)
    → ((i : ℕ) → i < 256 → 16 * i + 15 ≤ (load_idt idt).size)
      × ((i : ℕ) → i < 5 → 8 * i + 7 ≤ (load_gdt gdt).size)
      × (8 * 5 + 15 ≡ (load_gdt gdt).size)
unfolding load_idt load_gdt
limits_lem idt gdt = (λ i lt. omega arith, λ i lt. omega arith, refl)
