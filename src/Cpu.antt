-- ===== src/Cpu.antt =====
-- kernel/src/cpu.c with kernel/include/cpu.h, and the interrupt flag of
-- kernel/src/arch/x86/system.c, as one CPU executes them.
pub mod Nesting
use guide_os.Prelude.{
  ℕ, zero, suc, ◌+◌, ◌-◌, ◌%◌, ◌^◌, Bool, true, false, ◌&&◌, Option, none, some, ◌==◌,
  if◌then◌else◌, ltb, Run, Cmd, ok, panic, pure, ◌>>=◌, ◌>>◌, Ptr, null,
}

-- `struct cpu`, without its descriptor tables. `int_disable_layer` is a `u32`.
pub record Cpu : Type 0 where
  pub started : Bool
  pub int_disable_layer : ℕ
  pub int_enabled : Bool
  pub proc : Ptr
  pub scheduler_ctx : Ptr
  pub apicid : ℕ

-- `struct spinlock` of kernel/include/spinlock.h. `cpu` is the index of the holder in `cpus`.
pub record Spinlock : Type 0 where
  pub locked : Bool
  pub cpu : Option ℕ

abbrev pub LockId : Type 0
LockId = ℕ

-- What the executing CPU sees: the table of CPUs, the locks, its own interrupt flag (RFLAGS_IF)
-- and its own local APIC id.
pub record Machine : Type 0 where
  pub cpus : ℕ → Cpu
  pub ncpu : ℕ
  pub lock : LockId → Spinlock
  pub if_flag : Bool
  pub lapic_id : ℕ

abbrev pub update {ℓ} : {A : Type ℓ} → (ℕ → A) → ℕ → A → ℕ → A
update f i a j = if j == i then a else f j

-- `disable_interrupt`: whether interrupts were enabled
unfoldable pub disable_interrupt : Cmd Machine Bool
disable_interrupt m = ok m.if_flag (record m { if_flag = false })

unfoldable pub enable_interrupt : Cmd Machine (Unit {0})
enable_interrupt m = ok tt (record m { if_flag = true })

-- The loop of `cur_cpu` over `cpus[i], …` with `n` entries left.
unfoldable pub find_cpu : (ℕ → Cpu) → ℕ → ℕ → ℕ → Option ℕ
find_cpu cpus apicid zero i = none
find_cpu cpus apicid (suc n) i =
    if (cpus i).apicid == apicid then some i else find_cpu cpus apicid n (i + 1)

-- `cur_cpu`, as an index into `cpus`
unfoldable pub cur_cpu : Cmd Machine ℕ
cur_cpu m =
    if m.if_flag
    then panic "cur_cpu with IF"
    else elim (find_cpu m.cpus m.lapic_id m.ncpu 0) [ none ↦ panic "unknown cpu" | some i ↦ ok i m ]

-- `cpu_id`: the difference of two pointers into `cpus`
unfoldable pub cpu_id : Cmd Machine ℕ
cpu_id = cur_cpu

unfoldable pub put_cpu : ℕ → Cpu → Cmd Machine (Unit {0})
put_cpu i c m = ok tt (record m { cpus = update m.cpus i c })

unfoldable pub push_int_disable : Cmd Machine (Unit {0})
unfolding put_cpu
push_int_disable = do
  enabled ← disable_interrupt
  i ← cur_cpu
  (λ m.
      let c : Cpu = m.cpus i in
      put_cpu i
        (record c {
          int_enabled = if c.int_disable_layer == 0 then enabled else c.int_enabled;
          int_disable_layer = (c.int_disable_layer + 1) % 2 ^ 32;
        })
        m)

-- The test `c->int_disable_layer < 0` is made on a `u32`.
unfoldable pub pop_int_disable : Cmd Machine (Unit {0})
unfolding put_cpu
pop_int_disable = do
  i ← cur_cpu
  (λ m.
      let c : Cpu = m.cpus i in
      let layer : ℕ = (c.int_disable_layer + 2 ^ 32 - 1) % 2 ^ 32 in
      (do
        put_cpu i (record c { int_disable_layer = layer })
        if ltb layer 0
            then (λ m'. panic "popcli")
            else if layer == 0 && c.int_enabled
            then enable_interrupt
            else pure tt)
        m)

-- `curproc`
unfoldable pub curproc : Cmd Machine Ptr
curproc = do push_int_disable; i ← cur_cpu; p ← (λ m. ok (m.cpus i).proc m); pop_int_disable; pure p

-- `cpu_bsp_init`. `gdt_setup` writes only the descriptor tables.
unfoldable pub cpu_bsp_init : Cmd Machine (Unit {0})
cpu_bsp_init m = ok tt (record m {
  ncpu = 1;
  cpus =
      update m.cpus 0
        (record (m.cpus 0) { apicid = m.lapic_id; started = true; int_disable_layer = 0 });
})
