-- ===== src/BootAlloc.antt =====
-- kernel/src/mem/boot_alloc.c: the bump allocator that the kernel uses before its other allocators
-- run. Addresses are 64 bits wide, and `NULL` is 0.
pub mod Zone
mod Tests
use guide_os.Prelude.{
  ℕ, ◌+◌, ◌-◌, ◌*◌, ◌/◌, ◌%◌, ◌^◌, Bool, true, false, if◌then◌else◌, ltb, Ptr, null,
}

-- `ROUNDUP_PWR2(x, PG_SIZE)`
abbrev pub round_up : ℕ → ℕ
round_up x = (x + 4095) % 2 ^ 64 / 4096 * 4096

-- `default_zone` and `boot_alloc_initialized`
pub record Boot : Type 0 where
  pub begin_kva : Ptr
  pub end_kva : Ptr
  pub initialized : Bool

unfoldable pub boot_alloc_init : Ptr → ℕ → Boot → Boot
boot_alloc_init start_kva size s = if s.initialized then s else record {
  begin_kva = round_up start_kva;
  end_kva = (start_kva + size) % 2 ^ 64;
  initialized = true;
}

unfoldable pub boot_alloc : ℕ → Boot → Ptr × Boot
boot_alloc size s =
    if ltb ((s.begin_kva + round_up size) % 2 ^ 64) s.end_kva
    then (s.begin_kva, record s { begin_kva = (s.begin_kva + round_up size) % 2 ^ 64 })
    else (null, s)

unfoldable pub boot_alloc_disable : Boot → Ptr × Boot
boot_alloc_disable s = (s.begin_kva, record s { begin_kva = 0; end_kva = 0 })
