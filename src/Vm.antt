-- ===== src/Vm.antt =====
-- kernel/src/arch/x86/mem/vm.c: the page table that maps physical memory to the addresses from
-- KERNBASE on, in pages of 1 GB. A table is a function of the index; `boot_alloc` answers with a page.
pub mod Map
mod Tests
use guide_os.Prelude.{
  ℕ, String, zero, suc, ◌+◌, ◌-◌, ◌*◌, ◌/◌, ◌%◌, ◌^◌, Bool, true, false, Option, none, some, ◌==◌,
  if◌then◌else◌, ltb, Cmd, ok, panic, out_of_fuel, pure, ◌>>=◌, ◌>>◌, Ptr, null,
}
use guide_os.Cpu.{update}
use guide_os.Memlayout.{kernbase, kern_phymap_top}
use guide_os.BootAlloc.{Boot, boot_alloc}

abbrev pub l3_huge_size : ℕ
l3_huge_size = 2 ^ 30

-- The boot allocator, and the tables by their addresses: entry `i` of the table at `t`
pub record Tables : Type 0 where
  pub boot : Boot
  pub entry : Ptr → ℕ → ℕ

-- `boot_alloc(PG_SIZE)`, the tests of its result and the `memset`: the page is cleared
unfoldable pub new_table : String → Cmd Tables Ptr
new_table oom s =
    let r = boot_alloc 4096 s.boot in
    if r.0 == null
    then panic oom
    else if r.0 % 4096 == 0
    then ok r.0 (record s { boot = r.1; entry = update s.entry r.0 (λ i. 0) })
    else panic "align"

abbrev pub set_entry : Ptr → ℕ → ℕ → Cmd Tables (Unit {0})
set_entry t i v s = ok tt (record s { entry = update s.entry t (update (s.entry t) i v) })

abbrev pub pg_l3_idx : ℕ → ℕ
pg_l3_idx va = va / 2 ^ 30 % 512

abbrev pub pg_l4_idx : ℕ → ℕ
pg_l4_idx va = va / 2 ^ 39 % 512

-- `PTE_FLAG_P | PTE_FLAG_WRITE | PTE_ADDR(pa)`, and with `PTE_FLAG_SZ`
abbrev pub table_entry : ℕ → ℕ
table_entry pa = pa / 4096 * 4096 + 3

abbrev pub huge_entry : ℕ → ℕ
huge_entry pa = pa / 4096 * 4096 + 0x83

-- A new level-3 table where the address begins one
unfoldable pub next_pdp : Ptr → Ptr → ℕ → Cmd Tables Ptr
next_pdp pml4 pdp va =
    if pg_l3_idx va == 0
    then (do
      t ← new_table "vmm_init oom(l3)"
      set_entry pml4 (pg_l4_idx va) (table_entry (t - kernbase))
      pure t)
    else pure pdp

-- The loop of `vmm_init`, on fuel
unfoldable pub map_loop : ℕ → Ptr → Ptr → ℕ → Cmd Tables (Unit {0})
map_loop zero pml4 pdp va = λ s. out_of_fuel
map_loop (suc fuel) pml4 pdp va =
    if ltb va kern_phymap_top
    then (do
      t ← next_pdp pml4 pdp va
      if t == null then (λ s. panic "vmm_init nullptr") else pure tt
      set_entry t (pg_l3_idx va) (huge_entry (va - kernbase))
      map_loop fuel pml4 t (va + l3_huge_size))
    else pure tt

-- `vmm_init`; the result is `kern_pml4`, which `vmm_load_ktable` loads
unfoldable pub vmm_init : Cmd Tables Ptr
vmm_init = do pml4 ← new_table "vmm_init oom"; map_loop 513 pml4 null kernbase; pure pml4
