-- ===== src/Vm/Tests.antt =====
-- The theorem about vm.c at a zone of four pages.
use guide_os.Prelude.{ℕ, ◌-◌, ◌*◌, ◌^◌, ◌<◌, ◌≡◌, ◌≢◌, refl, true, arith, Returns, Ptr}
use guide_os.Memlayout.{kernbase}
use guide_os.Vm.{Tables, table_entry, huge_entry, vmm_init}
use guide_os.Vm.Map.{vmm_init_lem}

abbrev tables : Tables
tables = record {
  boot = record {
    begin_kva = 0xffff800000100000;
    end_kva = 0xffff800000104000;
    initialized = true;
  };
  entry = λ t i. 7;
}

vmm_init_lem_example :
    Returns
      (λ pml4 s'.
        (pdp : Ptr) × (s'.entry pml4 256 ≡ table_entry (pdp - kernbase))
        × ((i : ℕ) → i ≢ 256 → s'.entry pml4 i ≡ 0)
        × ((j : ℕ) → j < 512 → s'.entry pdp j ≡ huge_entry (j * 2 ^ 30))
        × (s'.boot ≡ record (tables.boot) { begin_kva = 0xffff800000102000 }))
      (vmm_init tables)
vmm_init_lem_example =
    vmm_init_lem tables
      (record { page = refl; nonzero = omega arith; room = omega arith; address = omega arith })
