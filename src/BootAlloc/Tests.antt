-- ===== src/BootAlloc/Tests.antt =====
-- The theorem about boot_alloc.c at a zone of four pages.
use guide_os.Prelude.{◌+◌, ◌≤◌, ◌≡◌, refl, ◌⊎◌, true, arith, null}
use guide_os.BootAlloc.{Boot, round_up, boot_alloc}
use guide_os.BootAlloc.Zone.{Got, boot_alloc_lem}

abbrev zone : Boot
zone = record { begin_kva = 8192; end_kva = 24576; initialized = true }

boot_alloc_lem_example :
    (((boot_alloc 5000 zone).0 ≡ null)
      × ((boot_alloc 5000 zone).1 ≡ zone)
      × (24576 ≤ 8192 + round_up 5000))
    ⊎ Got 5000 zone (boot_alloc 5000 zone).0 (boot_alloc 5000 zone).1
boot_alloc_lem_example = boot_alloc_lem 5000 zone (omega arith) (record {
  page = refl;
  nonzero = omega arith;
  address = omega arith;
  begin_address = omega arith;
})
