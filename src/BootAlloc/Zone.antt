-- ===== src/BootAlloc/Zone.antt =====
-- What boot_alloc.c promises of its zone.
use guide_os.Prelude.{
  ℕ, ◌+◌, ◌%◌, ◌^◌, ◌≤◌, ◌<◌, ◌≡◌, refl, ◌⊎◌, inl, inr, Bool-cases, arith, ltb, Ptr, null,
}
use guide_os.BootAlloc.{Boot, round_up, boot_alloc}

-- The zone begins at a page, and is not at 0; its end is an address.
pub record Aligned (s : Boot) : Type 0 where
  pub page : s.begin_kva % 4096 ≡ 0
  pub nonzero : 0 < s.begin_kva
  pub address : s.end_kva < 2 ^ 64
  pub begin_address : s.begin_kva < 2 ^ 64

-- What is left after allocating `n` bytes at `p`: whole pages, that hold `n` bytes, were in the zone
-- and are so no more.
pub record Got (n : ℕ) (s : Boot) (p : Ptr) (s' : Boot) : Type 0 where
  pub aligned : Aligned s'
  pub page : p % 4096 ≡ 0
  pub from_zone : s.begin_kva ≤ p
  pub fits : p + n ≤ s'.begin_kva
  pub zone : s'.begin_kva < s.end_kva
  pub same_end : s'.end_kva ≡ s.end_kva

-- `boot_alloc` answers NULL and changes nothing, or takes pages that hold `n` bytes off the front of
-- the zone. It answers NULL only if the zone does not have a byte more than the rounded-up size.
pub boot_alloc_lem :
    (n : ℕ) (s : Boot)
    → s.begin_kva + n + 4096 < 2 ^ 64
    → Aligned s
    → (((boot_alloc n s).0 ≡ null)
        × ((boot_alloc n s).1 ≡ s)
        × (s.end_kva ≤ s.begin_kva + round_up n))
      ⊎ Got n s (boot_alloc n s).0 (boot_alloc n s).1
unfolding boot_alloc
boot_alloc_lem n s room al =
    elim (Bool-cases (ltb ((s.begin_kva + round_up n) % 2 ^ 64) s.end_kva)) [
      | inl e ↦
          let lt : (s.begin_kva + round_up n) % 2 ^ 64 < s.end_kva = ground arith in
          rw e (
            inr (record {
              aligned = record {
                page = omega (arith, al.page, room);
                nonzero = omega (arith, al.nonzero, room);
                address = al.address;
                begin_address = omega (arith, room);
              };
              page = al.page;
              from_zone = omega arith;
              fits = omega (arith, room);
              zone = lt;
              same_end = refl;
            }))
      | inr e ↦ rw e (inl (refl, refl, ground (arith, room)))
    ]
