-- ===== src/Vm/Map.antt =====
-- What `vmm_init` maps.
use guide_os.Prelude.{
  ℕ, String, zero, suc, ◌+◌, ◌-◌, ◌*◌, ◌/◌, ◌%◌, ◌^◌, ◌≤◌, ◌<◌, ◌≡◌, ◌≢◌, ◌∙◌, refl, ap, inl, inr,
  true, false, Bool-cases, arith, ◌==◌, ==_of_ne, ==_refl, eq_of_==, ltb, ltb_of_lt, Ptr, null, ok,
  Returns, returns, weaken-Returns, bind-Returns,
}
use guide_os.Cpu.{update}
use guide_os.BootAlloc.{Boot, boot_alloc}
use guide_os.Memlayout.{kernbase}
use guide_os.Vm.{Tables, huge_entry, table_entry, new_table, next_pdp, map_loop, vmm_init}

-- The table at `t` maps from index `i` on, and nothing else has changed.
pub record Mapped (i : ℕ) (t : Ptr) (s s' : Tables) : Type 0 where
  pub from : (j : ℕ) → i ≤ j → j < 512 → s'.entry t j ≡ huge_entry (j * 2 ^ 30)
  pub below : (j : ℕ) → j < i → s'.entry t j ≡ s.entry t j
  pub others : (a : Ptr) → a ≢ t → s'.entry a ≡ s.entry a
  pub boot : s'.boot ≡ s.boot

-- One entry is filled in.
abbrev with_page : ℕ → Ptr → Tables → Tables
with_page i t s = record s {
  entry = update s.entry t (update (s.entry t) i (huge_entry (i * 2 ^ 30)));
}

Mapped-with_page :
    (i : ℕ) (t : Ptr) (s s' : Tables)
    → i < 512
    → Mapped (suc i) t (with_page i t s) s'
    → Mapped i t s s'
Mapped-with_page i t s s' lt m = record {
  from = λ j ge j_lt. elim (Bool-cases (j == i)) [
    | inl e ↦
        let e' = eq_of_== j i e in m.below j (omega arith) ∙ rw (==_refl t, e', ==_refl i) refl
    | inr e ↦ m.from j (ground arith) j_lt
  ];
  below = λ j j_lt. m.below j (omega arith) ∙ rw (==_refl t, ==_of_ne j i (omega arith)) refl;
  others = λ a out. m.others a out ∙ rw (==_of_ne a t out) refl;
  boot = m.boot;
}

map_loop-Mapped :
    (fuel i : ℕ) (pml4 t : Ptr) (s : Tables)
    → 0 < i
    → i ≤ 512
    → 513 ≤ fuel + i
    → t ≢ null
    → Returns (λ r s'. Mapped i t s s') (map_loop fuel pml4 t (kernbase + i * 2 ^ 30) s)
unfolding map_loop next_pdp
map_loop-Mapped zero i pml4 t s pos le enough ne = absurd (omega arith)
map_loop-Mapped (suc fuel) i pml4 t s pos le enough ne = elim (Bool-cases (ltb i 512)) [
  | inr e ↦
      let done : ltb (kernbase + i * 2 ^ 30) (kernbase + 2 ^ 39) ≡ false = ground arith in
      rw done (
        returns (record {
          from = λ j ge lt. absurd (ground arith);
          below = λ j lt. refl;
          others = λ a out. refl;
          boot = refl;
        }))
  | inl e ↦
      let more : ltb (kernbase + i * 2 ^ 30) (kernbase + 2 ^ 39) ≡ true = ground arith in
      let idx : (kernbase + i * 2 ^ 30) / 2 ^ 30 % 512 ≡ i = ground arith in
      let pa : kernbase + i * 2 ^ 30 - kernbase ≡ i * 2 ^ 30 = omega arith in
      let next : kernbase + i * 2 ^ 30 + 2 ^ 30 ≡ kernbase + suc i * 2 ^ 30 = omega arith in
      rw more (
        rw idx (
          rw (==_of_ne i 0 (omega arith)) (
            rw (==_of_ne t null ne) (
              rw (pa, next)
                (weaken-Returns
                  (map_loop-Mapped fuel (suc i) pml4 t (with_page i t s) (omega arith)
                    (ground arith) (omega arith) ne)
                  λ r s' m. Mapped-with_page i t s s' (ground arith) m)))))
]

-- The boot allocator can give `n` more pages.
pub record Room (n : ℕ) (b : Boot) : Type 0 where
  pub page : b.begin_kva % 4096 ≡ 0
  pub nonzero : 0 < b.begin_kva
  pub room : b.begin_kva + n * 4096 < b.end_kva
  pub address : b.end_kva < 2 ^ 64

-- The state behind `new_table`: the page at the front of the zone is taken and cleared.
abbrev with_table : Tables → Tables
with_table s = record {
  boot = record (s.boot) { begin_kva = s.boot.begin_kva + 4096 };
  entry = update s.entry s.boot.begin_kva (λ i. 0);
}

new_table-ok :
    (oom : String) (n : ℕ) (s : Tables)
    → Room (suc n) s.boot
    → new_table oom s ≡ ok s.boot.begin_kva (with_table s)
unfolding new_table boot_alloc
new_table-ok oom n s r =
    let end : (s.boot.begin_kva + 4096) % 2 ^ 64 ≡ s.boot.begin_kva + 4096 =
      omega (arith, r.room, r.address) in
    let fits : ltb (s.boot.begin_kva + 4096) s.boot.end_kva ≡ true =
      ltb_of_lt _ _ (omega (arith, r.room)) in
    rw (end, fits, ==_of_ne s.boot.begin_kva null (omega (arith, r.nonzero)), r.page) refl

-- What the loop leaves when it begins at KERNBASE, with the top-level table at `pml4`
record Filled (pml4 pdp : Ptr) (s s' : Tables) : Type 0 where
  top : s'.entry pml4 256 ≡ table_entry (pdp - kernbase)
  rest : (i : ℕ) → i ≢ 256 → s'.entry pml4 i ≡ s.entry pml4 i
  pages : (j : ℕ) → j < 512 → s'.entry pdp j ≡ huge_entry (j * 2 ^ 30)
  boot : s'.boot ≡ s.boot

abbrev with_top : Ptr → Ptr → Tables → Tables
with_top pml4 pdp s = record s {
  entry = update s.entry pml4 (update (s.entry pml4) 256 (table_entry (pdp - kernbase)));
}

-- The two writes of the first round
abbrev first_round : Ptr → Ptr → Tables → Tables
first_round pml4 pdp s = with_page 0 pdp (with_top pml4 pdp s)

Filled-first_round :
    (pml4 pdp : Ptr) (s s' : Tables)
    → pml4 ≢ pdp
    → Mapped 1 pdp (first_round pml4 pdp s) s'
    → Filled pml4 pdp s s'
Filled-first_round pml4 pdp s s' ne m = record {
  top = ap (λ f. f 256) (m.others pml4 ne) ∙ rw (==_of_ne pml4 pdp ne, ==_refl pml4) refl;
  rest = λ i other.
      ap (λ f. f i) (m.others pml4 ne)
      ∙ rw (==_of_ne pml4 pdp ne, ==_refl pml4, ==_of_ne i 256 other) refl;
  pages = λ j lt.
      (Mapped-with_page 0 pdp (with_top pml4 pdp s) s' (omega arith) m).from j (omega arith) lt;
  boot = m.boot;
}

map_loop-Filled :
    (fuel : ℕ) (pml4 : Ptr) (s : Tables)
    → 512 ≤ fuel
    → Room 1 s.boot
    → pml4 ≢ s.boot.begin_kva
    → Returns
        (λ r s'. Filled pml4 s.boot.begin_kva (with_table s) s')
        (map_loop (suc fuel) pml4 null kernbase s)
unfolding map_loop next_pdp
map_loop-Filled fuel pml4 s enough r ne = rw (new_table-ok "vmm_init oom(l3)" 0 s r) (
    rw (==_of_ne s.boot.begin_kva null (omega (arith, r.nonzero))) (
      weaken-Returns
        (map_loop-Mapped fuel 1 pml4 s.boot.begin_kva
          (first_round pml4 s.boot.begin_kva (with_table s)) (omega arith) (omega arith)
          (omega arith) (omega (arith, r.nonzero)))
        λ u s' m. Filled-first_round pml4 s.boot.begin_kva (with_table s) s' ne m))

-- With two pages for it, `vmm_init` returns a table that maps the 512 GB from KERNBASE on, in pages
-- of 1 GB, to physical memory from 0 on: its entry 256 leads to a table of those pages. The two pages
-- come from the front of the boot allocator's zone.
pub vmm_init_lem :
    (s : Tables)
    → Room 2 s.boot
    → Returns
        (λ pml4 s'.
          (pdp : Ptr) × (s'.entry pml4 256 ≡ table_entry (pdp - kernbase))
          × ((i : ℕ) → i ≢ 256 → s'.entry pml4 i ≡ 0)
          × ((j : ℕ) → j < 512 → s'.entry pdp j ≡ huge_entry (j * 2 ^ 30))
          × (s'.boot ≡ record (s.boot) { begin_kva = s.boot.begin_kva + 8192 }))
        (vmm_init s)
unfolding vmm_init
vmm_init_lem s r =
    let p : Ptr = s.boot.begin_kva in
    let again : Room 1 (with_table s).boot = record {
      page = omega (arith, r.page);
      nonzero = omega (arith, r.nonzero);
      room = omega (arith, r.room);
      address = r.address;
    } in
    let twice : p + 4096 + 4096 ≡ p + 8192 = omega arith in
    rw (new_table-ok "vmm_init oom" 1 s r) (
      bind-Returns (map_loop-Filled 512 p (with_table s) (omega arith) again (omega arith))
        λ u s' f. returns (
          p + 4096,
          f.top,
          λ i other. f.rest i other ∙ rw (==_of_ne p (p + 4096) (omega arith), ==_refl p) refl,
          f.pages,
          f.boot ∙ ap {A = ℕ} (λ b. record (s.boot) { begin_kva = b }) twice,
        ))
