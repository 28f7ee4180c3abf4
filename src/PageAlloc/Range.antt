-- ===== src/PageAlloc/Range.antt =====
-- `pgalloc_free_range` of page_alloc.c.
use guide_os.Prelude.{
  ℕ, zero, suc, ◌+◌, ◌-◌, ◌/◌, ◌%◌, ◌^◌, ◌≤◌, ◌<◌, ◌≡◌, refl, sym, ap, ◌∙◌, true, false, ◌&&◌,
  Bool-cases, inl, inr, arith, if◌then◌else◌, leb, ltb, ==_refl, shr, low_bits, shr_range, Returns,
  returns, bind-Returns, weaken-Returns,
}
use guide_os.Memlayout.{kernbase, kv2p}
use guide_os.PageAlloc.{Pages, fitting_order, free_range}
use guide_os.PageAlloc.Invariant.{free_count, covers, Valid}
use guide_os.PageAlloc.Bins.{Used}
use guide_os.Spinlock.Laws.{Ready, Restored}
use guide_os.PageAlloc.Locked.{Locked, pgalloc_lock, pgalloc_free_range}
use guide_os.PageAlloc.Locking.{locked-Returns}
use guide_os.PageAlloc.Free.{s_free_block-Freed}

-- The order that the inner loop finds: the block is aligned and within the range.
fitting_order_lem :
    (start end order : ℕ)
    → start < end
    → (fitting_order start end order ≤ order)
      × (low_bits start (fitting_order start end order) ≡ 0)
      × (start + 2 ^ fitting_order start end order ≤ end)
unfolding fitting_order low_bits
fitting_order_lem start end zero lt = (omega arith, refl, omega arith)
fitting_order_lem start end (suc order) lt = ground (arith, fitting_order_lem start end order lt)

pow_pos : (k : ℕ) → 0 < 2 ^ k
pow_pos zero = omega arith
pow_pos (suc k) = omega (arith, pow_pos k)

abbrev pub in_range : ℕ → ℕ → ℕ → ℕ
in_range start end q = if leb start q && ltb q end then 1 else 0

-- The pages of a range are free as well, and nothing else changes.
pub record FreedRange (n : ℕ) (s : Pages) (start end : ℕ) (s' : Pages) : Type 0 where
  pub valid : Valid n s'
  pub count : (q : ℕ) → free_count s' q ≡ free_count s q + in_range start end q

Used-range :
    (n : ℕ) (s : Pages) (start o end : ℕ)
    → low_bits start o ≡ 0
    → start + 2 ^ o ≤ end
    → end ≤ n
    → ((q : ℕ) → start ≤ q → q < end → free_count s q ≡ 0)
    → Used n s start o
Used-range n s start o end al fits within unfree = record {
  aligned = al;
  unlisted_yet = λ q e. let r = at q e in unfree q (omega (arith, r.0)) (omega (arith, r.1, fits));
  inside = λ q e. let r = at q e in omega (arith, r.1, fits);
}
  where
    at : (q : ℕ) → shr q o ≡ shr start o → (start ≤ q) × (q < start + 2 ^ o)
    at q e =
        let same : (leb start q && ltb q (start + 2 ^ o)) ≡ true =
          sym (shr_range start q o al) ∙ rw e (==_refl (shr start o)) in
        ground arith

pub free_range-FreedRange :
    (fuel n : ℕ) (s : Pages) (start end : ℕ)
    → Valid n s
    → end ≤ n
    → end - start < fuel
    → ((q : ℕ) → start ≤ q → q < end → free_count s q ≡ 0)
    → Returns (λ r s'. FreedRange n s start end s') (free_range fuel start end s)
unfolding free_range
free_range-FreedRange zero n s start end v within enough unfree = absurd (omega arith)
free_range-FreedRange (suc fuel) n s start end v within enough unfree =
    elim (Bool-cases (ltb start end)) [
      | inr e ↦ rw e (returns (record { valid = v; count = λ q. ground arith }))
      | inl e ↦
          let lt : start < end = ground arith in
          let (small, al, fits) = fitting_order_lem start end 10 lt in
          let o : ℕ = fitting_order start end 10 in
          rw e (
            bind-Returns
              (s_free_block-Freed n s start o v (Used-range n s start o end al fits within unfree)
                (omega (arith, small)))
              λ r s₁ fr.
                let block : (q : ℕ) → covers o start q ≡ in_range start (start + 2 ^ o) q =
                  λ q. ap (λ b. if b then 1 else 0) (shr_range start q o al) in
                weaken-Returns
                  (free_range-FreedRange fuel n s₁ (start + 2 ^ o) end fr.valid within
                    (omega (arith, fits, pow_pos o))
                    (λ q ge below.
                      let b = block q in
                      let c = fr.count q in let u = unfree q (omega arith) below in ground arith))
                  λ r' s₂ rest. record {
                    valid = rest.valid;
                    count = λ q.
                        let b = block q in
                        let c = fr.count q in
                        let d = rest.count q in let f : start + 2 ^ o ≤ end = fits in ground arith;
                  })
    ]

-- `pgalloc_free_range` of pages that are free nowhere returns with its lock free again. The pages from
-- the physical address `start_pa`, rounded up, to `end_pa`, rounded down, are free as well, and nothing else changes.
pub pgalloc_free_range_lem :
    (spins fuel i n start_pa end_pa : ℕ) (s : Locked)
    → Ready i s.machine
    → (0 < (s.machine.cpus i).int_disable_layer → s.machine.if_flag ≡ false)
    → (s.machine.lock pgalloc_lock).locked ≡ false
    → Valid n s.pages
    → kernbase + start_pa < 2 ^ 64
    → kernbase + end_pa < 2 ^ 64
    → end_pa / 4096 ≤ n
    → end_pa / 4096 < fuel
    → ((q : ℕ) → (start_pa + 4095) / 4096 ≤ q → q < end_pa / 4096 → free_count s.pages q ≡ 0)
    → Returns
        (λ r s'.
          FreedRange n s.pages ((start_pa + 4095) / 4096) (end_pa / 4096) s'.pages
          × Restored pgalloc_lock i s.machine s'.machine)
        (pgalloc_free_range (suc spins) fuel (kernbase + start_pa) (kernbase + end_pa) s)
unfolding pgalloc_free_range
pgalloc_free_range_lem spins fuel i n start_pa end_pa s ready off free v room room_end within enough
      unfree =
    let start : (kv2p (kernbase + start_pa) + 4095) % 2 ^ 64 ≡ start_pa + 4095 = omega arith in
    let last : kv2p (kernbase + end_pa) ≡ end_pa = omega arith in
    locked-Returns spins i s _ ready off free (
      rw (start, last)
        (free_range-FreedRange fuel n s.pages ((start_pa + 4095) / 4096) (end_pa / 4096) v within
          (omega arith) unfree))
