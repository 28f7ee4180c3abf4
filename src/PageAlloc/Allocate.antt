-- ===== src/PageAlloc/Allocate.antt =====
-- `s_alloc_block` of page_alloc.c.
use guide_os.Prelude.{
  ℕ, zero, suc, ◌+◌, ◌^◌, ◌≤◌, ◌<◌, ◌≡◌, refl, ap, subst, true, Bool-cases, inl, inr, Option, none,
  some, List, [], ◌∷◌, length, arith, ◌==◌, ==_refl, eq_of_==, ltb, shr, shr-suc, shr-add, low_bits,
  low_bits-add, low_bits-suc, shr_even, Returns, returns, bind-Returns,
}
use guide_os.PageAlloc.{Pages, get_bin, alloc_block, s_alloc_block, pop_page, split_page}
use guide_os.PageAlloc.Lists.{AllAligned}
use guide_os.PageAlloc.Invariant.{bitmap_toggle-ok, covers, Valid}
use guide_os.PageAlloc.Bins.{Used, Taken, Without, Taken-dropped, entry_inside}
use guide_os.PageAlloc.Free.{s_free_block-Freed}

-- What `s_alloc_block` returns: no block, when the bins from `o` on are empty, and otherwise an
-- aligned block that was free and is so no more.
unfoldable pub Allocated : ℕ → Pages → ℕ → Option ℕ → Pages → Type 0
Allocated n s o none s' = (s' ≡ s) × ((i : ℕ) → o ≤ i → i < 11 → (s.bin i).list ≡ [])
Allocated n s o (some p) s' = (low_bits p o ≡ 0) × Taken n s p o s'

pop_page-Allocated :
    (n : ℕ) (s : Pages) (o : ℕ)
    → Valid n s
    → o < 11
    → 0 < (s.bin o).size
    → Returns (Allocated n s o) (pop_page o (s.bin o) s)
unfolding pop_page AllAligned Allocated
pop_page-Allocated n s o v lt some_ = by_list (s.bin o).list refl
  where
    by_list :
        (xs : List ℕ) → (s.bin o).list ≡ xs → Returns (Allocated n s o) (pop_page o (s.bin o) s)
    by_list [] e = absurd (omega (arith, v.size o lt, ap length e, some_))
    by_list (p ∷ ps) e =
        let al : AllAligned o (p ∷ ps) = subst (λ l. AllAligned o l) e (v.aligned o lt) in
        let without : Without p (s.bin o).list ps =
          rw e (record { counts = λ f. ground arith; shorter = omega arith }) in
        rw
          (
            e,
            bitmap_toggle-ok (s.bin o).bitmap (shr p (suc o)) s
                (v.words o p lt (entry_inside n s p o ps v lt without)),
          )
          (returns (al.0, Taken-dropped n s p o ps v lt without al.1))

-- The lower half of a block is what is left of it once the upper half is freed.
split_page-Allocated :
    (n : ℕ) (s s₁ : Pages) (o large : ℕ)
    → Valid n s
    → o < 11
    → low_bits large (suc o) ≡ 0
    → Taken n s large (suc o) s₁
    → Returns (Allocated n s o) (split_page o (some large) s₁)
unfolding split_page Allocated
split_page-Allocated n s s₁ o large v lt al taken =
    bind-Returns (s_free_block-Freed n s₁ (large + 2 ^ o) o taken.valid upper lt) λ r s' fr.
      returns (
        low_bits-suc large o al,
        record {
          valid = fr.valid;
          count = λ q. omega (arith, fr.count q, taken.count q, halves q);
        },
      )
  where
    halves : (q : ℕ) → covers o large q + covers o (large + 2 ^ o) q ≡ covers (suc o) large q
    halves q =
        rw (shr-add large o) (ground (arith, shr-suc large o, shr-suc q o, shr_even large o al))

    in_upper : (q : ℕ) → shr q o ≡ shr (large + 2 ^ o) o → covers (suc o) large q ≡ 1
    in_upper q e =
        let own : (shr (large + 2 ^ o) o == shr q o) ≡ true =
          rw e (==_refl (shr (large + 2 ^ o) o)) in
        ground
          (arith, halves q, shr-add large o, shr-suc large o, shr-suc q o, shr_even large o al, e)

    upper : Used n s₁ (large + 2 ^ o) o
    upper = record {
      aligned = omega (arith, low_bits-add large o, low_bits-suc large o al);
      unlisted_yet = λ q e. omega (arith, in_upper q e, taken.count q, v.apart q);
      inside = λ q e. v.inside q (omega (arith, in_upper q e, taken.count q));
    }

nil_of_length : {A : Type 0} (xs : List A) → length xs ≡ 0 → xs ≡ []
nil_of_length [] h = refl
nil_of_length (x ∷ xs) h = absurd (omega arith)

split_rest :
    (n : ℕ) (s s₁ : Pages) (o : ℕ) (r : Option ℕ)
    → Valid n s
    → o < 11
    → (s.bin o).size ≡ 0
    → Allocated n s (suc o) r s₁
    → Returns (Allocated n s o) (split_page o r s₁)
unfolding split_page Allocated
split_rest n s s₁ o none v lt empty (same, higher) = returns (
  same,
  λ i le lt'. elim (Bool-cases (o == i)) [
    | inl e ↦
        subst (λ j. (s.bin j).list ≡ []) (eq_of_== o i e)
          (nil_of_length (s.bin o).list (omega (arith, v.size o lt, empty)))
    | inr e ↦ higher i (ground arith) lt'
  ],
)
split_rest n s s₁ o (some large) v lt empty (al, taken) =
    split_page-Allocated n s s₁ o large v lt al taken

alloc_block-Allocated :
    (fuel n : ℕ) (s : Pages) (o : ℕ)
    → Valid n s
    → o < 12
    → 12 ≤ fuel + o
    → Returns (Allocated n s o) (alloc_block fuel o s)
unfolding alloc_block get_bin Allocated
alloc_block-Allocated zero n s o v top enough = absurd (omega arith)
alloc_block-Allocated (suc fuel) n s o v top enough = elim (Bool-cases (ltb 10 o)) [
  | inl e ↦ rw e (returns (refl, λ i le lt. absurd (ground arith)))
  | inr e ↦
      let lt : o < 11 = ground arith in
      elim (Bool-cases ((s.bin o).size == 0)) [
        | inl none_ ↦ rw e (
            rw (e, none_)
              (bind-Returns
                (alloc_block-Allocated fuel n s (suc o) v (omega (arith, lt))
                  (omega (arith, enough)))
                λ r s₁ al. split_rest n s s₁ o r v lt (eq_of_== (s.bin o).size 0 none_) al))
        | inr some_ ↦ rw e (rw (e, some_) (pop_page-Allocated n s o v lt (ground arith)))
      ]
]

-- `s_alloc_block` returns: it does not run out of fuel, follow a null pointer or index past a bitmap.
-- If it finds a block, the block is aligned to its size, all its pages were free and are so no more,
-- no other page changes, and the invariant holds; if not, every bin from its order on is empty.
pub s_alloc_block-Allocated :
    (n : ℕ) (s : Pages) (o : ℕ) → Valid n s → o < 11 → Returns (Allocated n s o) (s_alloc_block o s)
unfolding s_alloc_block
s_alloc_block-Allocated n s o v lt =
    alloc_block-Allocated 12 n s o v (omega (arith, lt)) (omega arith)
