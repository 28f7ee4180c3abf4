-- ===== src/PageAlloc/Free.antt =====
-- `s_free_block` of page_alloc.c.
use guide_os.Prelude.{
  ℕ, zero, suc, ◌+◌, ◌/◌, ◌≤◌, ◌<◌, ◌≡◌, refl, ◌≢◌, sym, ◌∙◌, subst, true, Bool-cases, inl, inr,
  List, length, arith, ◌==◌, ==_refl, eq_of_==, ltb_of_le, flip_bit, shr, shr-suc, shr-flip_bit,
  clear_low, shr-clear_low, low_bits-clear_low, Returns, returns, weaken-Returns,
}
use guide_os.PageAlloc.{Pages, with_bin, listed, unlisted, get_bin, free_block, s_free_block}
use guide_os.PageAlloc.Lists.{
  blocks, count_if-unlisted, length-unlisted, unlisted-AllAligned, listed_buddy, shr_pair,
}
use guide_os.PageAlloc.Invariant.{
  bit_at, bitmap_bit-ok, bitmap_toggle-ok, free_count, covers, Valid, free_count_ge,
}
use guide_os.PageAlloc.Bins.{Used, Freed, dropped_bin, Freed-pushed, Without, Taken, Taken-dropped}

-- A block and its buddy are the two halves of the block that they make up.
pub covers_halves :
    (o p q : ℕ) → covers o p q + covers o (flip_bit p o) q ≡ covers (suc o) (clear_low p (suc o)) q
covers_halves o p q =
    rw (shr-clear_low p (suc o), shr-flip_bit p o) (ground (arith, shr-suc p o, shr-suc q o))

-- The merged block may be freed once the buddy is off its list.
Used-merged :
    (n : ℕ) (s s' : Pages) (p o : ℕ)
    → Valid n s
    → Used n s p o
    → ((q : ℕ) → shr q o ≡ shr (flip_bit p o) o → 0 < free_count s q)
    → Taken n s (flip_bit p o) o s'
    → Used n s' (clear_low p (suc o)) (suc o)
Used-merged n s s' p o v u buddy_free taken = record {
  aligned = low_bits-clear_low p (suc o);
  unlisted_yet = λ q e. (halves q e).0;
  inside = λ q e. (halves q e).1;
}
  where
    halves :
        (q : ℕ)
        → shr q (suc o) ≡ shr (clear_low p (suc o)) (suc o)
        → (free_count s' q ≡ 0) × (q < n)
    halves q e = elim (Bool-cases (shr q o == shr p o)) [
      | inl i ↦
          let same = eq_of_== (shr q o) (shr p o) i in
          (omega (arith, taken.count q, u.unlisted_yet q same), u.inside q same)
      | inr i ↦
          let other : shr q o ≢ shr p o = λ x. ground arith in
          let same = shr_pair o p q (e ∙ shr-clear_low p (suc o)) other in
          let some_ = buddy_free q same in
          let cover : (covers o (flip_bit p o) q == 1) ≡ true =
            rw (sym same, ==_refl (shr q o)) refl in
          (
            omega (
              arith,
              taken.count q,
              v.apart q,
              some_,
              eq_of_== (covers o (flip_bit p o) q) 1 cover,
            ),
            v.inside q some_,
          )
    ]

Without-unlisted : (x : ℕ) (xs : List ℕ) → listed x xs ≡ true → Without x xs (unlisted x xs)
Without-unlisted x xs h = record {
  counts = λ f. count_if-unlisted f x xs h;
  shorter = length-unlisted x xs h;
}

-- A listed block is free.
listed-free :
    (s : Pages) (x o q : ℕ)
    → o < 11
    → listed x (s.bin o).list ≡ true
    → shr q o ≡ shr x o
    → 0 < free_count s q
unfolding blocks
listed-free s x o q lt h e =
    let some_ = count_if-unlisted (λ y. shr y o == shr q o) x (s.bin o).list h in
    let ge = free_count_ge s o q lt in
    let own : (shr x o == shr q o) ≡ true = rw e (==_refl (shr x o)) in ground arith

pub free_block-Freed :
    (fuel n : ℕ) (s : Pages) (p o : ℕ)
    → Valid n s
    → Used n s p o
    → o < 11
    → 11 ≤ fuel + o
    → Returns (λ r s'. Freed n s p o s') (free_block fuel p o s)
unfolding free_block get_bin
free_block-Freed zero n s p o v u lt enough = absurd (omega arith)
free_block-Freed (suc fuel) n s p o v u lt enough =
    let word : shr p (suc o) / 32 < length (s.bin o).bitmap = v.words o p lt (u.inside p refl) in
    rw
      (
        u.aligned,
        ltb_of_le 10 o (omega (arith, lt)),
        bitmap_bit-ok (s.bin o).bitmap (shr p (suc o)) s word,
        bitmap_toggle-ok (s.bin o).bitmap (shr p (suc o)) s word,
      )
      (elim (Bool-cases (bit_at (s.bin o).bitmap (shr p (suc o)))) [
        | inr e ↦ rw e (returns (Freed-pushed n s p o v lt u))
        | inl e ↦ elim (Bool-cases (o == 10)) [
          | inl top ↦ rw (e, top) (returns (Freed-pushed n s p o v lt u))
          | inr i ↦
              let lt' : o < 10 = ground arith in
              let odd = v.bits o (shr p (suc o)) lt' in
              let none_ = free_count_ge s o p lt in
              let found : listed (flip_bit p o) (s.bin o).list ≡ true =
                listed_buddy o p (s.bin o).list u.aligned (v.aligned o lt)
                  (omega (arith, none_, u.unlisted_yet p refl)) (ground arith) in
              let taken = buddy_taken found in
              rw (e, i, found)
                (weaken-Returns
                  (free_block-Freed fuel n _ (clear_low p (suc o)) (suc o) taken.valid
                    (Used-merged n s _ p o v u (λ q. listed-free s (flip_bit p o) o q lt found)
                      taken)
                    (omega (arith, lt')) (omega (arith, enough)))
                  λ r s' fr. record {
                    valid = fr.valid;
                    count = λ q. omega (arith, fr.count q, taken.count q, covers_halves o p q);
                  })
        ]
      ])
  where
    same_pair : shr (flip_bit p o) (suc o) ≡ shr p (suc o)
    same_pair = ground (arith, shr-suc (flip_bit p o) o, shr-suc p o, shr-flip_bit p o)

    buddy_taken :
        listed (flip_bit p o) (s.bin o).list ≡ true
        → Taken n s (flip_bit p o) o (
            with_bin o
              (dropped_bin (s.bin o) (shr p (suc o)) (unlisted (flip_bit p o) (s.bin o).list))
              s)
    buddy_taken found =
        subst
          (λ i.
            Taken n s (flip_bit p o) o
              (with_bin o (dropped_bin (s.bin o) i (unlisted (flip_bit p o) (s.bin o).list)) s))
          same_pair
          (Taken-dropped n s (flip_bit p o) o (unlisted (flip_bit p o) (s.bin o).list) v lt
            (Without-unlisted (flip_bit p o) (s.bin o).list found)
            (unlisted-AllAligned o (flip_bit p o) (s.bin o).list (v.aligned o lt)))

-- `s_free_block` of a block in use returns: it does not run out of fuel, index past a bitmap or miss
-- a buddy. The block's pages become free, no other page does, and the invariant holds.
pub s_free_block-Freed :
    (n : ℕ) (s : Pages) (p o : ℕ)
    → Valid n s
    → Used n s p o
    → o < 11
    → Returns (λ r s'. Freed n s p o s') (s_free_block p o s)
unfolding s_free_block
s_free_block-Freed n s p o v u lt = free_block-Freed 11 n s p o v u lt (omega arith)
