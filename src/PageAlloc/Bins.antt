-- ===== src/PageAlloc/Bins.antt =====
-- A block put on a free list of page_alloc.c, and one taken off.
use guide_os.Prelude.{
  ℕ, suc, ◌+◌, ◌-◌, ◌/◌, ◌%◌, ◌^◌, ◌≤◌, ◌<◌, ◌≡◌, refl, sym, ap, ◌∙◌, Bool, Bool-cases, inl, inr,
  List, ◌∷◌, length, length-set, count_if, arith, ◌==◌, if◌then◌else◌, ==_refl, eq_of_==, shr,
  low_bits,
}
use guide_os.PageAlloc.{Bin, Pages, with_bin}
use guide_os.PageAlloc.Lists.{AllAligned, blocks, length_bound, count_if_le_blocks}
use guide_os.PageAlloc.Invariant.{
  toggled, bit_at-toggled, free_count, covers, Valid, free_count-with_bin, Valid-with_bin,
  free_count_ge,
}

-- A block that may be freed: aligned, within memory, and free nowhere.
pub record Used (n : ℕ) (s : Pages) (p o : ℕ) : Type 0 where
  pub aligned : low_bits p o ≡ 0
  pub unlisted_yet : (q : ℕ) → shr q o ≡ shr p o → free_count s q ≡ 0
  pub inside : (q : ℕ) → shr q o ≡ shr p o → q < n

-- What freeing it leads to: its pages are free as well, and nothing else changes.
pub record Freed (n : ℕ) (s : Pages) (p o : ℕ) (s' : Pages) : Type 0 where
  pub valid : Valid n s'
  pub count : (q : ℕ) → free_count s' q ≡ free_count s q + covers o p q

abbrev pub pushed_bin : Bin → ℕ → ℕ → Bin
pushed_bin b p o = record {
  list = p ∷ b.list;
  size = (b.size + 1) % 2 ^ 64;
  bitmap = toggled b.bitmap (shr p (suc o));
}

abbrev pub dropped_bin : Bin → ℕ → List ℕ → Bin
dropped_bin b i ps = record {
  list = ps;
  size = (b.size + (2 ^ 64 - 1)) % 2 ^ 64;
  bitmap = toggled b.bitmap i;
}

module _ (n : ℕ) (s : Pages) (p o : ℕ) (v : Valid n s) (lt : o < 11) where
  word : p < n → shr p (suc o) / 32 < length (s.bin o).bitmap
  word h = v.words o p lt h

  free_count-pushed :
      (q : ℕ)
      → free_count (with_bin o (pushed_bin (s.bin o) p o) s) q ≡ free_count s q + covers o p q
  unfolding blocks
  free_count-pushed q =
      let c = free_count-with_bin s o (pushed_bin (s.bin o) p o) q lt in ground (arith, c)

  module _ (u : Used n s p o) where
    covered :
        (q : ℕ) → (free_count s q + covers o p q ≤ 1) × (0 < free_count s q + covers o p q → q < n)
    covered q = elim (Bool-cases (shr p o == shr q o)) [
      | inl e ↦
          let e' : shr q o ≡ shr p o = sym (eq_of_== (shr p o) (shr q o) e) in
          rw e (omega (arith, u.unlisted_yet q e'), λ pos. u.inside q e')
      | inr e ↦ rw e (omega (arith, v.apart q), λ pos. v.inside q (omega (arith, pos)))
    ]

    pub Freed-pushed : Freed n s p o (with_bin o (pushed_bin (s.bin o) p o) s)
    unfolding blocks AllAligned
    Freed-pushed = record { valid = valid; count = free_count-pushed }
      where
        s' : Pages
        s' = with_bin o (pushed_bin (s.bin o) p o) s

        apart : (q : ℕ) → free_count s' q ≤ 1
        apart q = omega (arith, free_count-pushed q, (covered q).0)

        inside : (q : ℕ) → 0 < free_count s' q → q < n
        inside q h = (covered q).1 (omega (arith, free_count-pushed q, h))

        listed_count : (q : ℕ) → count_if (λ x. x == q) (p ∷ (s.bin o).list) ≤ free_count s' q
        listed_count q =
            let ge = free_count_ge s' o q lt in
            let here : s'.bin o ≡ pushed_bin (s.bin o) p o = rw (==_refl o) refl in
            omega (
              arith,
              count_if_le_blocks o q (p ∷ (s.bin o).list),
              ge,
              ap (λ (b : Bin). blocks o (shr q o) b.list) here,
            )

        short : length (p ∷ (s.bin o).list) ≤ n
        short =
            length_bound n (p ∷ (s.bin o).list) (λ q. omega (arith, listed_count q, apart q))
              (λ q ge. elim (Bool-cases (free_count s' q == 0)) [
                | inl e ↦ omega (arith, listed_count q, eq_of_== (free_count s' q) 0 e)
                | inr e ↦ absurd (omega (arith, inside q (ground arith), ge))
              ])

        valid : Valid n s'
        valid =
            Valid-with_bin n s o (pushed_bin (s.bin o) p o) v
              (omega (arith, short, v.size o lt, v.small)) (u.aligned, v.aligned o lt)
              (length-set _ _ _)
              (λ lt' k.
                bit_at-toggled (s.bin o).bitmap (shr p (suc o)) k (word (u.inside p refl))
                ∙ ground (arith, v.bits o k lt'))
              apart inside

-- `ps` is the list `xs` without one entry `x`.
pub record Without (x : ℕ) (xs ps : List ℕ) : Type 0 where
  pub counts : (f : ℕ → Bool) → count_if f ps + (if f x then 1 else 0) ≡ count_if f xs
  pub shorter : length ps + 1 ≡ length xs

-- Block `x` of order `o` is taken off its free list.
pub record Taken (n : ℕ) (s : Pages) (x o : ℕ) (s' : Pages) : Type 0 where
  pub valid : Valid n s'
  pub count : (q : ℕ) → free_count s' q + covers o x q ≡ free_count s q

module _ (n : ℕ) (s : Pages) (x o : ℕ) (ps : List ℕ) (v : Valid n s) (lt : o < 11)
    (without : Without x (s.bin o).list ps) where
  free_count-dropped :
      (q : ℕ)
      → free_count (with_bin o (dropped_bin (s.bin o) (shr x (suc o)) ps) s) q + covers o x q
        ≡ free_count s q
  unfolding blocks
  free_count-dropped q =
      let c = free_count-with_bin s o (dropped_bin (s.bin o) (shr x (suc o)) ps) q lt in
      omega (arith, c, without.counts (λ y. shr y o == shr q o))

  -- An entry of a free list lies within memory.
  pub entry_inside : x < n
  unfolding blocks
  entry_inside = v.inside x (
      let ge = free_count_ge s o x lt in
      let some_ = without.counts (λ y. shr y o == shr x o) in
      let own = ==_refl (shr x o) in ground arith)

  pub Taken-dropped :
      AllAligned o ps → Taken n s x o (with_bin o (dropped_bin (s.bin o) (shr x (suc o)) ps) s)
  unfolding blocks
  Taken-dropped al = record {
    valid =
        Valid-with_bin n s o (dropped_bin (s.bin o) (shr x (suc o)) ps) v size al (length-set _ _ _)
          (λ lt' k.
            bit_at-toggled (s.bin o).bitmap (shr x (suc o)) k (v.words o x lt entry_inside)
            ∙ ground (arith, v.bits o k lt', without.counts (λ y. shr y (suc o) == k)))
          (λ q. omega (arith, free_count-dropped q, v.apart q))
          (λ q h. v.inside q (omega (arith, free_count-dropped q, h)));
    count = free_count-dropped;
  }
    where
      bounded : length (s.bin o).list < 2 ^ 64
      bounded =
          let short =
            length_bound n (s.bin o).list
              (λ q.
                omega
                  (arith, count_if_le_blocks o q (s.bin o).list, free_count_ge s o q lt, v.apart q))
              (λ q ge. elim (Bool-cases (free_count s q == 0)) [
                | inl e ↦ omega (
                  arith,
                  count_if_le_blocks o q (s.bin o).list,
                  free_count_ge s o q lt,
                  eq_of_== (free_count s q) 0 e,
                )
                | inr e ↦ absurd (omega (arith, v.inside q (ground arith), ge))
              ]) in
          omega (arith, short, v.small)

      size : ((s.bin o).size + (2 ^ 64 - 1)) % 2 ^ 64 ≡ length ps
      size = omega (arith, bounded, v.size o lt, without.shorter)
