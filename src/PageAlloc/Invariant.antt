-- ===== src/PageAlloc/Invariant.antt =====
-- What page_alloc.c keeps true of its bins.
use guide_os.Prelude.{
  ℕ, zero, suc, ◌+◌, ◌/◌, ◌%◌, ◌^◌, ◌≤◌, ◌<◌, ◌≡◌, refl, ◌≢◌, sym, ap, ◌∙◌, subst, Bool, not,
  Bool-cases, inl, inr, List, [], length, get_elem?_of_lt, get_or, set, get_or-set_self,
  get_or-set_ne, arith, ◌==◌, if◌then◌else◌, ==_of_ne, ==_refl, eq_of_==, test_bit, flip_bit,
  test_bit-flip_bit, shr, ok,
}
use guide_os.PageAlloc.{Bin, Pages, with_bin, bitmap_bit, bitmap_toggle}
use guide_os.PageAlloc.Lists.{AllAligned, blocks}

-- Bit `i` of a bitmap, and the bitmap with it toggled
unfoldable pub bit_at : List ℕ → ℕ → Bool
bit_at ws i = test_bit (get_or ws (i / 32) 0) (i % 32)

abbrev pub toggled : List ℕ → ℕ → List ℕ
toggled ws i = set ws (i / 32) (flip_bit (get_or ws (i / 32) 0) (i % 32))

pub bitmap_bit-ok :
    (ws : List ℕ) (i : ℕ) (s : Pages) → i / 32 < length ws → bitmap_bit ws i s ≡ ok (bit_at ws i) s
unfolding bitmap_bit bit_at
bitmap_bit-ok ws i s h = rw (bitmap_bit, get_elem?_of_lt ws (i / 32) 0 h) refl

pub bitmap_toggle-ok :
    (ws : List ℕ) (i : ℕ) (s : Pages)
    → i / 32 < length ws
    → bitmap_toggle ws i s ≡ ok (toggled ws i) s
unfolding bitmap_toggle
bitmap_toggle-ok ws i s h = rw (bitmap_toggle, get_elem?_of_lt ws (i / 32) 0 h) refl

pub bit_at-toggled :
    (ws : List ℕ) (i j : ℕ)
    → i / 32 < length ws
    → bit_at (toggled ws i) j ≡ (if i == j then not (bit_at ws j) else bit_at ws j)
unfolding bit_at
bit_at-toggled ws i j h = elim (Bool-cases (i / 32 == j / 32)) [
  | inl e ↦
      let e' = eq_of_== (i / 32) (j / 32) e in
      rw
        (
          sym e',
          get_or-set_self ws (i / 32) (flip_bit (get_or ws (i / 32) 0) (i % 32)) 0 h,
          test_bit-flip_bit (get_or ws (i / 32) 0) (i % 32) (j % 32),
        )
        (ground arith)
  | inr e ↦
      let ne : i / 32 ≢ j / 32 = λ q. ground arith in
      rw (get_or-set_ne ws (flip_bit (get_or ws (i / 32) 0) (i % 32)) 0 ne) (ground arith)
]

-- A sum over the orders below `n`
unfoldable pub total : (ℕ → ℕ) → ℕ → ℕ
total f zero = 0
total f (suc n) = total f n + f n

pub total_change :
    (f g : ℕ → ℕ) (o n : ℕ)
    → ((i : ℕ) → i ≢ o → g i ≡ f i)
    → (o < n → total g n + f o ≡ total f n + g o) × (n ≤ o → total g n ≡ total f n)
unfolding total
total_change f g o zero same = (λ h. absurd (omega arith), λ h. refl)
total_change f g o (suc n) same = elim (Bool-cases (n == o)) [
  | inl e ↦
      let e' = eq_of_== n o e in
      let (a, b) = total_change f g o n same in
      (λ h. omega (arith, b (omega arith), ap f e', ap g e'), λ h. absurd (omega arith))
  | inr e ↦
      let ne : n ≢ o = λ q. ground arith in
      let (a, b) = total_change f g o n same in
      (
        λ h. omega (arith, a (omega arith), same n ne),
        λ h. omega (arith, b (omega arith), same n ne),
      )
]

-- How many free blocks contain page `q`.
unfoldable pub free_count : Pages → ℕ → ℕ
free_count s q = total (λ o. blocks o (shr q o) (s.bin o).list) 11

total-zeros : (f : ℕ → ℕ) (n : ℕ) → ((i : ℕ) → i < n → f i ≡ 0) → total f n ≡ 0
unfolding total
total-zeros f zero z = refl
total-zeros f (suc n) z =
    omega (arith, total-zeros f n (λ i lt. z i (omega arith)), z n (omega arith))

-- Where all bins are empty, no page is free.
pub free_count-nil :
    (s : Pages) → ((o : ℕ) → o < 11 → (s.bin o).list ≡ []) → (q : ℕ) → free_count s q ≡ 0
unfolding free_count blocks
free_count-nil s empty q =
    total-zeros (λ o. blocks o (shr q o) (s.bin o).list) 11
      (λ o lt. ap (blocks o (shr q o)) (empty o lt))

-- `covers o p q`: 1 if the block of order `o` at `p` contains page `q`, and 0 otherwise
abbrev pub covers : ℕ → ℕ → ℕ → ℕ
covers o p q = if shr p o == shr q o then 1 else 0

-- The invariant, for a machine with `n` pages. In each bin the size is the length of the list, the
-- blocks are aligned, and bit `k` of a bitmap says whether pair `k` holds an odd number of free blocks;
-- the free blocks of all the bins do not overlap and lie below page `n`; and the bitmaps are large
-- enough for them.
pub record Valid (n : ℕ) (s : Pages) : Type 0 where
  pub small : n < 2 ^ 64
  pub size : (o : ℕ) → o < 11 → (s.bin o).size ≡ length (s.bin o).list
  pub aligned : (o : ℕ) → o < 11 → AllAligned o (s.bin o).list
  pub words : (o q : ℕ) → o < 11 → q < n → shr q (suc o) / 32 < length (s.bin o).bitmap
  pub bits :
      (o k : ℕ) → o < 10 → bit_at (s.bin o).bitmap k ≡ (blocks (suc o) k (s.bin o).list % 2 == 1)
  pub apart : (q : ℕ) → free_count s q ≤ 1
  pub inside : (q : ℕ) → 0 < free_count s q → q < n

-- A change of one bin changes the count by what that bin holds.
pub free_count-with_bin :
    (s : Pages) (o : ℕ) (b : Bin) (q : ℕ)
    → o < 11
    → free_count (with_bin o b s) q + blocks o (shr q o) (s.bin o).list
      ≡ free_count s q + blocks o (shr q o) b.list
unfolding free_count
free_count-with_bin s o b q lt =
    let other : (i : ℕ) → i ≢ o → (with_bin o b s).bin i ≡ s.bin i =
      λ i ne. rw (==_of_ne i o ne) refl in
    let here : (with_bin o b s).bin o ≡ b = rw (==_refl o) refl in
    (total_change (λ i. blocks i (shr q i) (s.bin i).list)
        (λ i. blocks i (shr q i) ((with_bin o b s).bin i).list) o 11
        (λ i ne. ap (λ (x : Bin). blocks i (shr q i) x.list) (other i ne))).0
      lt
    ∙ ap
        (λ (x : Bin). total (λ i. blocks i (shr q i) (s.bin i).list) 11 + blocks o (shr q o) x.list)
        here

-- What a new bin has to satisfy, for the invariant to survive it.
pub Valid-with_bin :
    (n : ℕ) (s : Pages) (o : ℕ) (b : Bin)
    → Valid n s
    → b.size ≡ length b.list
    → AllAligned o b.list
    → length b.bitmap ≡ length (s.bin o).bitmap
    → (o < 10 → (k : ℕ) → bit_at b.bitmap k ≡ (blocks (suc o) k b.list % 2 == 1))
    → ((q : ℕ) → free_count (with_bin o b s) q ≤ 1)
    → ((q : ℕ) → 0 < free_count (with_bin o b s) q → q < n)
    → Valid n (with_bin o b s)
Valid-with_bin n s o b v size aligned words bits apart inside = record {
  small = v.small;
  size = λ i lt. by_bin i (λ i (c : Bin). c.size ≡ length c.list) (λ e. size) (v.size i lt);
  aligned = λ i lt. by_bin i (λ i (c : Bin). AllAligned i c.list) (λ e. aligned) (v.aligned i lt);
  words = λ i q lt in_.
      by_bin i (λ i (c : Bin). shr q (suc i) / 32 < length c.bitmap)
        (λ e.
          rw words
            (subst (λ j. shr q (suc j) / 32 < length (s.bin j).bitmap) e (v.words i q lt in_)))
        (v.words i q lt in_);
  bits = λ i k lt.
      by_bin i (λ i (c : Bin). bit_at c.bitmap k ≡ (blocks (suc i) k c.list % 2 == 1))
        (λ e. bits (omega (arith, e, lt)) k) (v.bits i k lt);
  apart = apart;
  inside = inside;
}
  where
    by_bin :
        (i : ℕ) (P : ℕ → Bin → Type 0)
        → (i ≡ o → P o b)
        → P i (s.bin i)
        → P i ((with_bin o b s).bin i)
    by_bin i P new old = elim (Bool-cases (i == o)) [
      | inl e ↦ let e' = eq_of_== i o e in rw (e', ==_refl o) (new e')
      | inr e ↦ rw e old
    ]

total_ge : (f : ℕ → ℕ) (o n : ℕ) → o < n → f o ≤ total f n
unfolding total
total_ge f o zero h = absurd (omega arith)
total_ge f o (suc n) h = elim (Bool-cases (n == o)) [
  | inl e ↦ omega (arith, ap f (eq_of_== n o e))
  | inr e ↦ omega (arith, total_ge f o n (ground arith))
]

-- The blocks of one bin that contain page `q` are among them.
pub free_count_ge :
    (s : Pages) (o q : ℕ) → o < 11 → blocks o (shr q o) (s.bin o).list ≤ free_count s q
unfolding free_count
free_count_ge s o q h = total_ge (λ i. blocks i (shr q i) (s.bin i).list) o 11 h
