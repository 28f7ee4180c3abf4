-- ===== src/PageAlloc/Lists.antt =====
-- The free lists of page_alloc.c: counts of the blocks that a list holds.
use guide_os.Prelude.{
  ℕ, zero, suc, ◌+◌, ◌≤◌, ◌<◌, ◌≡◌, refl, ◌≢◌, Bool, true, false, not, Bool-cases, inl, inr, List,
  [], ◌∷◌, length, filter, count_if, arith, ◌==◌, if◌then◌else◌, ==_refl, eq_of_==, flip_bit, shr,
  shr-suc, shr-flip_bit, low_bits, low_bits-flip_bit, eq_of_shr,
}
use guide_os.PageAlloc.{listed, unlisted}

unfoldable pub AllAligned : ℕ → List ℕ → Type 0
AllAligned o [] = Unit
AllAligned o (x ∷ xs) = (low_bits x o ≡ 0) × AllAligned o xs

-- The blocks of a list that are block `k` of their order, and that lie in pair `k`.
unfoldable pub blocks : ℕ → ℕ → List ℕ → ℕ
blocks o k = count_if λ x. shr x o == k

pub count_if-unlisted :
    (f : ℕ → Bool) (p : ℕ) (xs : List ℕ)
    → listed p xs ≡ true
    → count_if f (unlisted p xs) + (if f p then 1 else 0) ≡ count_if f xs
count_if-unlisted f p [] h = ground arith
count_if-unlisted f p (x ∷ xs) h = elim (Bool-cases (x == p)) [
  | inl e ↦ let e' = eq_of_== x p e in rw (e', ==_refl p) (ground arith)
  | inr e ↦
      let h' : listed p xs ≡ true = subst' h e in
      let rest = count_if-unlisted f p xs h' in rw e (ground arith)
]
  where
    subst' : (if x == p then true else listed p xs) ≡ true → (x == p) ≡ false → listed p xs ≡ true
    subst' h e = ground arith

pub length-unlisted :
    (p : ℕ) (xs : List ℕ) → listed p xs ≡ true → length (unlisted p xs) + 1 ≡ length xs
length-unlisted p [] h = ground arith
length-unlisted p (x ∷ xs) h = ground (arith, length-unlisted p xs)

pub unlisted-AllAligned : (o p : ℕ) (xs : List ℕ) → AllAligned o xs → AllAligned o (unlisted p xs)
unfolding AllAligned
unlisted-AllAligned o p [] h = tt
unlisted-AllAligned o p (x ∷ xs) h = elim (Bool-cases (x == p)) [
  | inl e ↦ rw e h.1
  | inr e ↦ rw e (h.0, unlisted-AllAligned o p xs h.1)
]

-- Of two blocks in one pair, one is the other or its buddy.
pub shr_pair :
    (o p x : ℕ) → shr x (suc o) ≡ shr p (suc o) → shr x o ≢ shr p o → shr x o ≡ shr (flip_bit p o) o
shr_pair o p x same other =
    rw (shr-flip_bit p o) (ground (arith, same, other, shr-suc x o, shr-suc p o))

-- A list that has a block of the pair of `p`, but not `p`, has the buddy of `p`.
pub listed_buddy :
    (o p : ℕ) (xs : List ℕ)
    → low_bits p o ≡ 0
    → AllAligned o xs
    → blocks o (shr p o) xs ≡ 0
    → 0 < blocks (suc o) (shr p (suc o)) xs
    → listed (flip_bit p o) xs ≡ true
unfolding AllAligned blocks
listed_buddy o p [] lp al none_ some_ = absurd (omega arith)
listed_buddy o p (x ∷ xs) lp al none_ some_ = elim (Bool-cases (shr x o == shr p o)) [
  | inl e ↦ absurd (ground arith)
  | inr e ↦ elim (Bool-cases (shr x (suc o) == shr p (suc o))) [
    | inl e' ↦
        let other : shr x o ≢ shr p o = λ q. ground arith in
        let same : x ≡ flip_bit p o =
          eq_of_shr x (flip_bit p o) o al.0 (omega (arith, low_bits-flip_bit p o, lp))
            (shr_pair o p x (eq_of_== (shr x (suc o)) (shr p (suc o)) e') other) in
        rw (same, ==_refl (flip_bit p o)) refl
    | inr e' ↦
        let rest : listed (flip_bit p o) xs ≡ true =
          listed_buddy o p xs lp al.1 (ground arith) (ground arith) in
        ground arith
  ]
]

length-filter_add :
    (n : ℕ) (xs : List ℕ)
    → length (filter (λ x. not (x == n)) xs) + count_if (λ x. x == n) xs ≡ length xs
length-filter_add n [] = refl
length-filter_add n (x ∷ xs) = ground (arith, length-filter_add n xs)

count_if-filter :
    (n q : ℕ) (xs : List ℕ)
    → (count_if (λ x. x == q) (filter (λ x. not (x == n)) xs) ≤ count_if (λ x. x == q) xs)
      × (q ≡ n → count_if (λ x. x == q) (filter (λ x. not (x == n)) xs) ≡ 0)
count_if-filter n q [] = (omega arith, λ e. refl)
count_if-filter n q (x ∷ xs) =
    let rest = count_if-filter n q xs in (ground (arith, rest.0), λ e. ground (arith, rest.1 e))

-- A list without repetitions of numbers below `n` has at most `n` of them.
pub length_bound :
    (n : ℕ) (xs : List ℕ)
    → ((q : ℕ) → count_if (λ x. x == q) xs ≤ 1)
    → ((q : ℕ) → n ≤ q → count_if (λ x. x == q) xs ≡ 0)
    → length xs ≤ n
length_bound zero [] once below = omega arith
length_bound zero (x ∷ xs) once below = absurd (ground (arith, below x))
length_bound (suc n) xs once below =
    let shorter =
      length_bound n (filter (λ x. not (x == n)) xs)
        (λ q. omega (arith, (count_if-filter n q xs).0, once q))
        (λ q h. elim (Bool-cases (q == n)) [
          | inl e ↦ (count_if-filter n q xs).1 (eq_of_== q n e)
          | inr e ↦ omega (arith, (count_if-filter n q xs).0, below q (ground arith))
        ]) in
    omega (arith, shorter, length-filter_add n xs, once n)

pub count_if_le_blocks : (o q : ℕ) (xs : List ℕ) → count_if (λ x. x == q) xs ≤ blocks o (shr q o) xs
unfolding blocks
count_if_le_blocks o q [] = omega arith
count_if_le_blocks o q (x ∷ xs) = elim (Bool-cases (x == q)) [
  | inl e ↦
      let e' = eq_of_== x q e in
      rw (e', ==_refl q, ==_refl (shr q o)) (omega (arith, count_if_le_blocks o q xs))
  | inr e ↦ rw e (ground (arith, count_if_le_blocks o q xs))
]
