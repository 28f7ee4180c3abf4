-- ===== src/Shell/Words.antt =====
-- The words of a line, as kshell.c counts them.
use guide_os.Prelude.{
  ℕ, zero, suc, ◌+◌, ◌-◌, ◌≤◌, ◌<◌, ◌≡◌, ◌≢◌, ◌∙◌, refl, Bool, true, false, not, ◌&&◌, List, [],
  ◌∷◌, arith, ◌==◌, ==_of_ne, if◌then◌else◌,
}
use guide_os.Strings.{Mem}

-- The positions from `i` on at which a word begins behind a space, among `left`; `after` says whether a
-- space is in front of `i`.
unfoldable pub word_starts : Mem → ℕ → ℕ → Bool → List ℕ
word_starts line zero i after = []
word_starts line (suc left) i after =
    let rest = word_starts line left (i + 1) (line i == 32) in
    if after && not (line i == 32) then i ∷ rest else rest

-- The first token begins where the line does, even if a space is there.
unfoldable pub words : Mem → ℕ → ℕ → List ℕ
words line zero i = []
words line (suc left) i = i ∷ word_starts line left (i + 1) (line i == 32)

word_starts-same :
    (left i : ℕ) (after : Bool) (line line' : Mem)
    → ((m : ℕ) → i ≤ m → line' m ≡ line m)
    → word_starts line' left i after ≡ word_starts line left i after
unfolding word_starts
word_starts-same zero i after line line' same = refl
word_starts-same (suc left) i after line line' same =
    rw
      (
        same i (omega arith),
        word_starts-same left (i + 1) (line i == 32) line line' λ m ge. same m (omega arith),
      )
      refl

pub words-same :
    (left i : ℕ) (line line' : Mem)
    → ((m : ℕ) → i ≤ m → line' m ≡ line m)
    → words line' left i ≡ words line left i
unfolding words
words-same zero i line line' same = refl
words-same (suc left) i line line' same =
    rw
      (
        same i (omega arith),
        word_starts-same left (i + 1) (line i == 32) line line' λ m ge. same m (omega arith),
      )
      refl

module _ (n : ℕ) (line : Mem) where
  -- Within a word no other begins, and within spaces none does.
  pub in_word :
      (d i : ℕ)
      → ((m : ℕ) → i ≤ m → m < i + d → line m ≢ 32)
      → i + d ≤ n
      → word_starts line (n - i) i false ≡ word_starts line (n - (i + d)) (i + d) false
  unfolding word_starts
  in_word zero i word le = let e : i + 0 ≡ i = omega arith in rw e refl
  in_word (suc d) i word le =
      let left : n - i ≡ suc (n - (i + 1)) = omega arith in
      let next : i + suc d ≡ i + 1 + d = omega arith in
      rw (left, next, ==_of_ne (line i) 32 (word i (omega arith) (omega arith)))
        (in_word d (i + 1) (λ m ge lt. word m (omega arith) (omega arith)) (omega arith))

  in_spaces :
      (d i : ℕ)
      → ((m : ℕ) → i ≤ m → m < i + d → line m ≡ 32)
      → i + d ≤ n
      → word_starts line (n - i) i true ≡ word_starts line (n - (i + d)) (i + d) true
  unfolding word_starts
  in_spaces zero i spaces le = let e : i + 0 ≡ i = omega arith in rw e refl
  in_spaces (suc d) i spaces le =
      let left : n - i ≡ suc (n - (i + 1)) = omega arith in
      let next : i + suc d ≡ i + 1 + d = omega arith in
      rw (left, next, spaces i (omega arith) (omega arith))
        (in_spaces d (i + 1) (λ m ge lt. spaces m (omega arith) (omega arith)) (omega arith))

  begins : (left k : ℕ) → line k ≢ 32 → word_starts line left k true ≡ words line left k
  unfolding word_starts words
  begins zero k ns = refl
  begins (suc left) k ns = rw (==_of_ne (line k) 32 ns) refl

  -- Behind the space at `j` the next word begins at `k`.
  pub behind_space :
      (j k : ℕ)
      → j < k
      → k ≤ n
      → ((m : ℕ) → j ≤ m → m < k → line m ≡ 32)
      → line k ≢ 32
      → word_starts line (n - (j + 1)) (j + 1) true ≡ words line (n - k) k
  behind_space j k lt le spaces stop =
      let d : j + 1 + (k - (j + 1)) ≡ k = omega arith in
      in_spaces (k - (j + 1)) (j + 1) (λ m ge lt'. spaces m (omega arith) (omega arith))
        (omega arith)
      ∙ rw d (begins (n - k) k stop)

  pub nothing_left : (i : ℕ) → n ≤ i → words line (n - i) i ≡ []
  unfolding words
  nothing_left i le = let z : n - i ≡ 0 = omega arith in rw z refl

  pub words-cons :
      (i : ℕ)
      → i < n
      → words line (n - i) i ≡ i ∷ word_starts line (n - (i + 1)) (i + 1) (line i == 32)
  unfolding words
  words-cons i lt = let s : n - i ≡ suc (n - (i + 1)) = omega arith in rw s refl
