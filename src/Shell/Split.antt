-- ===== src/Shell/Split.antt =====
-- `ksh_split_line` of kshell.c against the words of the line.
use guide_os.Prelude.{
  ℕ, zero, suc, ◌+◌, ◌-◌, ◌≤◌, ◌<◌, ◌≡◌, ◌≢◌, ◌∙◌, refl, sym, ap, inl, inr, true, false, ◌&&◌,
  Bool-cases, some, List, [], ◌∷◌, ◌++◌, length, append_assoc, append-nil, arith, ◌==◌, ==_of_ne,
  eq_of_==, ne_of_==, if◌then◌else◌, leb, ltb,
}
use guide_os.Strings.{Mem}
use guide_os.Shell.{terminated, split_loop, ksh_split_line}
use guide_os.Shell.Scan.{WordEnd, SpacesEnd, skip_word-WordEnd, clear_spaces-SpacesEnd}
use guide_os.Shell.Words.{
  word_starts, words, words-same, in_word, behind_space, nothing_left, words-cons,
}

-- A line of `n` bytes in front of its NUL
pub record IsLine (n : ℕ) (line : Mem) : Type 0 where
  pub no_nul : (i : ℕ) → i < n → line i ≢ 0
  pub nul : line n ≡ 0

module _ (n : ℕ) (line : Mem) where
  -- The next token is further on.
  past_token :
      (i j k : ℕ) (line' : Mem)
      → i < n
      → line n ≡ 0
      → WordEnd n line i j
      → SpacesEnd n line j k line'
      → i < k
  past_token i j k line' lt end w e = elim (Bool-cases (i == k)) [
    | inr q ↦ let f = w.from in let g = e.from in ground arith
    | inl q ↦
        let at : i ≡ k = eq_of_== i k q in
        let here : i ≡ j = omega (arith, w.from, e.from) in
        elim w.stop [
          | inl sp ↦ absurd (e.stop (ap line (sym at ∙ here) ∙ sp))
          | inr last ↦ absurd (omega arith)
        ]
  ]

  next_words :
      (i j k : ℕ) (line' : Mem)
      → i < n
      → line n ≡ 0
      → WordEnd n line i j
      → SpacesEnd n line j k line'
      → word_starts line (n - (i + 1)) (i + 1) (line i == 32) ≡ words line (n - k) k
  unfolding word_starts words
  next_words i j k line' lt end w e = elim (Bool-cases (line i == 32)) [
    | inl sp ↦
        let is : line i ≡ 32 = eq_of_== (line i) 32 sp in
        let here : j ≡ i = elim (Bool-cases (ltb i j)) [
          | inl less ↦ absurd (w.word i (omega arith) (ground arith) is)
          | inr more ↦ let f = w.from in ground arith
        ] in
        let past : i < k = elim (Bool-cases (i == k)) [
          | inl q ↦ absurd (e.stop (ap line (sym (eq_of_== i k q)) ∙ is))
          | inr q ↦ let f = e.from in ground arith
        ] in
        rw sp (behind_space n line i k past e.to (λ m ge lt'. e.spaces m (omega arith) lt') e.stop)
    | inr ns ↦
        let ne : line i ≢ 32 = ne_of_== (line i) 32 ns in
        let past : i < j = elim w.stop [
          | inl q ↦ elim (Bool-cases (i == j)) [
            | inl s ↦ absurd (ne (ap line (eq_of_== i j s) ∙ q))
            | inr s ↦ let f = w.from in ground arith
          ]
          | inr q ↦ omega arith
        ] in
        let d : i + 1 + (j - (i + 1)) ≡ j = omega arith in
        let to_end : word_starts line (n - (i + 1)) (i + 1) false
            ≡ word_starts line (n - j) j false =
          in_word n line (j - (i + 1)) (i + 1) (λ m ge lt'. w.word m (omega arith) (omega arith))
            (omega (arith, w.to))
          ∙ rw d refl in
        rw ns (
          to_end ∙ elim w.stop [
            | inr q ↦
                let none_left : n - j ≡ 0 = omega arith in
                let none_k : n - k ≡ 0 = omega (arith, e.from, e.to) in rw (none_left, none_k) refl
            | inl q ↦
                let past_j : j < k = elim (Bool-cases (j == k)) [
                  | inl s ↦ absurd (e.stop (ap line (sym (eq_of_== j k s)) ∙ q))
                  | inr s ↦ let f = e.from in ground arith
                ] in
                let left : n - j ≡ suc (n - (j + 1)) = omega (arith, e.to) in
                rw (left, q) (behind_space n line j k past_j e.to e.spaces e.stop)
          ])
  ]

-- What `ksh_split_line` does from position `i` on: the words from there join the tokens, and the spaces
-- become NULs.
record Rest (n i : ℕ) (line : Mem) (tokens : List ℕ) (r : List ℕ × Mem) : Type 0 where
  found : r.0 ≡ tokens ++ words line (n - i) i
  line_is : (a : ℕ) → r.1 a ≡ (if leb i a && ltb a n && (line a == 32) then 0 else line a)

length-snoc : (xs : List ℕ) (x : ℕ) → length (xs ++ (x ∷ [])) ≡ length xs + 1
length-snoc [] x = refl
length-snoc (y ∷ xs) x = omega (arith, length-snoc xs x)

-- One round of the loop
Rest-step :
    (n i j k : ℕ) (line line' : Mem) (tokens : List ℕ) (r : List ℕ × Mem)
    → i < n
    → line n ≡ 0
    → WordEnd n line i j
    → SpacesEnd n line j k line'
    → Rest n k line' (tokens ++ (i ∷ [])) r
    → Rest n i line tokens r
Rest-step n i j k line line' tokens r lt end w e rest = record {
  found =
      rest.found
      ∙ ap (λ w. (tokens ++ (i ∷ [])) ++ w) (words-same (n - k) k line line' same)
      ∙ append_assoc tokens (i ∷ []) (words line (n - k) k)
      ∙ ap (λ w. tokens ++ (i ∷ w)) (sym (next_words n line i j k line' lt end w e))
      ∙ ap (λ w. tokens ++ w) (sym (words-cons n line i lt));
  line_is = λ a.
      let c = e.cleared a in
      let b = rest.line_is a in
      let f = w.from in
      let g = e.from in
      let h = e.to in
      let no_space : i ≤ a → a < j → (line a == 32) ≡ false =
        λ ge below. ==_of_ne (line a) 32 (w.word a ge below) in
      let space : j ≤ a → a < k → line a ≡ 32 = e.spaces a in ground arith;
}
  where
    same : (m : ℕ) → k ≤ m → line' m ≡ line m
    same m ge = let c = e.cleared m in ground arith

split_loop-Rest :
    (fuel n i : ℕ) (line : Mem) (tokens : List ℕ)
    → ((m : ℕ) → i ≤ m → m < n → line m ≢ 0)
    → line n ≡ 0
    → i ≤ n
    → n ≤ 1024
    → length tokens ≤ i
    → n < fuel + i
    → (r : List ℕ × Mem) × (split_loop fuel line i tokens ≡ some r) × Rest n i line tokens r
unfolding split_loop
split_loop-Rest zero n i line tokens chars end le small few enough = absurd (omega arith)
split_loop-Rest (suc fuel) n i line tokens chars end le small few enough =
    elim (Bool-cases (ltb i n)) [
      | inr ge ↦
          let at : i ≡ n = ground arith in
          let z : line i ≡ 0 = ap line at ∙ end in
          (
            (tokens, line),
            rw z refl,
            record {
              found =
                  sym (append-nil tokens)
                  ∙ ap (λ w. tokens ++ w) (sym (nothing_left n line i (omega arith)));
              line_is = λ a. ground arith;
            },
          )
      | inl less ↦
          let lt : i < n = ground arith in
          let nz : (line i == 0) ≡ false = ==_of_ne (line i) 0 (chars i (omega arith) lt) in
          let in_line : ltb i 1024 ≡ true = ground arith in
          let in_tokens : ltb (length tokens) 1024 ≡ true = ground arith in
          let (j, word, w) = skip_word-WordEnd (suc fuel) n i line chars end le (omega arith) in
          let (k, line', spaces, e) =
            clear_spaces-SpacesEnd (suc fuel) n j line end w.to (omega (arith, w.from)) in
          let past : i < k = past_token n line i j k line' lt end w e in
          let same : (m : ℕ) → k ≤ m → line' m ≡ line m =
            λ m ge. let c = e.cleared m in ground arith in
          let (r, run, rest) =
            split_loop-Rest fuel n k line' (tokens ++ (i ∷ []))
              (λ m ge lt' q. chars m (omega arith) lt' (sym (same m ge) ∙ q)) (same n e.to ∙ end)
              e.to small (omega (arith, length-snoc tokens i)) (omega arith) in
          (
            r,
            rw (nz, in_line, in_tokens, word, spaces) run,
            Rest-step n i j k line line' tokens r lt end w e rest,
          )
    ]

-- `ksh_split_line` of a line of at most 1024 bytes stores a token for the beginning of the line and one for
-- each word behind a space, in order, and then NULL; in the line, every space has become a NUL.
pub ksh_split_line_lem :
    (fuel n : ℕ) (line : Mem)
    → IsLine n line
    → n ≤ 1024
    → n < fuel
    → (line' : Mem) × (ksh_split_line fuel line ≡ some (terminated (words line n 0), line'))
      × ((a : ℕ) → line' a ≡ (if ltb a n && (line a == 32) then 0 else line a))
unfolding ksh_split_line
ksh_split_line_lem fuel n line is small enough =
    let (r, run, rest) =
      split_loop-Rest fuel n 0 line [] (λ m ge. is.no_nul m) is.nul (omega arith) small
        (omega arith) (omega arith) in
    let whole : n - 0 ≡ n = omega arith in
    let found : r.0 ≡ words line n 0 = rest.found ∙ ap (λ left. words line left 0) whole in
    (r.1, rw (ksh_split_line, run, found) refl, λ a. let b = rest.line_is a in ground arith)
