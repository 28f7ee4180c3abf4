-- ===== src/Shell/Scan.antt =====
-- The inner loops of `ksh_split_line` of kshell.c: over a word, and over the spaces behind it.
use guide_os.Prelude.{
  ℕ, zero, suc, ◌+◌, ◌≤◌, ◌<◌, ◌≡◌, ◌≢◌, ◌∙◌, refl, sym, ap, ◌⊎◌, inl, inr, false, ◌&&◌, Bool-cases,
  some, arith, ◌==◌, ==_of_ne, eq_of_==, ne_of_==, if◌then◌else◌, leb, ltb,
}
use guide_os.Strings.{Mem, poke}
use guide_os.Shell.{skip_word, clear_spaces}

-- Where the word at `i` ends
pub record WordEnd (n : ℕ) (line : Mem) (i j : ℕ) : Type 0 where
  pub from : i ≤ j
  pub to : j ≤ n
  pub word : (m : ℕ) → i ≤ m → m < j → line m ≢ 32
  pub stop : (line j ≡ 32) ⊎ (j ≡ n)

pub skip_word-WordEnd :
    (fuel n i : ℕ) (line : Mem)
    → ((m : ℕ) → i ≤ m → m < n → line m ≢ 0)
    → line n ≡ 0
    → i ≤ n
    → n < fuel + i
    → (j : ℕ) × (skip_word fuel line i ≡ some j) × WordEnd n line i j
unfolding skip_word
skip_word-WordEnd zero n i line chars end le enough = absurd (omega arith)
skip_word-WordEnd (suc fuel) n i line chars end le enough = elim (Bool-cases (line i == 32)) [
  | inl sp ↦ (
    i,
    rw sp refl,
    record {
      from = omega arith;
      to = le;
      word = λ m ge lt. absurd (omega arith);
      stop = inl (eq_of_== (line i) 32 sp);
    },
  )
  | inr ns ↦ elim (Bool-cases (line i == 0)) [
    | inl z ↦
        let at : i ≡ n = elim (Bool-cases (ltb i n)) [
          | inl lt ↦ absurd (chars i (omega arith) (ground arith) (eq_of_== (line i) 0 z))
          | inr ge ↦ ground arith
        ] in
        (
          i,
          rw (ns, z) refl,
          record {
            from = omega arith;
            to = le;
            word = λ m ge lt. absurd (omega arith);
            stop = inr at;
          },
        )
    | inr nz ↦
        let lt : i < n = elim (Bool-cases (ltb i n)) [
          | inl lt ↦ ground arith
          | inr ge ↦
              let same : i ≡ n = ground arith in
              absurd (ne_of_== (line i) 0 nz (ap line same ∙ end))
        ] in
        let (j, run, w) =
          skip_word-WordEnd fuel n (i + 1) line (λ m ge. chars m (omega arith)) end (omega arith)
            (omega arith) in
        (
          j,
          rw (ns, nz) run,
          record {
            from = omega (arith, w.from);
            to = w.to;
            word = λ m ge lt'. elim (Bool-cases (m == i)) [
              | inl e ↦
                  let same = eq_of_== m i e in λ q. ne_of_== (line i) 32 ns (ap line (sym same) ∙ q)
              | inr e ↦ w.word m (ground arith) lt'
            ];
            stop = w.stop;
          },
        )
  ]
]

-- Where the spaces at `j` end, and the line with NULs for them
pub record SpacesEnd (n : ℕ) (line : Mem) (j k : ℕ) (line' : Mem) : Type 0 where
  pub from : j ≤ k
  pub to : k ≤ n
  pub spaces : (m : ℕ) → j ≤ m → m < k → line m ≡ 32
  pub stop : line k ≢ 32
  pub cleared : (a : ℕ) → line' a ≡ (if leb j a && ltb a k then 0 else line a)

pub clear_spaces-SpacesEnd :
    (fuel n j : ℕ) (line : Mem)
    → line n ≡ 0
    → j ≤ n
    → n < fuel + j
    → (k : ℕ) × (line' : Mem) × (clear_spaces fuel line j ≡ some (line', k))
      × SpacesEnd n line j k line'
unfolding clear_spaces poke
clear_spaces-SpacesEnd zero n j line end le enough = absurd (omega arith)
clear_spaces-SpacesEnd (suc fuel) n j line end le enough = elim (Bool-cases (line j == 32)) [
  | inr ns ↦ (
    j,
    line,
    rw ns refl,
    record {
      from = omega arith;
      to = le;
      spaces = λ m ge lt. absurd (omega arith);
      stop = ne_of_== (line j) 32 ns;
      cleared = λ a. ground arith;
    },
  )
  | inl sp ↦
      let is : line j ≡ 32 = eq_of_== (line j) 32 sp in
      let nz : (line j == 0) ≡ false = ==_of_ne (line j) 0 (omega (arith, is)) in
      let lt : j < n = elim (Bool-cases (ltb j n)) [
        | inl lt ↦ ground arith
        | inr ge ↦
            let same : j ≡ n = ground arith in
            let q = ap line same in absurd (omega (arith, q, is, end))
      ] in
      let other : (a : ℕ) → a ≢ j → poke line j 0 a ≡ line a = λ a ne. rw (==_of_ne a j ne) refl in
      let (k, line', run, e) =
        clear_spaces-SpacesEnd fuel n (j + 1) (poke line j 0) (other n (omega arith) ∙ end)
          (omega arith) (omega arith) in
      (
        k,
        line',
        rw (sp, nz) run,
        record {
          from = omega (arith, e.from);
          to = e.to;
          spaces = λ m ge lt'. elim (Bool-cases (m == j)) [
            | inl q ↦ ap line (eq_of_== m j q) ∙ is
            | inr q ↦ sym (other m (ne_of_== m j q)) ∙ e.spaces m (ground arith) lt'
          ];
          stop = λ q. e.stop (other k (omega (arith, e.from)) ∙ q);
          cleared = λ a. let c = e.cleared a in let f = e.from in ground arith;
        },
      )
]
