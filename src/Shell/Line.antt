-- ===== src/Shell/Line.antt =====
-- `ksh_read_line` against an editor on lists.
use guide_os.Prelude.{
  ℕ, ◌+◌, ◌-◌, ◌%◌, ◌≤◌, ◌<◌, ◌≡◌, refl, inl, inr, Bool, false, ◌&&◌, ◌||◌, Bool-cases, Option,
  none, some, List, count_if, [], ◌∷◌, ◌++◌, arith, ◌==◌, ==_of_ne, ==_refl, ltb,
}
use guide_os.Strings.{Mem, poke}
use guide_os.Console.{backspace, newline}
use guide_os.Shell.{ReadLine, read_line_loop, ksh_read_line, cmd_max_len, carriage_return}

abbrev pub ends_line : ℕ → Bool
ends_line c = (c == carriage_return) || (c == newline)

-- What a line that was read satisfies
pub record Line (buf : Mem) (r : ReadLine) : Type 0 where
  pub short : r.input_len ≤ 1024
  pub nul : r.buf r.input_len ≡ 0
  pub text :
      (i : ℕ) → i < r.input_len → (0 < r.buf i) × (r.buf i < 255) × (ends_line (r.buf i) ≡ false)
  pub outside : (i : ℕ) → 1024 < i → r.buf i ≡ buf i
  pub bytes : ((i : ℕ) → buf i < 256) → (i : ℕ) → r.buf i < 256

abbrev Good : ℕ → Type 0
Good c = (0 < c) × (c < 255) × (ends_line c ≡ false)

-- Without a result the input has no end of line.
unfoldable IsLine : List ℕ → Mem → Option ReadLine → Type 0
IsLine input buf none = count_if ends_line input ≡ 0
IsLine input buf (some r) = Line buf r

-- What holds of the line while it is read
record Editing (buf : Mem) (s : ReadLine) : Type 0 where
  short : s.input_len ≤ 1024
  text : (i : ℕ) → i < s.input_len → Good (s.buf i)
  outside : (i : ℕ) → 1024 < i → s.buf i ≡ buf i
  bytes : ((i : ℕ) → buf i < 256) → (i : ℕ) → s.buf i < 256

skip-IsLine :
    (c : ℕ) (cs : List ℕ) (buf : Mem) (r : Option ReadLine)
    → ends_line c ≡ false
    → IsLine cs buf r
    → IsLine (c ∷ cs) buf r
unfolding IsLine
skip-IsLine c cs buf none e h = rw e h
skip-IsLine c cs buf (some r) e h = h

Line-end :
    (buf : Mem) (s : ReadLine)
    → Editing buf s
    → Line buf (record s { buf = poke s.buf s.input_len 0; echoed = s.echoed ++ (newline ∷ []) })
unfolding poke
Line-end buf s ed = record {
  short = ed.short;
  nul = rw (==_refl s.input_len) refl;
  text = λ i lt. rw (==_of_ne i s.input_len (omega arith)) (ed.text i lt);
  outside = λ i lt. rw (==_of_ne i s.input_len (omega (arith, ed.short))) (ed.outside i lt);
  bytes = λ ok i. let b = ed.bytes ok i in ground arith;
}

Editing-add :
    (buf : Mem) (s : ReadLine) (c : ℕ)
    → Editing buf s
    → Good c
    → s.input_len < 1024
    → Editing buf (record s {
      buf = poke s.buf s.input_len (c % 256);
      input_len = s.input_len + 1;
      echoed = s.echoed ++ (c ∷ []);
    })
unfolding poke
Editing-add buf s c ed (pos, small, no_end) lt = record {
  short = omega arith;
  text = λ i i_lt. elim (Bool-cases (i == s.input_len)) [
    | inl e ↦ let byte : c % 256 ≡ c = omega arith in rw (e, byte) (pos, small, no_end)
    | inr e ↦ rw e (ed.text i (ground arith))
  ];
  outside = λ i gt. rw (==_of_ne i s.input_len (omega arith)) (ed.outside i gt);
  bytes = λ ok i. let b = ed.bytes ok i in ground arith;
}

read_line_loop-IsLine :
    (input : List ℕ) (buf : Mem) (s : ReadLine)
    → Editing buf s
    → IsLine input buf (read_line_loop input s)
unfolding IsLine read_line_loop
read_line_loop-IsLine [] buf s ed = refl
read_line_loop-IsLine (c ∷ cs) buf s ed =
    elim (Bool-cases ((c == backspace) && ltb 0 s.input_len)) [
      | inl e ↦
          let erased : ReadLine = record s {
            input_len = s.input_len - 1;
            echoed = s.echoed ++ (backspace ∷ []);
          } in
          let inner = read_line_loop-IsLine cs buf erased (record {
            short = omega (arith, ed.short);
            text = λ i lt. ed.text i (omega arith);
            outside = ed.outside;
            bytes = ed.bytes;
          }) in
          rw e (skip-IsLine c cs buf (read_line_loop cs erased) (ground arith) inner)
      | inr e ↦ elim (Bool-cases (ends_line c)) [
        | inl f ↦ rw (e, f) (Line-end buf s ed)
        | inr f ↦ elim (Bool-cases (ltb s.input_len cmd_max_len && ltb 0 c && ltb c 0xff)) [
          | inl g ↦
              let added : ReadLine = record s {
                buf = poke s.buf s.input_len (c % 256);
                input_len = s.input_len + 1;
                echoed = s.echoed ++ (c ∷ []);
              } in
              let inner =
                read_line_loop-IsLine cs buf added
                  (Editing-add buf s c ed (ground arith, ground arith, f) (ground arith)) in
              rw (e, f, g) (skip-IsLine c cs buf (read_line_loop cs added) f inner)
          | inr g ↦
              rw (e, f, g)
                (skip-IsLine c cs buf (read_line_loop cs s) f (read_line_loop-IsLine cs buf s ed))
        ]
      ]
    ]

-- Once the input has an end of line, `ksh_read_line` returns a line of at most 1024 characters with a
-- NUL behind them, none of which is NUL, 0xff or an end of line; it writes no byte past index 1024,
-- and a memory of bytes stays one.
pub ksh_read_line_lem :
    (input : List ℕ) (buf : Mem)
    → 0 < count_if ends_line input
    → (r : ReadLine) × (ksh_read_line input buf ≡ some r) × Line buf r
unfolding ksh_read_line IsLine
ksh_read_line_lem input buf has_end = by_result (ksh_read_line input buf) refl (
    read_line_loop-IsLine input buf (record { buf = buf; input_len = 0; echoed = [] })
      (record {
        short = omega arith;
        text = λ i lt. absurd (omega arith);
        outside = λ i gt. refl;
        bytes = λ ok. ok;
      }))
  where
    by_result :
        (o : Option ReadLine)
        → ksh_read_line input buf ≡ o
        → IsLine input buf o
        → (r : ReadLine) × (ksh_read_line input buf ≡ some r) × Line buf r
    by_result none e h = absurd (omega arith)
    by_result (some r) e h = (r, e, h)
