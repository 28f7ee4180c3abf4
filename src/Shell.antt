-- ===== src/Shell.antt =====
-- kernel/src/kshell.c: the line editor of the kernel shell, the splitting of a line, and the commands. What
-- `console_getc` returns is a list of characters, which are not negative.
pub mod Line
pub mod Words
pub mod Scan
pub mod Split
pub mod Round
mod Tests
use guide_os.Prelude.{
  ℕ, zero, suc, ◌+◌, ◌-◌, ◌%◌, Bool, true, false, not, ◌&&◌, ◌||◌, Option, none, some, List, [],
  ◌∷◌, ◌++◌, length, ◌==◌, if◌then◌else◌, ltb, Ptr,
}
use guide_os.Strings.{Mem, poke, strcmp}
use guide_os.Console.{backspace, newline}

abbrev pub cmd_max_len : ℕ
cmd_max_len = 1024

abbrev pub cmd_max_parts : ℕ
cmd_max_parts = 32

abbrev pub carriage_return : ℕ
carriage_return = 13

-- The line, its length, and the characters that were echoed; `none` when the input ends before the
-- line does.
pub record ReadLine : Type 0 where
  pub buf : Mem
  pub input_len : ℕ
  pub echoed : List ℕ

unfoldable pub read_line_loop : List ℕ → ReadLine → Option ReadLine
read_line_loop [] s = none
read_line_loop (c ∷ cs) s =
    let erased =
      read_line_loop cs
        (record s { input_len = s.input_len - 1; echoed = s.echoed ++ (backspace ∷ []) }) in
    let added = read_line_loop cs (record s {
      buf = poke s.buf s.input_len (c % 256);
      input_len = s.input_len + 1;
      echoed = s.echoed ++ (c ∷ []);
    }) in
    let ignored = read_line_loop cs s in
    if (c == backspace) && ltb 0 s.input_len
    then erased
    else if (c == carriage_return) || (c == newline)
    then some (record s { buf = poke s.buf s.input_len 0; echoed = s.echoed ++ (newline ∷ []) })
    else if ltb s.input_len cmd_max_len && ltb 0 c && ltb c 0xff
    then added
    else ignored

-- `ksh_read_line`, with `buf` at the addresses from 0 on
unfoldable pub ksh_read_line : List ℕ → Mem → Option ReadLine
ksh_read_line input buf = read_line_loop input (record { buf = buf; input_len = 0; echoed = [] })

abbrev pub space : ℕ
space = 32

-- The two inner loops of `ksh_split_line`, on fuel: over a word, and over the spaces behind it, which
-- become NULs
unfoldable pub skip_word : ℕ → Mem → ℕ → Option ℕ
skip_word zero line i = none
skip_word (suc fuel) line i =
    if not (line i == space) && not (line i == 0) then skip_word fuel line (i + 1) else some i

unfoldable pub clear_spaces : ℕ → Mem → ℕ → Option (Mem × ℕ)
clear_spaces zero line i = none
clear_spaces (suc fuel) line i =
    if (line i == space) && not (line i == 0)
    then clear_spaces fuel (poke line i 0) (i + 1)
    else some (line, i)

-- The outer loop of `ksh_split_line` from `line_position` on, on fuel: the positions in `tokens`, and
-- the line
unfoldable pub split_loop : ℕ → Mem → ℕ → List ℕ → Option (List ℕ × Mem)
split_loop zero line i tokens = none
split_loop (suc fuel) line i tokens =
    if not (line i == 0) && ltb i cmd_max_len && ltb (length tokens) cmd_max_len
    then elim (skip_word (suc fuel) line i) [
      | none ↦ none
      | some j ↦ elim (clear_spaces (suc fuel) line j) [
        | none ↦ none
        | some (line', k) ↦ split_loop fuel line' k (tokens ++ (i ∷ []))
      ]
    ]
    else some (tokens, line)

-- The entries of the array once `tokens[token_position] = NULL` is stored, where `none` is NULL
unfoldable pub terminated : List ℕ → List (Option ℕ)
terminated [] = none ∷ []
terminated (t ∷ ts) = some t ∷ terminated ts

-- `ksh_split_line` of a line and an array that are not NULL and do not overlap: what it stores in the
-- array, and the line. The bound of the array is the caller's.
unfoldable pub ksh_split_line : ℕ → Mem → Option (List (Option ℕ) × Mem)
ksh_split_line fuel line = elim (split_loop fuel line 0 []) [
  | none ↦ none
  | some (tokens, line') ↦ some (terminated tokens, line')
]

-- The entries in front of the NULL
unfoldable pub until_null : List (Option ℕ) → List ℕ
until_null [] = []
until_null (none ∷ ts) = []
until_null (some t ∷ ts) = t ∷ until_null ts

-- The calls of `kprintf`, with the addresses of the strings in the line
pub data Output : Type 0 where
  prompt end_line : Output
  argument not_found : Ptr → Output

unfoldable pub arguments : List Ptr → List Output
arguments [] = end_line ∷ []
arguments (p ∷ ps) = argument p ∷ arguments ps

-- `echo`, which leaves out its own name
unfoldable pub echo : List Ptr → List Output
echo [] = end_line ∷ []
echo (cmd ∷ argv) = arguments argv

-- The loop over `built_ins` and the call of what it found; the only one there is, `echo`, has its name
-- at the address `name`.
unfoldable pub run_command : ℕ → Ptr → List Ptr → Mem → Option (List Output)
run_command fuel name [] line = some (end_line ∷ [])
run_command fuel name (cmd ∷ argv) line = elim (strcmp fuel name cmd line) [
  | none ↦ none
  | some c ↦ some (if c == 0 then echo (cmd ∷ argv) else (not_found cmd ∷ []))
]

-- How a round ends: with what it prints and the memory then, or in a store behind the end of `buffer` or of
-- `parts`
pub data RoundEnd : Type 0 where
  answered : List Output → Mem → RoundEnd
  overrun : RoundEnd

-- One round of the loop of `kshell_main`, with `buffer` at the addresses from 0 on. A line of
-- `CMD_MAX_LEN` characters has its NUL behind `buffer`, and `parts` has `CMD_MAX_PARTS` entries.
unfoldable pub shell_round : ℕ → Ptr → List ℕ → Mem → Option RoundEnd
shell_round fuel name input m = elim (ksh_read_line input m) [
  | none ↦ none
  | some r ↦
      if ltb r.input_len cmd_max_len
      then elim (ksh_split_line fuel r.buf) [
        | none ↦ none
        | some (parts, line) ↦
            if ltb cmd_max_parts (length parts)
            then some overrun
            else elim (run_command fuel name (until_null parts) line) [
              | none ↦ none
              | some out ↦ some (answered (prompt ∷ out) line)
            ]
      ]
      else some overrun
]
