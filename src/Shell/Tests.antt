-- ===== src/Shell/Tests.antt =====
-- Runs of kshell.c.
use guide_os.Prelude.{
  leb, ◌-◌, ℕ, refl, ◌==◌, ◌&&◌, ltb, if◌then◌else◌, ◌≡◌, some, List, [], ◌∷◌, arith,
}
use guide_os.Strings.{Mem, poke, strcmp}
use guide_os.Shell.{
  prompt, argument, end_line, answered, terminated, until_null, shell_round, read_line_loop,
  split_loop, skip_word, clear_spaces, run_command, echo, arguments, ReadLine, ksh_read_line,
  ksh_split_line,
}
use guide_os.Shell.Words.{word_starts, words}
use guide_os.Shell.Split.{IsLine, ksh_split_line_lem}
use guide_os.Shell.Round.{echo_char}
use guide_os.Shell.Line.{Line, ksh_read_line_lem}

-- "ab", a backspace, "c" and the end of the line
abbrev input : List ℕ
input = 97 ∷ 98 ∷ 256 ∷ 99 ∷ 13 ∷ []

abbrev memory : Mem
memory a = 7

ksh_read_line_lem_example : (r : ReadLine) × (ksh_read_line input memory ≡ some r) × Line memory r
ksh_read_line_lem_example = ksh_read_line_lem input memory (omega arith)

-- "ls  a"
abbrev line : Mem
line a =
    if a == 0
    then 108
    else if a == 1
    then 115
    else if a == 2
    then 32
    else if a == 3
    then 32
    else if a == 4
    then 97
    else 0

line-IsLine : IsLine 5 line
line-IsLine = record { no_nul = λ i lt. ground arith; nul = refl }

two_words : words line 5 0 ≡ 0 ∷ 4 ∷ []
unfolding words word_starts
two_words = refl

ksh_split_line_lem_example :
    (line' : Mem) × (ksh_split_line 6 line ≡ some (terminated (words line 5 0), line'))
    × ((a : ℕ) → line' a ≡ (if ltb a 5 && (line a == 32) then 0 else line a))
ksh_split_line_lem_example = ksh_split_line_lem 6 5 line line-IsLine (omega arith) (omega arith)

-- The string "echo" at 2000
abbrev with_name : Mem
with_name a = if leb 2000 a && ltb a 2004 then echo_char (a - 2000) else 0

abbrev echo_a : List ℕ
echo_a = 101 ∷ 99 ∷ 104 ∷ 111 ∷ 32 ∷ 97 ∷ 13 ∷ []

echo_a_answer :
    (line' : Mem) × (shell_round 10 2000 echo_a with_name
      ≡ some (answered (prompt ∷ argument 5 ∷ end_line ∷ []) line'))
unfolding shell_round ksh_read_line read_line_loop ksh_split_line split_loop skip_word clear_spaces
    run_command echo arguments strcmp poke terminated until_null
echo_a_answer = (_, refl)
