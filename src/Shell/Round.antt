-- ===== src/Shell/Round.antt =====
-- A round of the loop of kshell.c: what it answers to a line.
use guide_os.Prelude.{
  ℕ, zero, suc, ◌+◌, ◌≤◌, ◌<◌, ◌≡◌, Bool, ◌&&◌, ◌||◌, List, [], ◌∷◌, length, ◌==◌, if◌then◌else◌,
  ltb, Ptr,
}
use guide_os.Strings.{Mem}
use guide_os.Shell.{Output, prompt, end_line, not_found, arguments, RoundEnd, answered, overrun}
use guide_os.Shell.Line.{Line}
use guide_os.Shell.Words.{words, word_starts}

-- The bytes of the string "echo"
abbrev pub echo_char : ℕ → ℕ
echo_char i =
    if i == 0 then 101 else if i == 1 then 99 else if i == 2 then 104 else if i == 3 then 111 else 0

-- The string "echo" stands at `name`, behind the buffer.
pub record IsEcho (name : Ptr) (m : Mem) : Type 0 where
  pub behind : 1024 < name
  pub same : (i : ℕ) → i ≤ 4 → m (name + i) ≡ echo_char i

-- The first word of the line is "echo".
unfoldable pub says_echo : Mem → Bool
says_echo buf =
    (buf 0 == 101)
    && (buf 1 == 99)
    && (buf 2 == 104)
    && (buf 3 == 111)
    && ((buf 4 == 32) || (buf 4 == 0))

-- What the shell answers to a line of `n` characters
unfoldable pub reply : ℕ → Mem → List Output
reply zero buf = end_line ∷ []
reply (suc n) buf =
    if says_echo buf then arguments (word_starts buf n 1 (buf 0 == 32)) else not_found 0 ∷ []

-- How a round with a line of `n` characters ends
unfoldable pub outcome : ℕ → Mem → Mem → RoundEnd
outcome n buf line =
    if ltb n 1024 && ltb (length (words buf n 0)) 32
    then answered (prompt ∷ reply n buf) line
    else overrun
