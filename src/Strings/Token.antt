-- ===== src/Strings/Token.antt =====
-- `strtok` of string.c. Its static variables `copy` and `i` are part of the state; the walk along
-- the string and along the delimiters runs on fuel.
use guide_os.Prelude.{
  ℕ, zero, suc, ◌+◌, Bool, true, false, Option, none, some, ◌==◌, if◌then◌else◌, Cmd, ok,
  out_of_fuel, pure, ◌>>=◌, ◌>>◌, Ptr, null,
}
use guide_os.Strings.{Mem, poke}

pub record Tokens : Type 0 where
  pub mem : Mem
  pub copy : Ptr
  pub i : ℕ

-- Whether `c` is one of the delimiters
unfoldable pub is_delim : ℕ → Ptr → ℕ → Cmd Tokens Bool
is_delim zero delims c s = out_of_fuel
is_delim (suc fuel) delims c s =
    let rest = is_delim fuel (delims + 1) c s in
    if s.mem delims == 0 then ok false s else if s.mem delims == c then ok true s else rest

-- `copy + word_found`, or NULL
abbrev pub word_at : Option ℕ → Tokens → Ptr
word_at none s = null
word_at (some w) s = s.copy + w

-- `copy[i++] = '\0'` behind a word that ends there
abbrev pub end_word : Tokens → Tokens
end_word s = record s { mem = poke s.mem (s.copy + s.i) 0; i = s.i + 1 }

abbrev pub skip : Tokens → Tokens
skip s = record s { i = s.i + 1 }

unfoldable pub strtok_loop : ℕ → Ptr → Option ℕ → Cmd Tokens Ptr
strtok_loop zero delims word_found s = out_of_fuel
strtok_loop (suc fuel) delims none s =
    if s.mem (s.copy + s.i) == 0
    then ok null s
    else ((do
      blank ← is_delim (suc fuel) delims (s.mem (s.copy + s.i))
      (λ t. ok tt (skip t))
      if blank then strtok_loop fuel delims none else strtok_loop fuel delims (some s.i))
        s)
strtok_loop (suc fuel) delims (some w) s =
    if s.mem (s.copy + s.i) == 0
    then ok (word_at (some w) s) s
    else ((do
      blank ← is_delim (suc fuel) delims (s.mem (s.copy + s.i))
      if blank
          then (λ t. ok (word_at (some w) t) (end_word t))
          else (do (λ t. ok tt (skip t)); strtok_loop fuel delims (some w)))
        s)

unfoldable pub strtok : ℕ → Ptr → Ptr → Cmd Tokens Ptr
strtok fuel base delims = do
  if base == null then pure tt else (λ s. ok tt (record s { copy = base; i = 0 }))
  strtok_loop fuel delims none
