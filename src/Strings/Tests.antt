-- ===== src/Strings/Tests.antt =====
-- Runs of string.c, and its theorems at a memory with the string "ab" at address 100.
use guide_os.Prelude.{◌≡◌, refl, inr, arith, ◌==◌, if◌then◌else◌}
use guide_os.Strings.{Mem, poke, memmove, copy_down, strncpy}
use guide_os.Strings.Move.{memmove_lem}
use guide_os.Strings.Copy.{strncpy-overruns}

abbrev memory : Mem
memory a = if a == 100 then 97 else if a == 101 then 98 else 0

overlap_runs : memmove 101 100 2 memory 102 ≡ 98
unfolding memmove copy_down poke
overlap_runs = refl

memmove_lem_example : memmove 101 100 2 memory 102 ≡ 98
memmove_lem_example = memmove_lem 101 100 2 memory 102

strncpy-overruns_example : strncpy 200 100 2 memory 1000 ≡ 0
strncpy-overruns_example =
    strncpy-overruns 2 200 100 memory (inr (omega arith)) (λ i lt e. ground arith) 1000
      (omega arith) (omega arith)
