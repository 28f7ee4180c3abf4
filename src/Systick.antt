-- ===== src/Systick.antt =====
-- kernel/src/time/systick.c: the counter of timer ticks, 64 bits wide.
use guide_os.Prelude.{ℕ, suc, ◌+◌, ◌%◌, ◌^◌, List, [], ◌∷◌, Option, none, some, if◌then◌else◌, ltb}

unfoldable pub systick_init : ℕ → ℕ
systick_init sys_tick = 0

unfoldable pub systick_increment : ℕ → ℕ
systick_increment sys_tick = (sys_tick + 1) % 2 ^ 64

-- The loop of `spin_sleep`, given what `systick` answers each time: the number of rounds, or `none`
-- if the target is not reached within those answers.
unfoldable pub sleep_loop : ℕ → List ℕ → Option ℕ
sleep_loop target [] = none
sleep_loop target (now ∷ later) =
    let rest = sleep_loop target later in if ltb now target then round rest else some 0
  where
    round : Option ℕ → Option ℕ
    round none = none
    round (some n) = some (suc n)

unfoldable pub spin_sleep : ℕ → List ℕ → Option ℕ
spin_sleep ticks [] = none
spin_sleep ticks (now ∷ later) = sleep_loop ((ticks + now) % 2 ^ 64) later
