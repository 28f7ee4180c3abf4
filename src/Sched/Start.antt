-- ===== src/Sched/Start.antt =====
-- `sched_start` of sched.c.
use guide_os.Prelude.{List, [], ◌∷◌, ℕ, Cmd, pure, ◌>>=◌, ◌>>◌, Ptr}
use guide_os.Sched.{Kernel, sched_pick, sched_put_back}

-- The loop of `sched_start` on CPU `c`, for as many rounds as there are turns: the processes it
-- switches to. A turn is what happens from `sched_ctxsw` until the process gives the CPU back.
unfoldable pub start_loop : ℕ → List (Cmd Kernel (Unit {0})) → Cmd Kernel (List Ptr)
start_loop c [] = pure []
start_loop c (turn ∷ turns) = do
  p ← sched_pick c
  turn
  sched_put_back c
  ps ← start_loop c turns
  pure (p ∷ ps)
