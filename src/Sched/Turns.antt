-- ===== src/Sched/Turns.antt =====
-- Turns in which processes only yield.
use guide_os.Prelude.{
  ℕ, zero, suc, ◌≡◌, refl, ap, subst, sym, ◌∙◌, Bool, false, List, [], ◌∷◌, some, get_elem?,
  append-nil, arith, ==_refl, Cmd, ok, pure, returns, bind-Returns, ◌>>◌, Ptr,
}
use guide_os.Cpu.{Machine, update}
use guide_os.Cpu.Nesting.{RunsOn-popped, find_cpu-update}
use guide_os.Spinlock.{release}
use guide_os.Spinlock.Laws.{
  Inside, Ready, acquired, released, cur_cpu-ok, release-held, Inside-acquired,
}
use guide_os.Sched.{Kernel, sched_lock, yield_out, yield_in, switched_in}
use guide_os.Sched.Yield.{yield_out_lem}
use guide_os.Sched.Steady.{InLoop, IsTurn}

-- A process comes back from `sched_yield` and calls it again.
abbrev pub yield_again : ℕ → Bool → Cmd Kernel (Unit {0})
yield_again spins intena = do yield_in intena; yield_out spins; pure tt

module _ (i : ℕ) (intena : Bool) (m : Machine) (l : InLoop i m) where
  -- `int_enabled` of the process, put back
  abbrev with_flag : Machine
  with_flag = record m { cpus = update m.cpus i (record (m.cpus i) { int_enabled = intena }) }

  Inside-with_flag : Inside i with_flag
  Inside-with_flag = record {
    here =
        find_cpu-update m.cpus i (record (m.cpus i) { int_enabled = intena }) m.lapic_id m.ncpu 0
          refl
        ∙ l.inside.here;
    off = l.inside.off;
    deep = rw (==_refl i) l.inside.deep;
    bounded = rw (==_refl i) l.inside.bounded;
  }

  back : Machine
  back = released i sched_lock with_flag

  release-with_flag : release sched_lock with_flag ≡ ok tt back
  unfolding back
  release-with_flag = release-held sched_lock i with_flag Inside-with_flag l.held

  layer-back : (back.cpus i).int_disable_layer ≡ 0
  unfolding back
  layer-back = rw (==_refl i, l.layer) refl

  Ready-back : Ready i back
  unfolding back
  Ready-back = record {
    here = RunsOn-popped i (record with_flag { lock = back.lock }) Inside-with_flag.here;
    bounded = rw layer-back (omega arith);
  }

  lock-back : (back.lock sched_lock).locked ≡ false
  unfolding back
  lock-back = refl

  proc-back : (back.cpus i).proc ≡ (m.cpus i).proc
  unfolding back
  proc-back = rw (==_refl i) refl

  -- The lock is taken again.
  InLoop-back : InLoop i (acquired i sched_lock back)
  InLoop-back = record {
    inside = Inside-acquired i sched_lock back Ready-back;
    layer = rw (==_refl i, layer-back) refl;
    held = rw (==_refl sched_lock) refl;
  }

-- A process that yields whenever it runs takes turns as the loop of `sched_start` needs them.
pub yield_again-IsTurn :
    (spins i : ℕ) (idle : Ptr) (intena : Bool) → IsTurn i idle (yield_again (suc spins) intena)
unfolding yield_in switched_in
yield_again-IsTurn spins i idle intena p ws rs n k st some_proc here runs =
    let m = k.machine in
    let l = st.in_loop in
    let k₁ : Kernel = record k { machine = back i intena m l } in
    rw (cur_cpu-ok i m l.inside.here l.inside.off, release-with_flag i intena m l)
      (bind-Returns
        ((yield_out_lem spins i p k₁ (Ready-back i intena m l) (lock-back i intena m l)
            (proc-back i intena m l ∙ here)).0
          some_proc (layer-back i intena m l))
        λ r k' (flag, machine_, own, others, ready, waiting, heap, idles). returns (
          ws,
          [],
          record {
            in_loop = subst (InLoop i) (sym machine_) (InLoop-back i intena m l);
            idle_is = ap (λ f. f i) idles ∙ st.idle_is;
            queues = rw (append-nil rs, heap, ready, waiting) st.queues;
            eligible = rw (append-nil rs) st.eligible;
          },
          rw machine_ (rw (==_refl i) (proc-back i intena m l ∙ here)),
        ))

-- One turn for each flag
abbrev pub yields : List Bool → List (Cmd Kernel (Unit {0}))
yields [] = []
yields (intena ∷ flags) = yield_again 1 intena ∷ yields flags

pub yields-IsTurn :
    (i : ℕ) (idle : Ptr) (flags : List Bool) (j : ℕ) (turn : Cmd Kernel (Unit {0}))
    → get_elem? (yields flags) j ≡ some turn
    → IsTurn i idle turn
yields-IsTurn i idle [] j turn at = cc
yields-IsTurn i idle (intena ∷ flags) zero turn at =
    subst (IsTurn i idle) (cc) (yield_again-IsTurn 0 i idle intena)
yields-IsTurn i idle (intena ∷ flags) (suc j) turn at = yields-IsTurn i idle flags j turn at
