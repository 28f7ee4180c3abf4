-- ===== src/Trap/Timer.antt =====
-- The timer interrupt, from the vector to the switch.
use guide_os.Prelude.{
  inl, inr, Bool-cases, ℕ, suc, ◌+◌, ◌-◌, ◌%◌, ◌^◌, ◌≡◌, ◌≢◌, refl, ap, ap₂, ◌∙◌, true, false, some,
  List, arith, ◌==◌, ==_of_ne, ==_refl, if◌then◌else◌, ok, Returns, returns, bind-Returns,
  map_state-Returns, Ptr, null,
}
use guide_os.Cpu.{Cpu, Machine, update, cpu_id, curproc}
use guide_os.Systick.{systick_increment}
use guide_os.Cpu.Nesting.{
  find_cpu-update, RunsOn, entered, pushed, popped, RunsOn-pushed, push_int_disable-ok,
  pop_int_disable-ok,
}
use guide_os.Spinlock.Laws.{Ready, cur_cpu-ok, update-update}
use guide_os.Sched.{running, runnable, sched_lock}
use guide_os.Sched.Yield.{yield_out_lem}
use guide_os.Trap.{Trapped, switching, expire, timer, dispatch, preempt, handle_interrupt}

-- Outside all sections, `curproc` leaves only that `int_enabled` says whether interrupts are on.
abbrev pub settled : ℕ → Machine → Machine
settled i m = record m { cpus = update m.cpus i (record (m.cpus i) { int_enabled = m.if_flag }) }

pub popped-settled :
    (i : ℕ) (m : Machine) → (m.cpus i).int_disable_layer ≡ 0 → popped i (pushed i m) ≡ settled i m
popped-settled i m zero_ =
    ap₂ (λ c f. record m { cpus = c; if_flag = f })
      (update-update m.cpus i (entered i m) _ ∙ ap (λ c. update m.cpus i c) own)
      (rw (==_refl i, zero_)
        (elim (Bool-cases m.if_flag) [ inl e ↦ rw e refl | inr e ↦ rw e refl ]))
  where
    own :
        record ((pushed i m).cpus i) {
          int_disable_layer = ((pushed i m).cpus i).int_disable_layer - 1;
        }
        ≡ record (m.cpus i) { int_enabled = m.if_flag }
    own = rw (==_refl i, zero_) refl

-- A CPU that runs the process `p`, outside all sections
pub record Interrupted (i : ℕ) (p : Ptr) (m : Machine) : Type 0 where
  pub here : RunsOn i m
  pub layer : (m.cpus i).int_disable_layer ≡ 0
  pub proc : (m.cpus i).proc ≡ p

pub curproc-Interrupted :
    (i : ℕ) (p : Ptr) (m : Machine) → Interrupted i p m → curproc m ≡ ok p (settled i m)
unfolding curproc
curproc-Interrupted i p m at =
    rw
      (
        push_int_disable-ok m i at.here,
        cur_cpu-ok i (pushed i m) (RunsOn-pushed i m at.here) refl,
        pop_int_disable-ok (pushed i m) i (RunsOn-pushed i m at.here) refl
            (rw (==_refl i, at.layer) (omega arith)) (rw (==_refl i, at.layer) (omega arith)),
      )
      (ap₂ ok (rw (==_refl i) at.proc) (popped-settled i m at.layer))

pub Interrupted-settled :
    (i : ℕ) (p : Ptr) (m : Machine) → Interrupted i p m → Interrupted i p (settled i m)
Interrupted-settled i p m at = record {
  here = find_cpu-update m.cpus i _ m.lapic_id m.ncpu 0 refl ∙ at.here;
  layer = rw (==_refl i) at.layer;
  proc = rw (==_refl i) at.proc;
}

pub settled-settled : (i : ℕ) (m : Machine) → settled i (settled i m) ≡ settled i m
settled-settled i m =
    ap {A = ℕ → Cpu} (λ c. record m { cpus = c })
      (update-update m.cpus i _ _ ∙ ap {A = Cpu} (λ c. update m.cpus i c) (rw (==_refl i) refl))

pub curproc-again :
    (i : ℕ) (p : Ptr) (m : Machine) → Interrupted i p m → curproc (settled i m) ≡ ok p (settled i m)
curproc-again i p m at =
    curproc-Interrupted i p (settled i m) (Interrupted-settled i p m at)
    ∙ ap (ok p) (settled-settled i m)

-- The timer's interrupt of a running process counts the tick on CPU 0, acknowledges it once, makes the
-- process runnable and gets to the switch with the scheduler's lock. No other process changes.
pub timer_switches :
    (spins i p rax : ℕ) (received : List ℕ) (s : Trapped)
    → Interrupted i p s.console.kernel.machine
    → s.console.kernel.machine.if_flag ≡ false
    → p ≢ null
    → (s.console.kernel.proc p).state ≡ running
    → (s.console.kernel.machine.lock sched_lock).locked ≡ false
    → Returns
        (λ stand s'.
          (stand ≡ switching false)
          × (s'.ticks ≡ (if i == 0 then (s.ticks + 1) % 2 ^ 64 else s.ticks))
          × (s'.eois ≡ s.eois + 1)
          × (s'.console.kernel.proc p ≡ record (s.console.kernel.proc p) { state = runnable })
          × ((a : Ptr) → a ≢ p → s'.console.kernel.proc a ≡ s.console.kernel.proc a)
          × (s'.console.kernel.machine.lock sched_lock ≡ record { locked = true; cpu = some i }))
        (handle_interrupt (suc spins) received 32 rax s)
unfolding handle_interrupt dispatch timer expire preempt systick_increment cpu_id
timer_switches spins i p rax received s at off some_proc runs free =
    rw
      (
        cur_cpu-ok i m at.here off,
        curproc-Interrupted i p m at,
        ==_of_ne p null some_proc,
        curproc-again i p m at,
        runs,
        curproc-again i p m at,
      )
      (rw (curproc-again i p m at, ==_of_ne p null some_proc, curproc-again i p m at, ==_refl p)
        (bind-Returns
          (map_state-Returns (λ c. record s₁ { console = c })
            (map_state-Returns (λ k. record (s₁.console) { kernel = k })
              ((yield_out_lem spins i p s₁.console.kernel ready free settled_at.proc).0 some_proc
                settled_at.layer)))
          λ intena s₂ (c, (k, (flag, machine_, own, others, rest, rest_, kept, kept_), e), e').
            rw (flag, e', e, machine_)
              (returns (
                ap switching off,
                refl,
                refl,
                own ∙ rw (==_refl p) refl,
                λ a ne. others a ne ∙ rw (==_of_ne a p ne) refl,
                refl,
              ))))
  where
    m : Machine
    m = s.console.kernel.machine

    settled_at : Interrupted i p (settled i m)
    settled_at = Interrupted-settled i p m at

    ready : Ready i (settled i m)
    ready = record { here = settled_at.here; bounded = omega (arith, settled_at.layer) }

    s₁ : Trapped
    s₁ = record s {
      console = record (s.console) {
        kernel = record (s.console.kernel) {
          machine = settled i m;
          proc =
              update s.console.kernel.proc p
                (record (s.console.kernel.proc p) { state = runnable });
        };
      };
      ticks = if i == 0 then (s.ticks + 1) % 2 ^ 64 else s.ticks;
      eois = s.eois + 1;
    }
