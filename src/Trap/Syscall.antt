-- ===== src/Trap/Syscall.antt =====
-- The system calls, from the vector to the switch.
use guide_os.Prelude.{
  ℕ, suc, ◌≡◌, ◌≢◌, refl, ap, ◌∙◌, true, false, some, List, arith, ◌==◌, ==_of_ne, ==_refl,
  eq_of_==, ne_of_==, inl, inr, Bool-cases, ◌⊎◌, Returns, returns, bind-Returns, weaken-Returns,
  map_state-Returns, Ptr, null,
}
use guide_os.Descriptors.{vector_syscall}
use guide_os.Cpu.{Machine, update}
use guide_os.Cpu.Nesting.{RunsOn-pushed, pushed, popped, push_int_disable-ok, pop_int_disable-ok}
use guide_os.Sched.{running, runnable, sched_lock, yield_out}
use guide_os.Sched.Yield.{yield_out_lem, yielded}
use guide_os.Trap.{
  Trapped, Stand, on_sched, ended, switching, sys_con_read, handle_syscall, dispatch, preempt,
  handle_interrupt,
}
use guide_os.Trap.Timer.{
  Interrupted, settled, popped-settled, curproc-Interrupted, Interrupted-settled, settled-settled,
  curproc-again,
}

-- At the switch, on CPU `i`: the process `p` is runnable, and the scheduler's lock is held. No other
-- process has changed, no tick is counted and nothing is acknowledged.
pub record GaveUp (i : ℕ) (p : Ptr) (s s' : Trapped) : Type 0 where
  pub own : s'.console.kernel.proc p ≡ record (s.console.kernel.proc p) { state = runnable }
  pub others : (a : Ptr) → a ≢ p → s'.console.kernel.proc a ≡ s.console.kernel.proc a
  pub lock : s'.console.kernel.machine.lock sched_lock ≡ record { locked = true; cpu = some i }
  pub ticks : s'.ticks ≡ s.ticks
  pub eois : s'.eois ≡ s.eois

-- `sched_yield` from a state in which `p` runs or is runnable already
yield-GaveUp :
    (spins i : ℕ) (p : Ptr) (s s₁ : Trapped)
    → Interrupted i p s₁.console.kernel.machine
    → p ≢ null
    → (s₁.console.kernel.machine.lock sched_lock).locked ≡ false
    → yielded (s₁.console.kernel.proc p) ≡ record (s.console.kernel.proc p) { state = runnable }
    → ((a : Ptr) → a ≢ p → s₁.console.kernel.proc a ≡ s.console.kernel.proc a)
    → s₁.ticks ≡ s.ticks
    → s₁.eois ≡ s.eois
    → Returns
        (λ intena s'. (intena ≡ s₁.console.kernel.machine.if_flag) × GaveUp i p s s')
        (on_sched (yield_out (suc spins)) s₁)
yield-GaveUp spins i p s s₁ at some_proc free own others ticks eois =
    weaken-Returns
      (map_state-Returns (λ c. record s₁ { console = c })
        (map_state-Returns (λ k. record (s₁.console) { kernel = k })
          ((yield_out_lem spins i p s₁.console.kernel
              (record { here = at.here; bounded = omega (arith, at.layer) }) free at.proc).0
            some_proc at.layer)))
      λ intena s₂ (c, (k, (flag, machine_, own', others', rest, rest_, kept, kept_), e), e').
        rw (e', e)
          (
            flag,
            record {
              own = own' ∙ own;
              others = λ a ne. others' a ne ∙ others a ne;
              lock = rw machine_ refl;
              ticks = ticks;
              eois = eois;
            },
          )

-- The system call that yields
yield_syscall :
    (spins i p : ℕ) (received : List ℕ) (s : Trapped)
    → Interrupted i p s.console.kernel.machine
    → p ≢ null
    → (s.console.kernel.proc p).state ≡ running
    → (s.console.kernel.machine.lock sched_lock).locked ≡ false
    → Returns
        (λ stand s'. (stand ≡ switching s.console.kernel.machine.if_flag) × GaveUp i p s s')
        (handle_interrupt (suc spins) received 0x80 0x01 s)
unfolding handle_interrupt dispatch handle_syscall preempt
yield_syscall spins i p received s at some_proc runs free =
    bind-Returns
      {P = λ stand s'. (stand ≡ switching s.console.kernel.machine.if_flag) × GaveUp i p s s'}
      (bind-Returns
        (yield-GaveUp spins i p s s at some_proc free (rw runs refl) (λ a ne. refl) refl refl)
        λ intena s' (off, gave). returns (ap switching off, gave))
      λ stand s' (is, gave). rw is (returns (refl, gave))

-- A balanced section on a CPU outside all sections
section-settled :
    (i : ℕ) (p : Ptr) (m : Machine)
    → Interrupted i p m
    → popped i (pushed i (settled i m)) ≡ settled i m
section-settled i p m at =
    popped-settled i (settled i m) (Interrupted-settled i p m at).layer ∙ settled-settled i m

-- The system call that is to read from the console
con_read_syscall :
    (spins i p : ℕ) (received : List ℕ) (s : Trapped)
    → Interrupted i p s.console.kernel.machine
    → p ≢ null
    → (s.console.kernel.proc p).state ≡ running
    → (s.console.kernel.machine.lock sched_lock).locked ≡ false
    → Returns
        (λ stand s'. (stand ≡ switching s.console.kernel.machine.if_flag) × GaveUp i p s s')
        (handle_interrupt (suc spins) received 0x80 0x10 s)
unfolding handle_interrupt dispatch handle_syscall sys_con_read preempt
con_read_syscall spins i p received s at some_proc runs free =
    rw
      (
        curproc-Interrupted i p m at,
        push_int_disable-ok (settled i m) i at'.here,
        runs,
        pop_int_disable-ok (pushed i (settled i m)) i (RunsOn-pushed i (settled i m) at'.here) refl
            (rw (==_refl i, at.layer) (omega arith)) (rw (==_refl i, at.layer) (omega arith)),
        section-settled i p m at,
        curproc-again i p m at,
        ==_of_ne p null some_proc,
        curproc-again i p m at,
        ==_refl p,
      )
      (bind-Returns
        (yield-GaveUp spins i p s s₁ at' some_proc free (rw (==_refl p) refl)
          (λ a ne. rw (==_of_ne a p ne) refl) refl refl)
        λ intena s' (off, gave). returns (ap switching off, gave))
  where
    m : Machine
    m = s.console.kernel.machine

    at' : Interrupted i p (settled i m)
    at' = Interrupted-settled i p m at

    s₁ : Trapped
    s₁ = record s {
      console = record (s.console) {
        kernel = record (s.console.kernel) {
          machine = settled i m;
          proc =
              update s.console.kernel.proc p
                (record (s.console.kernel.proc p) { state = runnable });
        };
      };
    }

-- The interrupted process was looked at, and nothing else done.
abbrev pub checked : ℕ → Trapped → Trapped
checked i s = record s {
  console = record (s.console) {
    kernel = record (s.console.kernel) { machine = settled i s.console.kernel.machine };
  };
}

-- An unknown number
unknown_syscall :
    (spins i p rax : ℕ) (received : List ℕ) (s : Trapped)
    → Interrupted i p s.console.kernel.machine
    → p ≢ null
    → (s.console.kernel.proc p).state ≡ running
    → rax ≢ 0x01
    → rax ≢ 0x10
    → Returns
        (λ stand s'. (stand ≡ ended rax) × (s' ≡ checked i s))
        (handle_interrupt spins received 0x80 rax s)
unfolding handle_interrupt dispatch handle_syscall preempt
unknown_syscall spins i p rax received s at some_proc runs ne₁ ne₂ =
    rw
      (
        ==_of_ne rax 0x01 ne₁,
        ==_of_ne rax 0x10 ne₂,
        curproc-Interrupted i p s.console.kernel.machine at,
        ==_of_ne p null some_proc,
        curproc-again i p s.console.kernel.machine at,
        runs,
      )
      (returns (refl, refl))

-- What a system call with the number `rax` of a running process `p` comes to: the two numbers that are
-- known give the CPU up, and any other goes back to the process with `rax` as it was.
unfoldable pub Answered : ℕ → Ptr → ℕ → Trapped → Stand → Trapped → Type 0
Answered i p rax s stand s' =
    (((rax ≡ 0x01) ⊎ (rax ≡ 0x10))
      × (stand ≡ switching s.console.kernel.machine.if_flag)
      × GaveUp i p s s')
    ⊎ ((rax ≢ 0x01) × (rax ≢ 0x10) × (stand ≡ ended rax) × (s' ≡ checked i s))

-- A system call of a running process outside all critical sections, whether interrupts are on or off, with
-- the scheduler's lock free, gives the CPU up if its number is that of yield or of the console's read: the
-- process is runnable, the scheduler's lock is held and no other process has changed. With any other
-- number it ends with the number in `rax`, and the only change is that `int_enabled` of the CPU says
-- whether interrupts were on.
pub syscall-Answered :
    (spins i p rax : ℕ) (received : List ℕ) (s : Trapped)
    → Interrupted i p s.console.kernel.machine
    → p ≢ null
    → (s.console.kernel.proc p).state ≡ running
    → (s.console.kernel.machine.lock sched_lock).locked ≡ false
    → Returns
        (λ stand s'. Answered i p rax s stand s')
        (handle_interrupt (suc spins) received vector_syscall rax s)
unfolding Answered
syscall-Answered spins i p rax received s at some_proc runs free = elim (Bool-cases (rax == 0x01)) [
  | inl e ↦
      let is : rax ≡ 0x01 = eq_of_== rax 0x01 e in
      rw is (
        weaken-Returns (yield_syscall spins i p received s at some_proc runs free)
          λ stand s' (off, gave). inl (inl refl, off, gave))
  | inr e ↦ elim (Bool-cases (rax == 0x10)) [
    | inl e' ↦
        let is : rax ≡ 0x10 = eq_of_== rax 0x10 e' in
        rw is (
          weaken-Returns (con_read_syscall spins i p received s at some_proc runs free)
            λ stand s' (off, gave). inl (inr refl, off, gave))
    | inr e' ↦
        let ne₁ : rax ≢ 0x01 = ne_of_== rax 0x01 e in
        let ne₂ : rax ≢ 0x10 = ne_of_== rax 0x10 e' in
        weaken-Returns (unknown_syscall (suc spins) i p rax received s at some_proc runs ne₁ ne₂)
          λ stand s' (is, same). inr (ne₁, ne₂, is, same)
  ]
]
