-- ===== src/Sched/Yield.antt =====
-- What `sched_yield` and `sched_sleep` of sched.c do before the switch.
use guide_os.Prelude.{
  ℕ, suc, ◌<◌, ◌≡◌, ◌≢◌, refl, ap, ◌∙◌, true, false, Bool-cases, inl, inr, some, arith, ==_of_ne,
  ==_refl, if◌then◌else◌, ok, panic, fault, eq_of_==, ne_of_==, ◌==◌, null, sym, Returns, returns,
  Ptr,
}
use guide_os.Cpu.{Machine, update, curproc}
use guide_os.Cpu.Nesting.{pushed, RunsOn-pushed, push_int_disable-ok}
use guide_os.Spinlock.Laws.{
  Inside, Ready, acquired, acquire-free, holding-ok, cur_cpu-ok, pop-pushed, Inside-acquired,
}
use guide_os.Sched.{Kernel, Proc, runnable, sched_lock, is_running, switch_out, yield_out}

-- `curproc` within a critical section
pub curproc-Inside : (i : ℕ) (m : Machine) → Inside i m → curproc m ≡ ok (m.cpus i).proc m
unfolding curproc
curproc-Inside i m in_ =
    rw
      (
        push_int_disable-ok m i in_.here,
        cur_cpu-ok i (pushed i m) (RunsOn-pushed i m in_.here) refl,
        ==_refl i,
        pop-pushed i m in_,
      )
      refl

-- With the scheduler's lock and no other section, and a process that does not run, `sched_switch_out`
-- gets to the switch; in a further section it panics.
pub switch_out-held :
    (i : ℕ) (k : Kernel)
    → Inside i k.machine
    → k.machine.lock sched_lock ≡ record { locked = true; cpu = some i }
    → (k.machine.cpus i).proc ≢ null
    → ((k.machine.cpus i).int_disable_layer ≡ 1
        → is_running (k.proc (k.machine.cpus i).proc).state ≡ false
        → switch_out k ≡ ok (k.machine.cpus i).int_enabled k)
      × ((k.machine.cpus i).int_disable_layer ≢ 1 → switch_out k ≡ panic "switch_out lock count")
unfolding switch_out
switch_out-held i k in_ held some_proc =
    rw
      (
        curproc-Inside i k.machine in_,
        holding-ok sched_lock i k.machine in_,
        held,
        ==_refl i,
        cur_cpu-ok i k.machine in_.here in_.off,
      )
      (
        λ one still.
            rw
              (
                one,
                ==_of_ne (k.machine.cpus i).proc null some_proc,
                still,
                cur_cpu-ok i k.machine in_.here in_.off,
              )
              refl,
        λ more. rw (==_of_ne (k.machine.cpus i).int_disable_layer 1 more) refl,
      )

-- The process that CPU `i` runs, in the state `sched_yield` gives it
abbrev pub yielded : Proc → Proc
yielded v = if is_running v.state then record v { state = runnable } else v

-- `sched_yield` outside all critical sections gets to the switch with the scheduler's lock, makes the
-- current process runnable if it was running and leaves it as it was otherwise, and remembers whether
-- interrupts were on. It changes no other process, no queue and no node. Called in a critical section it
-- panics, and without a current process it faults.
pub yield_out_lem :
    (spins i : ℕ) (p : Ptr) (k : Kernel)
    → Ready i k.machine
    → (k.machine.lock sched_lock).locked ≡ false
    → (k.machine.cpus i).proc ≡ p
    → (p ≢ null
        → (k.machine.cpus i).int_disable_layer ≡ 0
        → Returns
            (λ intena k'.
              (intena ≡ k.machine.if_flag)
              × (k'.machine ≡ acquired i sched_lock k.machine)
              × (k'.proc p ≡ yielded (k.proc p))
              × ((a : Ptr) → a ≢ p → k'.proc a ≡ k.proc a)
              × (k'.ready_queue ≡ k.ready_queue)
              × (k'.waiting_queue ≡ k.waiting_queue)
              × (k'.heap ≡ k.heap)
              × (k'.idle_proc ≡ k.idle_proc))
            (yield_out (suc spins) k))
      × (p ≢ null
          → 0 < (k.machine.cpus i).int_disable_layer
          → yield_out (suc spins) k ≡ panic "switch_out lock count")
      × (p ≡ null → yield_out (suc spins) k ≡ fault)
unfolding yield_out
yield_out_lem spins i p k ready free here =
    rw (acquire-free spins sched_lock i k.machine ready free, current)
      (elim (Bool-cases (p == null)) [
        | inl none_ ↦
            let at : p ≡ null = eq_of_== p null none_ in
            rw none_ (λ ne. absurd (ne at), λ ne. absurd (ne at), λ z. refl)
        | inr some_ ↦
            let ne : p ≢ null = ne_of_== p null some_ in
            elim (Bool-cases (is_running (k.proc p).state)) [
              | inl e ↦
                  let next =
                    switch_out-held i
                      (record k₁ {
                        proc = update k.proc p (record (k.proc p) { state = runnable });
                      })
                      in_ (rw (==_refl sched_lock) refl) (λ z. ne (sym current_is ∙ z)) in
                  rw (some_, e, current, some_)
                    (
                      λ x zero_. rw (next.0 (one zero_) (rw (current_is, ==_refl p) refl)) (
                          returns (
                            enabled zero_,
                            refl,
                            rw (==_refl p) refl,
                            λ a other. rw (==_of_ne a p other) refl,
                            refl,
                            refl,
                            refl,
                            refl,
                          )),
                      λ x deep. next.1 (more deep),
                      λ z. absurd (ne z),
                    )
              | inr e ↦
                  let next =
                    switch_out-held i k₁ in_ (rw (==_refl sched_lock) refl)
                      (λ z. ne (sym current_is ∙ z)) in
                  rw (some_, e)
                    (
                      λ x zero_. rw (next.0 (one zero_) (rw current_is e)) (
                          returns
                            (enabled zero_, refl, refl, λ a other. refl, refl, refl, refl, refl)),
                      λ x deep. next.1 (more deep),
                      λ z. absurd (ne z),
                    )
            ]
      ])
  where
    m : Machine
    m = acquired i sched_lock k.machine

    k₁ : Kernel
    k₁ = record k { machine = m }

    in_ : Inside i m
    in_ = Inside-acquired i sched_lock k.machine ready

    current_is : (m.cpus i).proc ≡ p
    current_is = rw (==_refl i) here

    current : curproc m ≡ ok p m
    current = curproc-Inside i m in_ ∙ ap (λ q. ok q m) current_is

    one : (k.machine.cpus i).int_disable_layer ≡ 0 → (m.cpus i).int_disable_layer ≡ 1
    one z = rw (==_refl i, z) refl

    more : 0 < (k.machine.cpus i).int_disable_layer → (m.cpus i).int_disable_layer ≢ 1
    more deep = rw (==_refl i) (omega (arith, ready.bounded))

    enabled : (k.machine.cpus i).int_disable_layer ≡ 0 → (m.cpus i).int_enabled ≡ k.machine.if_flag
    enabled z = rw (==_refl i, z) refl
