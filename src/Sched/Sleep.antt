-- ===== src/Sched/Sleep.antt =====
-- `sched_sleep` of sched.c up to the switch.
mod Tests
use guide_os.Prelude.{
  ℕ, suc, ◌+◌, ◌-◌, ◌%◌, ◌^◌, ◌<◌, ◌≡◌, ◌≢◌, refl, sym, ap, ◌∙◌, Bool, true, false, ◌&&◌, none,
  some, arith, ◌==◌, ==_of_ne, ==_refl, if◌then◌else◌, ok, panic, Returns, returns, Ptr, null,
}
use guide_os.Cpu.{Machine, LockId, update, curproc}
use guide_os.Cpu.Nesting.{RunsOn, RunsOn-popped}
use guide_os.Spinlock.{release}
use guide_os.Spinlock.Laws.{
  Inside, Ready, acquired, released, acquire-free, release-held, Inside-acquired,
}
use guide_os.Sched.{Kernel, Proc, sleeping, sched_lock, sleep_out}
use guide_os.Sched.Yield.{curproc-Inside, switch_out-held}

-- CPU `i` holds `lk` and no other lock, and runs the process `p`.
pub record Holds (i : ℕ) (lk : LockId) (p : Ptr) (m : Machine) : Type 0 where
  pub inside : Inside i m
  pub layer : (m.cpus i).int_disable_layer ≡ 1
  pub held : m.lock lk ≡ record { locked = true; cpu = some i }
  pub proc : (m.cpus i).proc ≡ p

-- `sched_sleep` of a process that holds only `lk` gets to the switch with the scheduler's lock in place
-- of `lk`, which is free then, and with the process asleep on the channel. It changes no other process,
-- no other lock and no queue.
pub sleep_out_lem :
    (spins i : ℕ) (lk : LockId) (p chan : Ptr) (k : Kernel)
    → Holds i lk p k.machine
    → p ≢ null
    → lk ≢ sched_lock
    → (k.machine.lock sched_lock).locked ≡ false
    → Returns
        (λ (q, intena) k'.
          (q ≡ p)
          × (intena ≡ (k.machine.cpus i).int_enabled)
          × Holds i sched_lock p k'.machine
          × ((k'.machine.lock lk).locked ≡ false)
          × ((l : LockId) → l ≢ lk → l ≢ sched_lock → k'.machine.lock l ≡ k.machine.lock l)
          × (k'.proc p ≡ record (k.proc p) { chan = chan; state = sleeping })
          × ((a : Ptr) → a ≢ p → k'.proc a ≡ k.proc a)
          × (k'.ready_queue ≡ k.ready_queue)
          × (k'.waiting_queue ≡ k.waiting_queue))
        (sleep_out (suc spins) chan (some lk) k)
unfolding sleep_out
sleep_out_lem spins i lk p chan k holds some_proc other free =
    rw
      (
        current,
        ==_of_ne p null some_proc,
        ==_of_ne lk sched_lock other,
        acquire-free spins sched_lock i k.machine ready free,
        release-held lk i m₁ (Inside-acquired i sched_lock k.machine ready) still,
      )
      (rw
        ((switch_out-held i k₂ in₂ mine (λ z. some_proc (sym current₂ ∙ z))).0 one
          (rw (current₂, ==_refl p) refl))
        (returns (
          refl,
          kept,
          record { inside = in₂; layer = one; held = mine; proc = current₂ },
          rw (==_refl lk) refl,
          λ l ne ne'. rw (==_of_ne l lk ne, ==_of_ne l sched_lock ne') refl,
          rw (==_refl p) refl,
          λ a ne. rw (==_of_ne a p ne) refl,
          refl,
          refl,
        )))
  where
    m : Machine
    m = k.machine

    ready : Ready i m
    ready = record { here = holds.inside.here; bounded = omega (arith, holds.layer) }

    m₁ : Machine
    m₁ = acquired i sched_lock m

    m₂ : Machine
    m₂ = released i lk m₁

    k₂ : Kernel
    k₂ = record k {
      machine = m₂;
      proc = update k.proc p (record (k.proc p) { chan = chan; state = sleeping });
    }

    current : curproc m ≡ ok p m
    current = curproc-Inside i m holds.inside ∙ ap (λ q. ok q m) holds.proc

    still : m₁.lock lk ≡ record { locked = true; cpu = some i }
    still = rw (==_of_ne lk sched_lock other) holds.held

    one : (m₂.cpus i).int_disable_layer ≡ 1
    one = rw (==_refl i, holds.layer) refl

    kept : (m₂.cpus i).int_enabled ≡ (m.cpus i).int_enabled
    kept = rw (==_refl i, holds.layer) refl

    current₂ : (m₂.cpus i).proc ≡ p
    current₂ = rw (==_refl i) holds.proc

    mine : m₂.lock sched_lock ≡ record { locked = true; cpu = some i }
    mine = rw (==_of_ne sched_lock lk (λ e. other (sym e))) refl

    in₂ : Inside i m₂
    in₂ = record {
      here =
          RunsOn-popped i (record m₁ { lock = m₂.lock })
            (Inside-acquired i sched_lock m ready).here;
      off = rw (==_refl i, holds.layer) refl;
      deep = omega (arith, one);
      bounded = omega (arith, one);
    }
