-- ===== src/Spinlock/Tests.antt =====
-- The theorems about cpu.c and spinlock.c at a concrete machine.
use guide_os.Prelude.{ℕ, ◌≡◌, refl, true, false, none, some, ◌==◌, if◌then◌else◌}
use guide_os.Cpu.{Machine, update, find_cpu}
use guide_os.Cpu.Nesting.{RunsOn}
use guide_os.Spinlock.Mutex
use guide_os.Spinlock.Mutex.{System, Reach, mutual_exclusion}

-- Two CPUs with APIC ids 4 and 6; the second one executes. Lock 1 is taken by the first.
abbrev machine : Machine
machine = record {
  cpus = λ i. record {
    started = true;
    int_disable_layer = 0;
    int_enabled = false;
    proc = 0;
    scheduler_ctx = 0;
    apicid = if i == 0 then 4 else 6;
  };
  ncpu = 2;
  lock = λ l.
      if l == 1
      then record { locked = true; cpu = some 0 }
      else record { locked = false; cpu = none };
  if_flag = true;
  lapic_id = 6;
}

machine-RunsOn : RunsOn 1 machine
unfolding find_cpu
machine-RunsOn = refl

-- CPU 3 has taken the lock.
abbrev held : System
held = record {
  lock = record { locked = true; cpu = some 3 };
  pc =
      update (update (update (λ i. Mutex.Pc.outside) 3 Mutex.Pc.spinning) 3 Mutex.Pc.won) 3
        Mutex.Pc.inside;
}

held-Reach : Reach held
held-Reach =
    Reach.later
      (Reach.later (Reach.later Reach.start (Mutex.Step.begin 3 refl))
        (Mutex.Step.exchange_free 3 refl refl))
      (Mutex.Step.set_cpu 3 refl)

mutual_exclusion_example :
    (◌≡◌ {A = ℕ} 3 3)
    × (held.lock.locked ≡ true)
    × (held.pc 3 ≡ Mutex.Pc.inside → held.lock.cpu ≡ some 3)
mutual_exclusion_example = mutual_exclusion 3 3 held-Reach refl refl
