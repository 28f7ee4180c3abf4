-- ===== src/Spinlock/Fixture.antt =====
-- A machine of one CPU with all locks free, for the runs of what takes locks.
use guide_os.Prelude.{refl, true, false, none, arith, Ptr}
use guide_os.Cpu.{Machine, find_cpu}
use guide_os.Cpu.Nesting.{RunsOn}
use guide_os.Spinlock.Laws.{Ready}

-- The process `p` runs, with interrupts off.
abbrev pub one_cpu : Ptr → Machine
one_cpu p = record {
  cpus = λ i. record {
    started = true;
    int_disable_layer = 0;
    int_enabled = false;
    proc = p;
    scheduler_ctx = 0;
    apicid = 4;
  };
  ncpu = 1;
  lock = λ l. record { locked = false; cpu = none };
  if_flag = false;
  lapic_id = 4;
}

pub one_cpu-RunsOn : (p : Ptr) → RunsOn 0 (one_cpu p)
unfolding find_cpu
one_cpu-RunsOn p = refl

pub one_cpu-Ready : (p : Ptr) → Ready 0 (one_cpu p)
one_cpu-Ready p = record { here = one_cpu-RunsOn p; bounded = omega arith }
