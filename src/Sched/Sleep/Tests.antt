-- ===== src/Sched/Sleep/Tests.antt =====
-- The theorems about `sched_yield` and `sched_sleep` at a machine of one CPU that runs the process 90.
use guide_os.Prelude.{
  ◌<◌, ◌≡◌, ◌≢◌, refl, false, none, some, [], arith, panic, fault, null, Returns, Ptr,
}
use guide_os.Heap.{node}
use guide_os.Cpu.{Machine, LockId, find_cpu}
use guide_os.Spinlock.Laws.{acquired}
use guide_os.Spinlock.Fixture.{one_cpu, one_cpu-Ready}
use guide_os.Sched.{Kernel, running, sleeping, sched_lock, yield_out, sleep_out}
use guide_os.Sched.Yield.{yielded, yield_out_lem}
use guide_os.Sched.Sleep.{Holds, sleep_out_lem}

abbrev kernel : Machine → Kernel
kernel m = record {
  machine = m;
  heap = record { cell = λ a. none; pool = []; junk = λ a. node 0 0 0 };
  proc = λ a. record { state = running; chan = 0; ctx = 0; pid = a };
  idle_proc = λ i. 80;
  ready_queue = record { size = 0; head = 0; tail = 0 };
  waiting_queue = record { size = 0; head = 0; tail = 0 };
}

yield_out_lem_example :
    (90 ≢ null
      → ((one_cpu 90).cpus 0).int_disable_layer ≡ 0
      → Returns
          (λ intena k'.
            (intena ≡ false)
            × (k'.machine ≡ acquired 0 sched_lock (one_cpu 90))
            × (k'.proc 90 ≡ yielded ((kernel (one_cpu 90)).proc 90))
            × ((a : Ptr) → a ≢ 90 → k'.proc a ≡ (kernel (one_cpu 90)).proc a)
            × (k'.ready_queue ≡ (kernel (one_cpu 90)).ready_queue)
            × (k'.waiting_queue ≡ (kernel (one_cpu 90)).waiting_queue)
            × (k'.heap ≡ (kernel (one_cpu 90)).heap)
            × (k'.idle_proc ≡ (kernel (one_cpu 90)).idle_proc))
          (yield_out 1 (kernel (one_cpu 90))))
    × (90 ≢ null → 0 < 0 → yield_out 1 (kernel (one_cpu 90)) ≡ panic "switch_out lock count")
    × (90 ≡ null → yield_out 1 (kernel (one_cpu 90)) ≡ fault)
yield_out_lem_example = yield_out_lem 0 0 90 (kernel (one_cpu 90)) (one_cpu-Ready 90) refl refl

-- The CPU holds lock 4.
abbrev holding_four : Machine
holding_four = acquired 0 4 (one_cpu 90)

holding_four-Holds : Holds 0 4 90 holding_four
unfolding find_cpu
holding_four-Holds = record {
  inside = record { here = refl; off = refl; deep = omega arith; bounded = omega arith };
  layer = refl;
  held = refl;
  proc = refl;
}

sleep_out_lem_example :
    Returns
      (λ (q, intena) k'.
        (q ≡ 90)
        × (intena ≡ false)
        × Holds 0 sched_lock 90 k'.machine
        × ((k'.machine.lock 4).locked ≡ false)
        × ((l : LockId) → l ≢ 4 → l ≢ sched_lock → k'.machine.lock l ≡ holding_four.lock l)
        × (k'.proc 90 ≡ record { state = sleeping; chan = 7; ctx = 0; pid = 90 })
        × ((a : Ptr) → a ≢ 90 → k'.proc a ≡ (kernel holding_four).proc a)
        × (k'.ready_queue ≡ (kernel holding_four).ready_queue)
        × (k'.waiting_queue ≡ (kernel holding_four).waiting_queue))
      (sleep_out 1 7 (some 4) (kernel holding_four))
sleep_out_lem_example =
    sleep_out_lem 0 0 4 90 7 (kernel holding_four) holding_four-Holds (omega arith) (omega arith)
      refl
