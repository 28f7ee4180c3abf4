-- ===== src/Sched/Tests.antt =====
-- Runs of sched.c: the theorems at a machine of one CPU with two processes.
use guide_os.Prelude.{
  ℕ, zero, suc, ◌<◌, get_elem?, length, ◌≡◌, refl, ◌≢◌, true, false, none, some, [], ◌∷◌, arith,
  ◌==◌, if◌then◌else◌, Returns, Ptr,
}
use guide_os.Heap.{node, Cells, Heap}
use guide_os.Dequeue.{Dequeue}
use guide_os.Dequeue.Abstract.{IsDequeue}
use guide_os.Spinlock.Laws.{Restored, acquired}
use guide_os.Cpu.{find_cpu}
use guide_os.Heap.Chain.{Nodes}
use guide_os.Sched.Start.{start_loop}
use guide_os.Sched.Steady.{Steady}
use guide_os.Sched.Rounds.{start_loop_lem}
use guide_os.Sched.Turns.{yields, yields-IsTurn}
use guide_os.Spinlock.Fixture.{one_cpu, one_cpu-Ready}
use guide_os.Sched.{Kernel, ProcState, runnable, sleeping, sched_lock, sched_wakeup}
use guide_os.Sched.Wakeup.{Woken}
use guide_os.Sched.Locked.{sched_wakeup_lem}

-- The nodes 1 and 2 hold the processes 70 and 80; process 70 waits on channel 5.
abbrev cells : Cells
cells a = if a == 1 then some (node 70 2 0) else if a == 2 then some (node 80 0 1) else none

abbrev heap : Heap
heap = record { cell = cells; pool = 3 ∷ []; junk = λ a. node 0 0 0 }

abbrev two : Dequeue
two = record { size = 2; head = 1; tail = 2 }

abbrev empty : Dequeue
empty = record { size = 0; head = 0; tail = 0 }

two-IsDequeue : IsDequeue cells two ((1, 70) ∷ (2, 80) ∷ [])
two-IsDequeue = record {
  size = refl;
  head = refl;
  tail = refl;
  chain = (omega arith, refl, refl, (omega arith, refl, refl, tt));
}

empty-IsDequeue : IsDequeue cells empty []
empty-IsDequeue = record { size = refl; head = refl; tail = refl; chain = tt }

-- The two processes wait, or are ready; the CPU's process is `p`, in state `s` if it is 90.
abbrev asleep : Ptr → ProcState → Kernel
asleep p s = record {
  machine = one_cpu p;
  heap = heap;
  proc = λ a. record {
    state = if a == 90 then s else sleeping;
    chan = if a == 70 then 5 else 6;
    ctx = 0;
    pid = a;
  };
  idle_proc = λ i. 60;
  ready_queue = empty;
  waiting_queue = two;
}

abbrev awake : Kernel
awake = record (asleep 0 runnable) { ready_queue = two; waiting_queue = empty }

sched_wakeup_lem_example :
    Returns
      (λ r k'.
        Woken
          (λ p. ((asleep 0 runnable).proc p).chan == 5)
          []
          (70 ∷ 80 ∷ [])
          []
          (k'.waiting_queue, k'.ready_queue)
          k'.heap
        × (k'.proc ≡ (asleep 0 runnable).proc)
        × Restored sched_lock 0 (one_cpu 0) k'.machine)
      (sched_wakeup 1 5 (asleep 0 runnable))
sched_wakeup_lem_example =
    sched_wakeup_lem 0 0 5 (asleep 0 runnable) ((1, 70) ∷ (2, 80) ∷ []) [] (one_cpu-Ready 0)
      (λ pos. refl) refl
      (record {
        waiting_is = two-IsDequeue;
        ready_is = empty-IsDequeue;
        apart = (refl, (refl, tt));
        free = (omega arith, refl, refl, tt);
        room = omega arith;
      })

-- The scheduler's lock is held, and the processes 70 and 80 are ready.
abbrev looping : Kernel
looping = record awake { machine = acquired 0 sched_lock (one_cpu 0) }

looping-Steady : Steady 0 60 [] ((1, 70) ∷ (2, 80) ∷ []) 0 looping
unfolding find_cpu
looping-Steady = record {
  in_loop = record {
    inside = record { here = refl; off = refl; deep = omega arith; bounded = omega arith };
    layer = refl;
    held = refl;
  };
  idle_is = refl;
  queues = record {
    waiting_is = empty-IsDequeue;
    ready_is = two-IsDequeue;
    apart = tt;
    free = (omega arith, refl, refl, tt);
    room = omega arith;
  };
  eligible = λ j p at. ready_ok j p at;
}
  where
    ready_ok : (j : ℕ) (p : Ptr) → get_elem? (70 ∷ 80 ∷ []) j ≡ some p → (p ≢ 0) × (p ≢ 60)
    ready_ok zero p at = ground arith
    ready_ok (suc zero) p at = ground arith
    ready_ok (suc (suc j)) p at = cc

start_loop_lem_example :
    Returns
      (λ ps k'.
        (length ps ≡ 3)
        × ((j : ℕ) (p : Ptr)
            → j < 3
            → get_elem? (70 ∷ 80 ∷ []) j ≡ some p
            → get_elem? ps j ≡ some p)
        × (ws' : Nodes) × (rs' : Nodes) × Steady 0 60 ws' rs' 0 k')
      (start_loop 0 (yields (true ∷ false ∷ true ∷ [])) looping)
start_loop_lem_example =
    start_loop_lem 0 60 (yields (true ∷ false ∷ true ∷ [])) [] ((1, 70) ∷ (2, 80) ∷ []) 0 looping
      (yields-IsTurn 0 60 (true ∷ false ∷ true ∷ [])) (omega arith) looping-Steady
