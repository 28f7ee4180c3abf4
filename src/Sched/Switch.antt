-- ===== src/Sched/Switch.antt =====
-- What the loop of `sched_start` and a sleeping process do on their side of a context switch.
use guide_os.Prelude.{
  ℕ, ◌≡◌, refl, ◌≢◌, true, false, List, [], ◌∷◌, ◌++◌, ==_of_ne, ==_refl, Bool-cases, inl, inr, ok,
  Returns, returns, bind-Returns, Ptr, null,
}
use guide_os.Heap.Chain.{Nodes, Free}
use guide_os.Dequeue.Abstract.{IsDequeue}
use guide_os.Cpu.{update, cpu_id}
use guide_os.Cpu.Nesting.{RunsOn}
use guide_os.Spinlock.Laws.{cur_cpu-ok}
use guide_os.Sched.{Kernel, running, is_runnable, sched_pick, sched_put_back}
use guide_os.Sched.Locked.{push_ready-Returns, push_waiting-Returns}

-- The state once CPU `c` has chosen `p`.
abbrev chosen : ℕ → Ptr → Kernel → Kernel
chosen c p k = record k {
  machine = record (k.machine) {
    cpus = update k.machine.cpus c (record (k.machine.cpus c) { proc = p });
  };
  proc = update k.proc p (record (k.proc p) { state = running });
}

-- With an empty ready queue the CPU's idle process is picked and runs; nothing else changes.
pub sched_pick-idle :
    (c i : ℕ) (k : Kernel)
    → k.ready_queue.size ≡ 0
    → RunsOn i k.machine
    → k.machine.if_flag ≡ false
    → sched_pick c k ≡ ok (k.idle_proc i) (chosen c (k.idle_proc i) k)
unfolding sched_pick cpu_id
sched_pick-idle c i k none_ready here off = rw (none_ready, cur_cpu-ok i k.machine here off) refl

-- When process `p` gives CPU `c` back, it joins the ready queue if it is runnable and the waiting
-- queue otherwise, and the CPU has no current process.
pub sched_put_back_lem :
    (c i : ℕ) (p b : Ptr) (bs : List Ptr) (ws rs : Nodes) (k : Kernel)
    → (k.machine.cpus c).proc ≡ p
    → p ≢ null
    → p ≢ k.idle_proc i
    → RunsOn i k.machine
    → k.machine.if_flag ≡ false
    → IsDequeue k.heap.cell k.waiting_queue ws
    → IsDequeue k.heap.cell k.ready_queue rs
    → Free k.heap.cell (b ∷ bs)
    → k.heap.pool ≡ b ∷ bs
    → Returns
        (λ r k'.
          (is_runnable (k.proc p).state ≡ true
            → IsDequeue k'.heap.cell k'.ready_queue (rs ++ ((b, p) ∷ []))
              × (k'.waiting_queue ≡ k.waiting_queue))
          × (is_runnable (k.proc p).state ≡ false
              → IsDequeue k'.heap.cell k'.waiting_queue (ws ++ ((b, p) ∷ []))
                × (k'.ready_queue ≡ k.ready_queue))
          × (k'.proc ≡ k.proc)
          × ((k'.machine.cpus c).proc ≡ null))
        (sched_put_back c k)
unfolding sched_put_back cpu_id
sched_put_back_lem c i p b bs ws rs k here some_proc busy runs off waiting ready blocks pool =
    rw (here, ==_of_ne p null some_proc)
      (rw (cur_cpu-ok i k.machine runs off, ==_of_ne p (k.idle_proc i) busy)
        (elim (Bool-cases (is_runnable (k.proc p).state)) [
          | inl able ↦ rw able (
              bind-Returns (push_ready-Returns p b bs k rs ready blocks pool)
                λ r k' (q, h, pushed, e).
                  rw e (returns (λ is. (pushed.0, refl), λ is. cc, refl, rw (==_refl c) refl)))
          | inr asleep ↦ rw asleep (
              bind-Returns (push_waiting-Returns p b bs k ws waiting blocks pool)
                λ r k' (q, h, pushed, e).
                  rw e (returns (λ is. cc, λ is. (pushed.0, refl), refl, rw (==_refl c) refl)))
        ]))
