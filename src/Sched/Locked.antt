-- ===== src/Sched/Locked.antt =====
-- `sched_wakeup` of sched.c as a whole, with the scheduler's lock.
use guide_os.Prelude.{
  ℕ, suc, ◌+◌, ◌<◌, ◌≡◌, refl, ap, false, List, [], ◌∷◌, ◌++◌, arith, count_if, ◌==◌, Run, Returns,
  returns, bind-Returns, weaken-Returns, ok, ◌^◌, Ptr,
}
use guide_os.Heap.{Heap}
use guide_os.Heap.Chain.{Nodes, items, Free}
use guide_os.Dequeue.{Dequeue, iterator}
use guide_os.Dequeue.Abstract.{IsDequeue}
use guide_os.Dequeue.PushBack.{Pushed, push_back-append}
use guide_os.Cpu.{Machine}
use guide_os.Cpu.Nesting.{pushed}
use guide_os.Spinlock.{release}
use guide_os.Spinlock.Section.{free_lock, release-section}
use guide_os.Spinlock.Laws.{
  Inside, Ready, acquired, acquire-free, Restored, release-acquired, Restored-released,
}
use guide_os.Sched.{Kernel, sched_lock, with_heap, sched_wakeup, push_ready, push_waiting}
use guide_os.Sched.Wakeup.{Queues, Woken, wakeup_loop-Woken}

pub with_heap-Returns :
    {A : Type 0} {P : A → Heap → Type 0} {r : Run Heap A} (k : Kernel)
    → Returns P r
    → Returns (λ a k'. (h : Heap) × P a h × (k' ≡ record k { heap = h })) (with_heap k r)
with_heap-Returns k (returns {s = h} p) = returns (h, p, refl)

pub push_ready-Returns :
    (p b : Ptr) (bs : List Ptr) (k : Kernel) (rs : Nodes)
    → IsDequeue k.heap.cell k.ready_queue rs
    → Free k.heap.cell (b ∷ bs)
    → k.heap.pool ≡ b ∷ bs
    → Returns
        (λ r k'.
          (q : Dequeue) × (h : Heap) × Pushed k.heap (rs ++ ((b, p) ∷ [])) bs q h
          × (k' ≡ record k { heap = h; ready_queue = q }))
        (push_ready p k)
push_ready-Returns p b bs k rs is blocks pool =
    bind-Returns
      (with_heap-Returns k (push_back-append k.heap k.ready_queue rs p b bs is blocks pool))
      λ q k' (h, pushed, e).
        returns (q, h, pushed, ap {A = Kernel} (λ x. record x { ready_queue = q }) e)

pub push_waiting-Returns :
    (p b : Ptr) (bs : List Ptr) (k : Kernel) (ws : Nodes)
    → IsDequeue k.heap.cell k.waiting_queue ws
    → Free k.heap.cell (b ∷ bs)
    → k.heap.pool ≡ b ∷ bs
    → Returns
        (λ r k'.
          (q : Dequeue) × (h : Heap) × Pushed k.heap (ws ++ ((b, p) ∷ [])) bs q h
          × (k' ≡ record k { heap = h; waiting_queue = q }))
        (push_waiting p k)
push_waiting-Returns p b bs k ws is blocks pool =
    bind-Returns
      (with_heap-Returns k (push_back-append k.heap k.waiting_queue ws p b bs is blocks pool))
      λ q k' (h, pushed, e).
        returns (q, h, pushed, ap {A = Kernel} (λ x. record x { waiting_queue = q }) e)

-- What `sched_wakeup` does to the queues, with whatever machine the release of the lock leaves
sched_wakeup-Released :
    (spins i : ℕ) (chan : Ptr) (k : Kernel) (ws rs : Nodes) (m : Machine)
    → Ready i k.machine
    → (k.machine.lock sched_lock).locked ≡ false
    → release sched_lock (acquired i sched_lock k.machine) ≡ ok tt m
    → Queues k.heap k.waiting_queue k.ready_queue ws rs
        (count_if (λ p. (k.proc p).chan == chan) (items ws))
    → Returns
        (λ r k'.
          Woken
            (λ p. (k.proc p).chan == chan)
            []
            (items ws)
            (items rs)
            (k'.waiting_queue, k'.ready_queue)
            k'.heap
          × (k'.proc ≡ k.proc)
          × (k'.machine ≡ m))
        (sched_wakeup (suc spins) chan k)
unfolding sched_wakeup
sched_wakeup-Released spins i chan k ws rs m ready free back qs =
    rw (acquire-free spins sched_lock i k.machine ready free) (
      bind-Returns
        (with_heap-Returns (record k { machine = acquired i sched_lock k.machine })
          (wakeup_loop-Woken (λ p. (k.proc p).chan == chan) (k.waiting_queue.size + 1) k.heap
            k.waiting_queue k.ready_queue (iterator k.waiting_queue) [] ws rs qs qs.waiting_is.head
            (omega (arith, qs.waiting_is.size))))
        λ (w, r) k' (h, woken, e). rw (e, back) (returns (woken, refl, refl)))

-- `sched_wakeup(chan)` moves exactly the processes whose `chan` it is from the waiting queue to the
-- end of the ready queue, in order.
pub sched_wakeup_lem :
    (spins i : ℕ) (chan : Ptr) (k : Kernel) (ws rs : Nodes)
    → Ready i k.machine
    → (0 < (k.machine.cpus i).int_disable_layer → k.machine.if_flag ≡ false)
    → (k.machine.lock sched_lock).locked ≡ false
    → Queues k.heap k.waiting_queue k.ready_queue ws rs
        (count_if (λ p. (k.proc p).chan == chan) (items ws))
    → Returns
        (λ r k'.
          Woken
            (λ p. (k.proc p).chan == chan)
            []
            (items ws)
            (items rs)
            (k'.waiting_queue, k'.ready_queue)
            k'.heap
          × (k'.proc ≡ k.proc)
          × Restored sched_lock i k.machine k'.machine)
        (sched_wakeup (suc spins) chan k)
sched_wakeup_lem spins i chan k ws rs ready off free qs =
    weaken-Returns
      (sched_wakeup-Released spins i chan k ws rs _ ready free
        (release-acquired sched_lock i k.machine ready) qs)
      λ r k' (woken, procs, e).
        (woken, procs, rw e (Restored-released sched_lock i k.machine ready off))

-- Within a critical section it leaves the machine as it was.
pub sched_wakeup-Inside :
    (spins i : ℕ) (chan : Ptr) (k : Kernel) (ws rs : Nodes)
    → Inside i k.machine
    → (k.machine.cpus i).int_disable_layer + 2 < 2 ^ 32
    → k.machine.lock sched_lock ≡ free_lock
    → Queues k.heap k.waiting_queue k.ready_queue ws rs
        (count_if (λ p. (k.proc p).chan == chan) (items ws))
    → Returns
        (λ r k'.
          Woken
            (λ p. (k.proc p).chan == chan)
            []
            (items ws)
            (items rs)
            (k'.waiting_queue, k'.ready_queue)
            k'.heap
          × (k'.proc ≡ k.proc)
          × (k'.machine ≡ k.machine))
        (sched_wakeup (suc spins) chan k)
sched_wakeup-Inside spins i chan k ws rs in_ room free qs =
    sched_wakeup-Released spins i chan k ws rs k.machine
      (record { here = in_.here; bounded = room }) (ap (λ l. l.locked) free)
      (release-section sched_lock i k.machine in_ room free) qs
