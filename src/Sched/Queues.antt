-- ===== src/Sched/Queues.antt =====
-- The two queues of sched.c together: what taking a process from one, and putting one on the other,
-- does to both.
use guide_os.Prelude.{
  ℕ, suc, ◌<◌, ◌≡◌, sym, subst, ap, refl, false, true, [], ◌∷◌, ◌++◌, length, arith, Returns,
  weaken-Returns, bind-Returns, returns, Ptr,
}
use guide_os.Heap.{Heap}
use guide_os.Heap.Chain.{Nodes, Apart, Free, not-has_of_Apart, Apart-tail, not-has_right}
use guide_os.Dequeue.{Dequeue, pop_front}
use guide_os.Dequeue.PopFront.{pop_front-cons}
use guide_os.Spinlock.Laws.{
  Ready, Restored, acquired, acquire-free, release-acquired, Restored-released,
}
use guide_os.Sched.{Kernel, sched_lock, sched_add, is_runnable, pop_ready, push_ready, push_waiting}
use guide_os.Sched.Locked.{with_heap-Returns}
use guide_os.Sched.Wakeup.{Queues, IsDequeue-frame, push_woken, pool_cases}

Apart-sym : (xs ys : Nodes) → Apart xs ys → Apart ys xs
Apart-sym xs [] h = tt
Apart-sym xs ((t, d) ∷ ys) h =
    (not-has_of_Apart t d xs ys h, Apart-sym xs ys (Apart-tail t d xs ys h))

swap :
    (h : Heap) (w r : Dequeue) (ws rs : Nodes) (n : ℕ) → Queues h w r ws rs n → Queues h r w rs ws n
swap h w r ws rs n qs = record {
  waiting_is = qs.ready_is;
  ready_is = qs.waiting_is;
  apart = Apart-sym ws rs qs.apart;
  free = qs.free;
  room = qs.room;
}

-- The first ready process leaves its queue, and its node is free for another.
pop_front-Queues :
    (h : Heap) (w r : Dequeue) (ws : Nodes) (t p : Ptr) (rs : Nodes) (n : ℕ)
    → Queues h w r ws ((t, p) ∷ rs) n
    → Returns (λ (d, r') h'. (d ≡ p) × Queues h' w r' ws rs (suc n)) (pop_front r h)
pop_front-Queues h w r ws t p rs n qs =
    weaken-Returns (pop_front-cons h r t p rs qs.free qs.ready_is)
      λ (d, r') h' (same, is, gone, pool, free, outside). (
        same,
        record {
          waiting_is =
              IsDequeue-frame h.cell h'.cell w ws
                (λ a i. outside a (not-has_right a ws ((t, p) ∷ rs) qs.apart i)) qs.waiting_is;
          ready_is = is;
          apart = Apart-tail t p ws rs qs.apart;
          free = subst (λ l. Free h'.cell l) (sym pool) free;
          room = omega (arith, ap length pool, qs.room);
        },
      )

-- The parts of the state that the queues are no part of
pub record Kept (k k' : Kernel) : Type 0 where
  pub machine : k'.machine ≡ k.machine
  pub proc : k'.proc ≡ k.proc
  pub idle_proc : k'.idle_proc ≡ k.idle_proc

abbrev pub QueuesOf : Kernel → Nodes → Nodes → ℕ → Type 0
QueuesOf k = Queues k.heap k.waiting_queue k.ready_queue

module _ (k : Kernel) (ws rs : Nodes) (n : ℕ) where
  pub pop_ready-Queues :
      (t p : Ptr)
      → QueuesOf k ws ((t, p) ∷ rs) n
      → Returns (λ p' k'. (p' ≡ p) × QueuesOf k' ws rs (suc n) × Kept k k') (pop_ready k)
  pop_ready-Queues t p qs =
      bind-Returns
        (with_heap-Returns k (pop_front-Queues k.heap k.waiting_queue k.ready_queue ws t p rs n qs))
        λ (d, q) k' (h, (same, qs'), e).
          rw e (returns (same, qs', record { machine = refl; proc = refl; idle_proc = refl }))

  pub push_ready-Queues :
      (p : Ptr)
      → QueuesOf k ws rs (suc n)
      → Returns
          (λ r k'. (b : Ptr) × QueuesOf k' ws (rs ++ ((b, p) ∷ [])) n × Kept k k')
          (push_ready p k)
  push_ready-Queues p qs =
      let (b, bs, pool) = pool_cases k.heap.pool (omega (arith, qs.room)) in
      bind-Returns
        (with_heap-Returns k
          (push_woken k.heap k.waiting_queue k.ready_queue p b bs ws rs n pool qs))
        λ q k' (h, qs', e).
          rw e (returns (b, qs', record { machine = refl; proc = refl; idle_proc = refl }))

  pub push_waiting-Queues :
      (p : Ptr)
      → QueuesOf k ws rs (suc n)
      → Returns
          (λ r k'. (b : Ptr) × QueuesOf k' (ws ++ ((b, p) ∷ [])) rs n × Kept k k')
          (push_waiting p k)
  push_waiting-Queues p qs =
      let (b, bs, pool) = pool_cases k.heap.pool (omega (arith, qs.room)) in
      bind-Returns
        (with_heap-Returns k (
          push_woken k.heap k.ready_queue k.waiting_queue p b bs rs ws n pool
            (swap k.heap k.waiting_queue k.ready_queue ws rs (suc n) qs)))
        λ q k' (h, qs', e). rw e (
          returns (
            b,
            swap h k.ready_queue q rs (ws ++ ((b, p) ∷ [])) n qs',
            record { machine = refl; proc = refl; idle_proc = refl },
          ))

-- `sched_add` of a runnable process puts it at the end of the ready queue.
pub sched_add-Queues :
    (spins i : ℕ) (p : Ptr) (k : Kernel) (ws rs : Nodes) (n : ℕ)
    → Ready i k.machine
    → (0 < (k.machine.cpus i).int_disable_layer → k.machine.if_flag ≡ false)
    → (k.machine.lock sched_lock).locked ≡ false
    → is_runnable (k.proc p).state ≡ true
    → QueuesOf k ws rs (suc n)
    → Returns
        (λ r k'.
          (b : Ptr) × QueuesOf k' ws (rs ++ ((b, p) ∷ [])) n
          × (k'.proc ≡ k.proc)
          × (k'.idle_proc ≡ k.idle_proc)
          × Restored sched_lock i k.machine k'.machine)
        (sched_add (suc spins) p k)
unfolding sched_add
sched_add-Queues spins i p k ws rs n ready off free able qs =
    rw (able, acquire-free spins sched_lock i k.machine ready free)
      (bind-Returns
        (push_ready-Queues (record k { machine = acquired i sched_lock k.machine }) ws rs n p qs)
        λ r k' (b, qs', kept).
          rw (kept.machine, release-acquired sched_lock i k.machine ready)
            (returns (
              b,
              qs',
              kept.proc,
              kept.idle_proc,
              Restored-released sched_lock i k.machine ready off,
            )))
