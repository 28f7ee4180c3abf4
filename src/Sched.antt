-- ===== src/Sched.antt =====
-- kernel/src/proc/sched.c with kernel/include/proc.h: the queues of processes, and what yields,
-- sleeps and wakeups do to them. A process is the address of its `struct proc`; `sched_ctxsw`
-- is assembly, so a function that calls it is cut there into the part before and the part after.
pub mod Locked
pub mod Switch
mod Tests
pub mod Wakeup
pub mod Yield
pub mod Sleep
pub mod Queues
pub mod Start
pub mod Steady
pub mod Rounds
pub mod Turns
use guide_os.Prelude.{
  ℕ, zero, suc, ◌+◌, Bool, true, false, not, ◌&&◌, Option, none, some, ◌==◌, if◌then◌else◌, ltb,
  Run, Cmd, ok, panic, fault, out_of_fuel, pure, ◌>>=◌, ◌>>◌, and_then, Ptr, null,
}
use guide_os.Heap.{Heap}
use guide_os.Dequeue.{
  Dequeue, Iterator, push_back, pop_front, iterator, iterator_next, iterator_has_next,
  iterator_delete,
}
use guide_os.Cpu.{Cpu, Machine, LockId, update, cur_cpu, cpu_id, curproc}
use guide_os.Spinlock.{init_lock, holding, acquire, release}

-- `enum proc_state`
pub data ProcState : Type 0 where
  unused creation sleeping runnable running zombie : ProcState

abbrev pub is_runnable : ProcState → Bool
is_runnable runnable = true
is_runnable _ = false

abbrev pub is_running : ProcState → Bool
is_running running = true
is_running _ = false

-- The fields of `struct proc` that the scheduler reads and writes.
pub record Proc : Type 0 where
  pub state : ProcState
  pub chan : Ptr
  pub ctx : Ptr
  pub pid : ℕ

pub record Kernel : Type 0 where
  pub machine : Machine
  pub heap : Heap
  pub proc : Ptr → Proc
  pub idle_proc : ℕ → Ptr
  pub ready_queue : Dequeue
  pub waiting_queue : Dequeue

-- `sched.lock`
abbrev pub sched_lock : LockId
sched_lock = 0

-- A command on a part of the state, as one on the whole.
abbrev pub with_machine : {A : Type 0} → Kernel → Run Machine A → Run Kernel A
with_machine k (ok a m) = ok a (record k { machine = m })
with_machine k (panic s) = panic s
with_machine k fault = fault
with_machine k out_of_fuel = out_of_fuel

abbrev pub on_machine : {A : Type 0} → Cmd Machine A → Cmd Kernel A
on_machine c k = with_machine k (c k.machine)

abbrev pub with_heap : {A : Type 0} → Kernel → Run Heap A → Run Kernel A
with_heap k (ok a h) = ok a (record k { heap = h })
with_heap k (panic s) = panic s
with_heap k fault = fault
with_heap k out_of_fuel = out_of_fuel

abbrev pub on_heap : {A : Type 0} → Cmd Heap A → Cmd Kernel A
on_heap c k = with_heap k (c k.heap)

abbrev pub set_proc : Ptr → Proc → Cmd Kernel (Unit {0})
set_proc p v k = ok tt (record k { proc = update k.proc p v })

-- `cur_cpu()->proc = p`, for the CPU `i`
abbrev pub set_cpu_proc : ℕ → Ptr → Cmd Kernel (Unit {0})
set_cpu_proc i p k = ok tt (record k {
  machine = record (k.machine) {
    cpus = update k.machine.cpus i (record (k.machine.cpus i) { proc = p });
  };
})

abbrev pub push_ready : Ptr → Cmd Kernel (Unit {0})
push_ready p = do
  q ← (λ k. on_heap (push_back k.ready_queue p) k)
  (λ k. ok tt (record k { ready_queue = q }))

abbrev pub push_waiting : Ptr → Cmd Kernel (Unit {0})
push_waiting p = do
  q ← (λ k. on_heap (push_back k.waiting_queue p) k)
  (λ k. ok tt (record k { waiting_queue = q }))

abbrev pub pop_ready : Cmd Kernel Ptr
pop_ready = do
  (d, q) ← (λ k. on_heap (pop_front k.ready_queue) k)
  (λ k. ok d (record k { ready_queue = q }))

abbrev empty_queue : Dequeue
empty_queue = record { size = 0; head = null; tail = null }

-- `sched_init`. `spins` bounds the wait for a lock, here and below.
unfoldable pub sched_init : ℕ → Cmd Kernel (Unit {0})
sched_init spins = do
  on_machine (init_lock sched_lock)
  on_machine (acquire spins sched_lock)
  (λ k. ok tt (record k { ready_queue = empty_queue }))
  (λ k. ok tt (record k { waiting_queue = empty_queue }))
  on_machine (release sched_lock)

-- `sched_add`
unfoldable pub sched_add : ℕ → Ptr → Cmd Kernel (Unit {0})
sched_add spins p = do
  v ← (λ k. ok (k.proc p) k)
  if is_runnable v.state
      then (do on_machine (acquire spins sched_lock); push_ready p; on_machine (release sched_lock))
      else (λ k. panic "sched_add not ready")

-- In the loop of `sched_start` on CPU `c`, up to `sched_ctxsw`: the process that is picked.
unfoldable pub sched_pick : ℕ → Cmd Kernel Ptr
sched_pick c = do
  size ← (λ k. ok k.ready_queue.size k)
  p ← if ltb 0 size then pop_ready else pure null
  p' ← if p == null then (do i ← on_machine cpu_id; (λ k. ok (k.idle_proc i) k)) else pure p
  set_cpu_proc c p'
  v ← (λ k. ok (k.proc p') k)
  set_proc p' (record v { state = running })
  pure p'

-- The rest of the loop, when the process gives the CPU back.
unfoldable pub sched_put_back : ℕ → Cmd Kernel (Unit {0})
sched_put_back c = do
  p ← (λ k. ok (k.machine.cpus c).proc k)
  idle ← if p == null then pure null else (do i ← on_machine cpu_id; (λ k. ok (k.idle_proc i) k))
  v ← (λ k. ok (k.proc p) k)
  if not (p == null) && not (p == idle)
      then (if is_runnable v.state then push_ready p else push_waiting p)
      else pure tt
  set_cpu_proc c null

-- A read of a process; one through NULL faults.
abbrev pub proc_at : Ptr → Cmd Kernel Proc
proc_at p k = if p == null then fault else ok (k.proc p) k

-- `sched_switch_out` up to its `sched_ctxsw`: `int_enabled` of the CPU, kept in a local variable.
unfoldable pub switch_out : Cmd Kernel Bool
switch_out = do
  p ← on_machine curproc
  held ← on_machine (holding sched_lock)
  if held then pure tt else (λ k. panic "sched_swtich_out lock")
  i ← on_machine cur_cpu
  layer ← (λ k. ok (k.machine.cpus i).int_disable_layer k)
  if layer == 1 then pure tt else (λ k. panic "switch_out lock count")
  v ← proc_at p
  if is_running v.state then (λ k. panic "switching out running") else pure tt
  j ← on_machine cur_cpu
  (λ k. ok (k.machine.cpus j).int_enabled k)

-- `sched_switch_out` from there on, on whatever CPU the process runs then.
unfoldable pub switched_in : Bool → Cmd Kernel (Unit {0})
switched_in intena = do
  i ← on_machine cur_cpu
  (λ k. ok tt (record k {
    machine = record (k.machine) {
      cpus = update k.machine.cpus i (record (k.machine.cpus i) { int_enabled = intena });
    };
  }))

-- `sched_yield` up to the switch, and from there on
unfoldable pub yield_out : ℕ → Cmd Kernel Bool
yield_out spins = do
  on_machine (acquire spins sched_lock)
  p ← on_machine curproc
  v ← proc_at p
  if is_running v.state
      then (do q ← on_machine curproc; w ← proc_at q; set_proc q (record w { state = runnable }))
      else pure tt
  switch_out

unfoldable pub yield_in : Bool → Cmd Kernel (Unit {0})
yield_in intena = do switched_in intena; on_machine (release sched_lock)

-- `sched_sleep` up to the switch; a lock that is `none` is a NULL pointer
unfoldable pub sleep_out : ℕ → Ptr → Option LockId → Cmd Kernel (Ptr × Bool)
sleep_out spins chan none = do
  p ← on_machine curproc
  if p == null then (λ k. panic "sched_sleep") else (λ k. panic "sleep w/o lock")
sleep_out spins chan (some lk) = do
  p ← on_machine curproc
  if p == null then (λ k. panic "sched_sleep") else pure tt
  if lk == sched_lock
      then pure tt
      else (do on_machine (acquire spins sched_lock); on_machine (release lk))
  v ← (λ k. ok (k.proc p) k)
  set_proc p (record v { chan = chan; state = sleeping })
  intena ← switch_out
  pure (p, intena)

-- `sched_sleep` from there on
unfoldable pub sleep_in : ℕ → Ptr → LockId → Bool → Cmd Kernel (Unit {0})
sleep_in spins p lk intena = do
  switched_in intena
  v ← (λ k. ok (k.proc p) k)
  set_proc p (record v { chan = null })
  if lk == sched_lock
      then pure tt
      else (do on_machine (acquire spins lk); on_machine (release sched_lock))

-- The loop of `sched_wakeup` over the waiting queue, with the test of a process as a parameter:
-- the two queues that it leaves.
unfoldable pub wakeup_loop :
    ℕ → (Ptr → Bool) → Dequeue → Dequeue → Iterator → Cmd Heap (Dequeue × Dequeue)
wakeup_loop zero woken waiting ready it = λ h. out_of_fuel
wakeup_loop (suc fuel) woken waiting ready it =
    if iterator_has_next it
    then (do
      (p, it') ← iterator_next it
      if woken p
          then (do
            (waiting', it'') ← iterator_delete waiting it'
            ready' ← push_back ready p
            wakeup_loop fuel woken waiting' ready' it'')
          else wakeup_loop fuel woken waiting ready it')
    else pure (waiting, ready)

-- `sched_wakeup`; the loop gets a round for each process that waits, and one more
unfoldable pub sched_wakeup : ℕ → Ptr → Cmd Kernel (Unit {0})
sched_wakeup spins chan = do
  on_machine (acquire spins sched_lock)
  (waiting, ready) ← (λ k.
      on_heap
        (wakeup_loop (k.waiting_queue.size + 1) (λ p. (k.proc p).chan == chan) k.waiting_queue
          k.ready_queue (iterator k.waiting_queue))
        k)
  (λ k. ok tt (record k { waiting_queue = waiting; ready_queue = ready }))
  on_machine (release sched_lock)
