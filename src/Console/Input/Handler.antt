-- ===== src/Console/Input/Handler.antt =====
-- What `console_isr_handler` does with the bytes of the serial port.
use guide_os.Prelude.{
  ◌^◌, Bool, if◌then◌else◌, true, false, ◌==◌, ==_refl, count_if, ℕ, suc, ◌+◌, ◌%◌, ◌≤◌, ◌<◌, ◌≡◌,
  ◌∙◌, refl, sym, ap, List, [], ◌∷◌, ◌++◌, length, map, append_assoc, append-nil, arith, inl, inr,
  Bool-cases, ltb, panic, Returns, returns, bind-Returns, weaken-Returns, map_state-Returns,
}
use guide_os.Heap.Chain.{Nodes, items}
use guide_os.Cpu.{Machine}
use guide_os.Cpu.Nesting.{RunsOn}
use guide_os.Spinlock.Laws.{
  Ready, Inside-acquired, Restored, acquired, acquire-free, release-acquired, Restored-released,
}
use guide_os.Spinlock.Section.{free_lock}
use guide_os.Sched.{Kernel, sched_lock}
use guide_os.Sched.Wakeup.{Queues, Woken}
use guide_os.Sched.Locked.{sched_wakeup-Inside}
use guide_os.Fifo.{Fifo}
use guide_os.Fifo.Refine.{IsValid, contents, level-lt, length-contents, written}
use guide_os.Fifo.Fill.{write-room, write-full}
use guide_os.Console.Input.{
  Console, console_read_lock, fifo_channel, drain, handle_input, console_isr_handler,
}

if_true : {A : Type 0} {b : Bool} {x : A} (y : A) → b ≡ true → (if b then x else y) ≡ x
if_true y e = rw e refl

length-snoc : {A : Type 0} (xs : List A) (x : A) → length (xs ++ (x ∷ [])) ≡ length xs + 1
length-snoc [] x = refl
length-snoc (y ∷ xs) x = omega (arith, length-snoc xs x)

abbrev pub byte : ℕ → ℕ
byte c = c % 256

-- With room for them, all the bytes go to the end of the ring; otherwise the handler panics.
pub drain_lem :
    (cs : List ℕ) (f : Fifo)
    → IsValid f
    → (length (contents f) + length cs < f.buffer_size
        → Returns
            (λ r f'.
              (contents f' ≡ contents f ++ map byte cs)
              × IsValid f'
              × (f'.buffer_size ≡ f.buffer_size))
            (drain cs f))
      × (f.buffer_size ≤ length (contents f) + length cs → drain cs f ≡ panic "uart buffer full\n")
unfolding drain
drain_lem [] f v = (
  λ room. returns (sym (append-nil (contents f)), v, refl),
  λ over. absurd (omega (arith, level-lt v, length-contents v)),
)
drain_lem (c ∷ cs) f v = elim (Bool-cases (ltb (length (contents f) + 1) f.buffer_size)) [
  | inl e ↦
      let (done, more, valid) = write-room (byte c) v (ground arith) in
      let rest = drain_lem cs (written f (byte c)) valid in
      let longer : length (contents (written f (byte c))) ≡ length (contents f) + 1 =
        ap length more ∙ length-snoc (contents f) (byte c) in
      (
        λ room. rw done (
            weaken-Returns (rest.0 (omega (arith, longer))) λ r f' (held, v', size). (
              held
                  ∙ ap (λ q. q ++ map byte cs) more
                  ∙ append_assoc (contents f) (byte c ∷ []) (map byte cs),
              v',
              size,
            )),
        λ over. rw done (rest.1 (omega (arith, longer))),
      )
  | inr e ↦
      let full : length (contents f) + 1 ≡ f.buffer_size =
        ground (arith, level-lt v, length-contents v) in
      (λ room. absurd (omega arith), λ over. rw (write-full (byte c) v full) refl)
]

-- What the handler leaves: the bytes at the end of the ring, every process that waits for input in the
-- ready queue, and its lock free again.
pub record Handled (cs : List ℕ) (ws rs : Nodes) (i : ℕ) (s s' : Console) : Type 0 where
  pub held : contents s'.fifo ≡ contents s.fifo ++ map byte cs
  pub valid : IsValid s'.fifo
  pub woken :
      Woken
        (λ p. (s.kernel.proc p).chan == fifo_channel)
        []
        (items ws)
        (items rs)
        (s'.kernel.waiting_queue, s'.kernel.ready_queue)
        s'.kernel.heap
  pub procs : s'.kernel.proc ≡ s.kernel.proc
  pub machine : Restored console_read_lock i s.kernel.machine s'.kernel.machine
  pub screen : s'.screen ≡ s.screen

enabled_runs :
    (spins : ℕ) (cs : List ℕ) (s : Console)
    → s.uart_enable ≡ true
    → console_isr_handler spins cs s ≡ handle_input spins cs s
unfolding console_isr_handler
enabled_runs spins cs s enabled = if_true _ enabled

-- `console_isr_handler` with room for the bytes that have come in puts them in the ring, in order, and
-- makes exactly the processes that wait for input ready, in the order in which they wait; with more
-- bytes than that it panics.
pub console_isr_handler_lem :
    (spins i : ℕ) (cs : List ℕ) (ws rs : Nodes) (s : Console)
    → s.uart_enable ≡ true
    → IsValid s.fifo
    → RunsOn i s.kernel.machine
    → (s.kernel.machine.cpus i).int_disable_layer + 3 < 2 ^ 32
    → (0 < (s.kernel.machine.cpus i).int_disable_layer → s.kernel.machine.if_flag ≡ false)
    → (s.kernel.machine.lock console_read_lock).locked ≡ false
    → s.kernel.machine.lock sched_lock ≡ free_lock
    → Queues s.kernel.heap s.kernel.waiting_queue s.kernel.ready_queue ws rs
        (count_if (λ p. (s.kernel.proc p).chan == fifo_channel) (items ws))
    → (length (contents s.fifo) + length cs < s.fifo.buffer_size
        → Returns (λ r s'. Handled cs ws rs i s s') (console_isr_handler (suc spins) cs s))
      × (s.fifo.buffer_size ≤ length (contents s.fifo) + length cs
          → console_isr_handler (suc spins) cs s ≡ panic "uart buffer full\n")
unfolding handle_input
console_isr_handler_lem spins i cs ws rs s enabled valid here bounded off free sched_free qs =
    let drained = drain_lem cs s.fifo valid in
    rw (enabled_runs (suc spins) cs s enabled, acquire-free spins console_read_lock i m ready free)
      (
        λ room.
            bind-Returns
              (map_state-Returns (λ f. record s { kernel = kernel₁; fifo = f }) (drained.0 room))
              λ r s₁ (f, (held, valid', size), e). rw e (
                bind-Returns
                  (map_state-Returns (λ k. record s { kernel = k; fifo = f })
                    (sched_wakeup-Inside spins i fifo_channel kernel₁ ws rs
                      (Inside-acquired i console_read_lock m ready)
                      (rw (==_refl i) (omega (arith, bounded))) sched_free qs))
                  λ r' s₂ (k, (woken, procs, same), e').
                    rw (e', same, release-acquired console_read_lock i m ready)
                      (returns (record {
                        held = held;
                        valid = valid';
                        woken = woken;
                        procs = procs;
                        machine = Restored-released console_read_lock i m ready off;
                        screen = refl;
                      }))),
        λ over. rw (drained.1 over) refl,
      )
  where
    m : Machine
    m = s.kernel.machine

    ready : Ready i m
    ready = record { here = here; bounded = omega (arith, bounded) }

    kernel₁ : Kernel
    kernel₁ = record (s.kernel) { machine = acquired i console_read_lock m }
