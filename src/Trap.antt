-- ===== src/Trap.antt =====
-- `handle_interrupt` of kernel/src/arch/x86/interrupt.c and kernel/src/syscall.c. A handler that
-- yields gets to the switch in `sched_yield`, and is cut there.
pub mod Timer
pub mod Syscall
mod Tests
use guide_os.Prelude.{
  ℕ, ◌+◌, Bool, true, false, not, ◌&&◌, Option, none, some, List, ◌==◌, if◌then◌else◌, Cmd,
  map_state, ok, panic, pure, ◌>>=◌, ◌>>◌, Ptr, null,
}
use guide_os.Cpu.{Machine, update, cpu_id, curproc, push_int_disable, pop_int_disable}
use guide_os.Descriptors.{vector_syscall}
use guide_os.Sched.{Kernel, Proc, ProcState, runnable, is_running, set_proc, yield_out}
use guide_os.Console.Input.{Console, on_kernel, console_isr_handler}
use guide_os.Systick.{systick_increment}

-- The vectors of kernel/include/arch/x86/interrupt_vectors.h
abbrev pub vector_bp : ℕ
vector_bp = 3

abbrev pub vector_double_fault : ℕ
vector_double_fault = 8

abbrev pub vector_gp : ℕ
vector_gp = 13

abbrev pub vector_page_fault : ℕ
vector_page_fault = 14

abbrev pub vector_timer : ℕ
vector_timer = 32

abbrev pub vector_com1 : ℕ
vector_com1 = 36

abbrev pub vector_spurious : ℕ
vector_spurious = 63

-- The kernel as interrupts see it; `eois` counts the calls of `lapic_eoi`.
pub record Trapped : Type 0 where
  pub console : Console
  pub ticks : ℕ
  pub eois : ℕ

abbrev pub on_console : {A : Type 0} → Cmd Console A → Cmd Trapped A
on_console c s = map_state (λ x. record s { console = x }) (c s.console)

abbrev pub on_sched : {A : Type 0} → Cmd Kernel A → Cmd Trapped A
on_sched c = on_console (on_kernel c)

abbrev pub on_machine : {A : Type 0} → Cmd Machine A → Cmd Trapped A
on_machine c = on_sched (λ k. map_state (λ m. record k { machine = m }) (c k.machine))

abbrev pub lapic_eoi : Cmd Trapped (Unit {0})
lapic_eoi s = ok tt (record s { eois = s.eois + 1 })

-- `curproc()->state`
abbrev pub cur_state : Cmd Trapped ProcState
cur_state = do p ← on_machine curproc; (λ s. ok (s.console.kernel.proc p).state s)

-- `curproc() && curproc()->state == RUNNING`, and what follows in the timer's case
unfoldable pub expire : Cmd Trapped (Unit {0})
expire = do
  p ← on_machine curproc
  runs ← if p == null then pure false else (do v ← cur_state; pure (is_running v))
  if runs
      then (do
        q ← on_machine curproc
        on_sched (λ k. set_proc q (record (k.proc q) { state = runnable }) k))
      else pure tt

unfoldable pub timer : Cmd Trapped (Unit {0})
timer = do
  i ← on_machine cpu_id
  (λ s. ok tt (record s { ticks = if i == 0 then systick_increment s.ticks else s.ticks }))
  expire
  lapic_eoi

-- `sys_con_read`: its result is 0
unfoldable pub sys_con_read : Cmd Trapped ℕ
sys_con_read = do
  p ← on_machine curproc
  on_machine push_int_disable
  v ← (λ s. ok (s.console.kernel.proc p) s)
  if is_running v.state then on_sched (set_proc p (record v { state = runnable })) else pure tt
  on_machine pop_int_disable
  pure 0

-- Where a handler stands: at its end, with the `rax` of the frame, or at the switch
pub data Stand : Type 0 where
  ended : ℕ → Stand
  switching : Bool → Stand

-- `handle_syscall`, with the number in `rax`
unfoldable pub handle_syscall : ℕ → ℕ → Cmd Trapped Stand
handle_syscall spins rax =
    if rax == 0x01
    then (do intena ← on_sched (yield_out spins); pure (switching intena))
    else if rax == 0x10
    then (do r ← sys_con_read; pure (ended r))
    else pure (ended rax)

-- The `switch` of `handle_interrupt`; `received` is what the serial port has received.
unfoldable pub dispatch : ℕ → List ℕ → ℕ → ℕ → Cmd Trapped Stand
dispatch spins received trap_no rax =
    if trap_no == vector_spurious
    then (do lapic_eoi; pure (ended rax))
    else if trap_no == vector_bp
    then pure (ended rax)
    else if trap_no == vector_timer
    then (do timer; pure (ended rax))
    else if trap_no == vector_com1
    then (do on_console (console_isr_handler spins received); lapic_eoi; pure (ended rax))
    else if trap_no == vector_syscall
    then handle_syscall spins rax
    else if trap_no == vector_page_fault
    then (λ s. panic "pgfault")
    else (λ s. panic "interrupt_handler")

-- The end of `handle_interrupt`
unfoldable pub preempt : ℕ → Stand → Cmd Trapped Stand
preempt spins (switching intena) = pure (switching intena)
preempt spins (ended rax) = do
  p ← on_machine curproc
  stopped ← if p == null then pure false else (do v ← cur_state; pure (not (is_running v)))
  if stopped
      then (do intena ← on_sched (yield_out spins); pure (switching intena))
      else pure (ended rax)

unfoldable pub handle_interrupt : ℕ → List ℕ → ℕ → ℕ → Cmd Trapped Stand
handle_interrupt spins received trap_no rax =
    if trap_no == vector_double_fault
    then (λ s. panic "A double fault has occurred")
    else if trap_no == vector_gp
    then (λ s. panic "GP")
    else (do stand ← dispatch spins received trap_no rax; preempt spins stand)
