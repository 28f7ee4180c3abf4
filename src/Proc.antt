-- ===== src/Proc.antt =====
-- kernel/src/proc/proc.c: the table of processes, its lock, and the kernel stacks; and how
-- kernel/src/proc/sched.c makes a kernel process.
pub mod Alloc
pub mod Pids
mod Tests
use guide_os.Prelude.{
  ℕ, zero, suc, String, ◌+◌, ◌-◌, ◌*◌, ◌%◌, ◌^◌, Bool, true, false, Option, none, some, List, [],
  ◌∷◌, replicate, ◌==◌, if◌then◌else◌, Cmd, map_state, ok, panic, fault, pure, ◌>>=◌, ◌>>◌, Ptr,
  null,
}
use guide_os.Memlayout.{p2kv}
use guide_os.Cpu.{Machine, LockId, update, curproc}
use guide_os.Spinlock.{acquire, release}
use guide_os.PageAlloc.{Pages}
use guide_os.PageAlloc.Locked.{Locked, pgalloc_allocate}
use guide_os.Sched.{ProcState, unused, creation, runnable, sched_lock}

abbrev pub is_unused : ProcState → Bool
is_unused unused = true
is_unused _ = false

-- The fields of `struct proc` that `proc_alloc` sets; the others are cleared.
pub record Entry : Type 0 where
  pub state : ProcState
  pub pid : ℕ

-- `struct ptable`
pub record Table : Type 0 where
  pub next_pid : ℕ
  pub proc : List Entry

abbrev pub later : Entry → Option (ℕ × List Entry) → Option (ℕ × List Entry)
later e none = none
later e (some (i, es)) = some (suc i, e ∷ es)

-- The loop of `proc_alloc`: the index of the entry it takes, and the table then; a pid is a `u16`
unfoldable pub take_unused : ℕ → List Entry → Option (ℕ × List Entry)
take_unused next_pid [] = none
take_unused next_pid (e ∷ es) =
    if is_unused e.state
    then some (0, record { state = creation; pid = next_pid % 2 ^ 16 } ∷ es)
    else later e (take_unused next_pid es)

abbrev pub counted : Table → Option (ℕ × List Entry) → Option ℕ × Table
counted t none = (none, t)
counted t (some (i, es)) = (some i, record { next_pid = t.next_pid + 1; proc = es })

-- `proc_alloc` between the `acquire` and the `release` of the lock of the table
unfoldable pub select_entry : Table → Option ℕ × Table
select_entry t = counted t (take_unused t.next_pid t.proc)

-- What `proc_kern_init` puts on the page at `kstack`: the trap frame, below it the return address,
-- and below that the saved registers
pub record Stack : Type 0 where
  pub kstack_top : ℕ
  pub tf : ℕ
  pub return_slot : ℕ
  pub ctx : ℕ

unfoldable pub kern_stack : ℕ → Stack
kern_stack kstack = record {
  kstack_top = kstack + 4096;
  tf = kstack + 4096 - 176;
  return_slot = kstack + 4096 - 176 - 8;
  ctx = kstack + 4096 - 176 - 8 - 56;
}

-- `ptable.lock`
abbrev pub ptable_lock : LockId
ptable_lock = 5

-- The table with its lock, the page allocator, and the stacks of the entries
pub record Procs : Type 0 where
  pub machine : Machine
  pub pages : Pages
  pub table : Table
  pub stack : ℕ → Stack

abbrev pub on_machine : {A : Type 0} → Cmd Machine A → Cmd Procs A
on_machine c s = map_state (λ m. record s { machine = m }) (c s.machine)

abbrev pub on_locked : {A : Type 0} → Cmd Locked A → Cmd Procs A
on_locked c s =
    map_state (λ l. record s { machine = l.machine; pages = l.pages })
      (c (record { machine = s.machine; pages = s.pages }))

-- The address of a page
abbrev pub page_kva : ℕ → Ptr
page_kva p = p2kv (4096 * p)

-- The stack of entry `i` on the page that `pgalloc_allocate` returned. The source does not test for NULL,
-- and nothing is mapped below address 4096, so without a page the first write to the stack faults.
abbrev pub stack_on : ℕ → Option ℕ → Cmd Procs (Unit {0})
stack_on i none s = fault
stack_on i (some p) s = ok tt (record s { stack = update s.stack i (kern_stack (page_kva p)) })

-- `proc_kern_init` of entry `i`. `spins` bounds the wait for a lock.
unfoldable pub proc_kern_init : ℕ → ℕ → Cmd Procs (Unit {0})
proc_kern_init spins i = do page ← on_locked (pgalloc_allocate spins 0); stack_on i page

abbrev pub init_selected : ℕ → Option ℕ → Cmd Procs (Unit {0})
init_selected spins none = pure tt
init_selected spins (some i) = proc_kern_init spins i

unfoldable pub proc_alloc : ℕ → Cmd Procs (Option ℕ)
proc_alloc spins = do
  on_machine (acquire spins ptable_lock)
  selected ← (λ s. let r = select_entry s.table in ok r.0 (record s { table = r.1 }))
  on_machine (release ptable_lock)
  init_selected spins selected
  pure selected

-- `trapframe_t`, and the frame that `memset` clears
pub record Trapframe : Type 0 where
  pub registers : ℕ → ℕ
  pub trap_no : ℕ
  pub error_code : ℕ
  pub rip : ℕ
  pub cs : ℕ
  pub flags : ℕ
  pub rsp : ℕ
  pub ss : ℕ

abbrev pub cleared_frame : Trapframe
cleared_frame = record {
  registers = λ r. 0;
  trap_no = 0;
  error_code = 0;
  rip = 0;
  cs = 0;
  flags = 0;
  rsp = 0;
  ss = 0;
}

-- The fields that `sched_create_kproc` of kernel/src/proc/sched.c fills in
pub record Created : Type 0 where
  pub name : String
  pub killed : Bool
  pub pgtable : Ptr
  pub state : ProcState
  pub is_user : Bool
  pub ctx_rip : Ptr
  pub tf : Trapframe

-- `sched_create_kproc`, with the address of `proc_kentry` and the kernel's page table
unfoldable pub sched_create_kproc : Ptr → Ptr → Stack → Ptr → Created
sched_create_kproc proc_kentry kern_pml4 stack func = record {
  name = "idle";
  killed = false;
  pgtable = kern_pml4;
  state = runnable;
  is_user = false;
  ctx_rip = proc_kentry;
  tf = record cleared_frame {
    rip = func;
    rsp = stack.kstack_top;
    cs = 0x1 * 8;
    ss = 0x2 * 8;
    flags = 0x200;
  };
}

-- `proc_kentry`, where a new process begins, with the scheduler's lock held
unfoldable pub proc_kentry : Cmd Machine (Unit {0})
proc_kentry = do
  p ← curproc
  if p == null then (λ m. panic "no curproc?") else pure tt
  release sched_lock
