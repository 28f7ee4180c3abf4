-- ===== src/Mpmain.antt =====
-- `mpmain` of kernel/src/kmain.c: the first process is made, and `sched_start` of
-- kernel/src/proc/sched.c sets the scheduler up and switches to it.
pub mod Table
pub mod Alloc
pub mod Node
pub mod Idle
pub mod First
mod Tests
use guide_os.Prelude.{
  ℕ, zero, suc, Bool, Option, none, some, List, [], ◌∷◌, get_or, Run, Cmd, map_state, ok, panic,
  fault, out_of_fuel, ◌==◌, if◌then◌else◌, pure, ◌>>=◌, ◌>>◌, Ptr, null,
}
use guide_os.Cpu.{Machine, update, cur_cpu, cpu_id, enable_interrupt}
use guide_os.Spinlock.{init_lock, acquire}
use guide_os.PageAlloc.{Pages}
use guide_os.PageAlloc.Locked.{Locked, pgalloc_allocate}
use guide_os.Strings.{Mem}
use guide_os.Kmalloc.{Block, Kmem, kmalloc}
use guide_os.Sched.{
  Kernel, Proc, unused, running, sched_lock, sched_init, set_cpu_proc, set_proc, sched_add,
  sched_pick,
}
use guide_os.Proc.{
  ptable_lock, Entry, Stack, Procs, Created, kern_stack, page_kva, proc_alloc, sched_create_kproc,
}

-- The addresses in the kernel's image: of the entries of `ptable`, of three functions, and of the
-- kernel's page table
pub record Image : Type 0 where
  pub entries : List Ptr
  pub proc_kentry : Ptr
  pub kshell_main : Ptr
  pub idle_function : Ptr
  pub kern_pml4 : Ptr

pub record Boot : Type 0 where
  pub kernel : Kernel
  pub pages : Pages
  pub next_pid : ℕ
  pub stack : ℕ → Stack
  pub idle_stack : ℕ → Stack
  pub made : Ptr → Created
  pub size_list : List Block
  pub size_at : Ptr → ℕ
  pub bytes : Mem

abbrev pub on_kernel : {A : Type 0} → Cmd Kernel A → Cmd Boot A
on_kernel c b = map_state (λ k. record b { kernel = k }) (c b.kernel)

abbrev pub on_machine : {A : Type 0} → Cmd Machine A → Cmd Boot A
on_machine c b =
    map_state (λ m. record b { kernel = record (b.kernel) { machine = m } }) (c b.kernel.machine)

abbrev pub on_locked : {A : Type 0} → Cmd Locked A → Cmd Boot A
on_locked c b =
    map_state
      (λ l. record b { kernel = record (b.kernel) { machine = l.machine }; pages = l.pages })
      (c (record { machine = b.kernel.machine; pages = b.pages }))

-- The small-block allocator, with the pages and the machine
abbrev pub kmem : Boot → Kmem
kmem b = record {
  machine = b.kernel.machine;
  pages = b.pages;
  size_list = b.size_list;
  size_at = b.size_at;
  bytes = b.bytes;
}

abbrev pub with_kmem : Boot → Kmem → Boot
with_kmem b k = record b {
  kernel = record (b.kernel) { machine = k.machine };
  pages = k.pages;
  size_list = k.size_list;
  size_at = k.size_at;
  bytes = k.bytes;
}

abbrev pub on_kmem : {A : Type 0} → Cmd Kmem A → Cmd Boot A
on_kmem c b = map_state (with_kmem b) (c (kmem b))

-- The table of processes is the structs at the addresses of its entries.
abbrev pub entries_of : List Ptr → (Ptr → Proc) → List Entry
entries_of [] proc = []
entries_of (a ∷ as_) proc =
    record { state = (proc a).state; pid = (proc a).pid } ∷ entries_of as_ proc

abbrev pub procs_of : Image → Boot → Procs
procs_of im b = record {
  machine = b.kernel.machine;
  pages = b.pages;
  table = record { next_pid = b.next_pid; proc = entries_of im.entries b.kernel.proc };
  stack = b.stack;
}

abbrev pub no_entry : Entry
no_entry = record { state = unused; pid = 0 }

-- A cleared struct, and a `memset` of an array of them
abbrev pub blank : Proc
blank = record { state = unused; chan = null; ctx = null; pid = 0 }

unfoldable pub clear_all : List Ptr → (Ptr → Proc) → Ptr → Proc
clear_all [] proc = proc
clear_all (a ∷ as_) proc = clear_all as_ (update proc a blank)

abbrev pub ncpu_max : ℕ
ncpu_max = 128

-- The addresses in `idle_proc`
unfoldable pub idle_procs : ℕ → (ℕ → Ptr) → List Ptr
idle_procs zero idle_proc = []
idle_procs (suc i) idle_proc = idle_proc i ∷ idle_procs i idle_proc

abbrev pub clear : List Ptr → Cmd Boot (Unit {0})
clear as_ b = ok tt (record b { kernel = record (b.kernel) { proc = clear_all as_ b.kernel.proc } })

-- `proc_init` of kernel/src/proc/proc.c
unfoldable pub proc_init : ℕ → Image → Cmd Boot (Unit {0})
proc_init spins im = do
  on_machine (init_lock ptable_lock)
  clear im.entries
  (λ b. clear (idle_procs ncpu_max b.kernel.idle_proc) b)
  (λ b. ok tt (record b { next_pid = 1 }))
  on_kernel (sched_init spins)

-- The struct that `proc_alloc` has filled in
abbrev pub filled : Image → Procs → Option ℕ → (Ptr → Proc) → Ptr → Proc
filled im s none proc = proc
filled im s (some i) proc = update proc (get_or im.entries i null) (record {
  state = (get_or s.table.proc i no_entry).state;
  chan = null;
  ctx = (s.stack i).ctx;
  pid = (get_or s.table.proc i no_entry).pid;
})

abbrev pub allocated : Image → Boot → Option ℕ → Procs → Boot
allocated im b r s = record b {
  kernel = record (b.kernel) { machine = s.machine; proc = filled im s r b.kernel.proc };
  pages = s.pages;
  next_pid = s.table.next_pid;
  stack = s.stack;
}

abbrev pub finish : Image → Boot → Run Procs (Option ℕ) → Run Boot (Option ℕ)
finish im b (ok r s) = ok r (allocated im b r s)
finish im b (panic m) = panic m
finish im b fault = fault
finish im b out_of_fuel = out_of_fuel

-- `proc_alloc`
unfoldable pub new_proc : ℕ → Image → Cmd Boot (Option ℕ)
new_proc spins im b = finish im b (proc_alloc spins (procs_of im b))

-- `sched_create_kproc` of the process at `p`
unfoldable pub create : Image → Ptr → Stack → Ptr → Cmd Boot (Unit {0})
create im p stack func b =
    let c = sched_create_kproc im.proc_kentry im.kern_pml4 stack func in
    ok tt (record b {
      made = update b.made p c;
      kernel = record (b.kernel) {
        proc = update b.kernel.proc p (record (b.kernel.proc p) { state = c.state });
      };
    })

-- With the page that `pgalloc_allocate` returned, as in `proc_kern_init`
unfoldable pub idle_on : Image → ℕ → Ptr → Option ℕ → Cmd Boot (Unit {0})
idle_on im i p none = λ b. fault
idle_on im i p (some page) = do
  let stack = kern_stack (page_kva page)
  (λ b. ok tt (record b {
    idle_stack = update b.idle_stack i stack;
    kernel = record (b.kernel) {
      proc = update b.kernel.proc p (record (b.kernel.proc p) { ctx = stack.ctx; pid = 0 });
    };
  }))
  create im p stack im.idle_function

-- `sched_setup_idle_proc` of the idle process `p` of CPU `i`
unfoldable pub setup_idle_proc : ℕ → Image → ℕ → Ptr → Cmd Boot (Unit {0})
setup_idle_proc spins im i p = do page ← on_locked (pgalloc_allocate spins 0); idle_on im i p page

-- `sched_start` up to its loop: the CPU
unfoldable pub start_cpu : ℕ → Image → Cmd Boot ℕ
start_cpu spins im = do
  c ← on_machine cur_cpu
  on_kernel (set_cpu_proc c null)
  i ← on_machine cpu_id
  p ← (λ b. ok (b.kernel.idle_proc i) b)
  (λ b. on_kernel (set_proc p (record (b.kernel.proc p) { state = running })) b)
  setup_idle_proc spins im i p
  on_machine enable_interrupt
  on_machine (acquire spins sched_lock)
  pure c

-- `sizeof(struct dequeue_node)`
abbrev pub node_size : ℕ
node_size = 24

-- What `kmalloc` answered is what the heap of nodes hands out next.
abbrev pub stock : Ptr → Cmd Boot (Unit {0})
stock p b =
    if p == null
    then ok tt b
    else ok tt (record b {
      kernel = record (b.kernel) {
        heap = record (b.kernel.heap) { pool = p ∷ b.kernel.heap.pool };
      };
    })

-- The `kmalloc` of a node in `dequeue_push_back`, made ahead of the call. `kfree` leaves the block of a
-- node that is popped in the heap of nodes.
unfoldable pub take_node : ℕ → Cmd Boot (Unit {0})
take_node spins = do p ← on_kmem (kmalloc spins node_size); stock p

-- `mpmain` with the process that `proc_alloc` returned, up to the first `sched_ctxsw`: the process that
-- is switched to. A write through NULL faults.
unfoldable pub start_first : ℕ → Image → Option ℕ → Cmd Boot Ptr
start_first spins im none = λ b. fault
start_first spins im (some i) = do
  (λ b. create im (get_or im.entries i null) (b.stack i) im.kshell_main b)
  take_node spins
  on_kernel (sched_add spins (get_or im.entries i null))
  c ← start_cpu spins im
  on_kernel (sched_pick c)

unfoldable pub mpmain : ℕ → Image → Cmd Boot Ptr
mpmain spins im = do i ← new_proc spins im; start_first spins im i
