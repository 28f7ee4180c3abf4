-- ===== src/Mpmain/Tests.antt =====
-- The theorem about `mpmain` at a machine of one CPU, with a table of one entry and four free pages.
use guide_os.Prelude.{
  ℕ, zero, suc, ◌-◌, ◌/◌, ◌≡◌, ◌≢◌, refl, none, some, [], ◌∷◌, get_elem?, arith, Returns, Ptr,
}
use guide_os.Heap.{node}
use guide_os.Spinlock.Fixture.{one_cpu, one_cpu-Ready}
use guide_os.PageAlloc.Fixture.{all_free, all_free-Valid, all_free-ThreeFree}
use guide_os.Sched.{unused}
use guide_os.Proc.{kern_stack, sched_create_kproc}
use guide_os.Memlayout.{kernbase}
use guide_os.Kmalloc.Add.{cover}
use guide_os.Kmalloc.Bytes.{Sound}
use guide_os.Mpmain.{Image, Boot, kmem, mpmain}
use guide_os.Mpmain.Alloc.{Booted}
use guide_os.Mpmain.First.{First, mpmain-First}

abbrev image : Image
image = record {
  entries = 70 ∷ [];
  proc_kentry = 500;
  kshell_main = 600;
  idle_function = 700;
  kern_pml4 = 4096;
}

abbrev boot : Boot
boot = record {
  kernel = record {
    machine = one_cpu 0;
    heap = record { cell = λ a. none; pool = []; junk = λ a. node 0 0 0 };
    proc = λ a. record { state = unused; chan = 0; ctx = 0; pid = 0 };
    idle_proc = λ i. 60;
    ready_queue = record { size = 0; head = 0; tail = 0 };
    waiting_queue = record { size = 0; head = 0; tail = 0 };
  };
  pages = all_free;
  next_pid = 1;
  stack = λ i. kern_stack 0;
  idle_stack = λ i. kern_stack 0;
  made = λ a. sched_create_kproc 0 0 (kern_stack 0) 0;
  size_list = [];
  size_at = λ a. 0;
  bytes = λ a. 0;
}

entry-apart : (i : ℕ) (p : Ptr) → get_elem? (70 ∷ []) i ≡ some p → (p ≢ 0) × (p ≢ 60)
entry-apart zero p at = ground arith
entry-apart (suc i) p at = cc

boot-Sound : Sound 4 (kmem boot)
unfolding cover
boot-Sound = record {
  valid = all_free-Valid;
  once = λ q. let a = all_free-Valid.apart ((q - kernbase) / 4096) in ground arith;
}

boot-Booted : Booted 0 4 image boot
boot-Booted = record {
  ready = one_cpu-Ready 0;
  off = refl;
  layer = refl;
  sched_free = refl;
  kmalloc_free = refl;
  pgalloc_free = refl;
  ptable_free = refl;
  sound = boot-Sound;
  spare = all_free-ThreeFree;
  queues = record {
    waiting_is = record { size = refl; head = refl; tail = refl; chain = tt };
    ready_is = record { size = refl; head = refl; tail = refl; chain = tt };
    apart = tt;
    free = tt;
    room = omega arith;
  };
  no_nodes = λ a. refl;
  empty_pool = refl;
  room = omega arith;
  entries = entry-apart;
}

mpmain-First_example : Returns (λ q b'. First 0 image boot q b') (mpmain 1 image boot)
mpmain-First_example = mpmain-First 0 0 4 image boot boot-Booted
