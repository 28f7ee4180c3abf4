-- ===== src/Mpmain/Table.antt =====
-- `proc_init` clears the table of processes and the queues.
use guide_os.Prelude.{
  ℕ, none, suc, ◌<◌, ◌≡◌, ◌≢◌, refl, ap, ◌∙◌, inl, inr, false, Bool-cases, some, List, [], ◌∷◌,
  length, get_elem?, count_if, arith, ◌==◌, ==_refl, Returns, returns, Ptr, null,
}
use guide_os.Cpu.{Machine, update}
use guide_os.Spinlock.{init_lock, set_lock}
use guide_os.Spinlock.Section.{free_lock}
use guide_os.Spinlock.Laws.{
  Ready, Restored, acquired, released, acquire-free, release-acquired, Restored-released,
}
use guide_os.PageAlloc.Locked.{pgalloc_lock}
use guide_os.PageAlloc.Spare.{ThreeFree}
use guide_os.Kmalloc.{kmalloc_lock}
use guide_os.Kmalloc.Bytes.{Sound}
use guide_os.Sched.{Proc, unused, sched_lock, sched_init}
use guide_os.Proc.{is_unused, ptable_lock}
use guide_os.Mpmain.{Image, Boot, kmem, entries_of, clear_all, idle_procs, ncpu_max, proc_init}
use guide_os.Mpmain.Alloc.{Booted}

clear_all-unused :
    (as_ : List Ptr) (proc : Ptr → Proc) (a : Ptr)
    → (proc a).state ≡ unused
    → (clear_all as_ proc a).state ≡ unused
unfolding clear_all
clear_all-unused [] proc a h = h
clear_all-unused (b ∷ as_) proc a h =
    clear_all-unused as_ _ a (elim (Bool-cases (a == b)) [ inl e ↦ rw e refl | inr e ↦ rw e h ])

-- The first process of the table is unused.
clear_all-first :
    (a : Ptr) (as_ : List Ptr) (proc : Ptr → Proc) → (clear_all (a ∷ as_) proc a).state ≡ unused
unfolding clear_all
clear_all-first a as_ proc = clear_all-unused as_ _ a (rw (==_refl a) refl)

-- What `proc_init` needs, on CPU `j`
pub record Prepared (j n : ℕ) (im : Image) (b : Boot) : Type 0 where
  pub ready : Ready j b.kernel.machine
  pub off : b.kernel.machine.if_flag ≡ false
  pub layer : (b.kernel.machine.cpus j).int_disable_layer ≡ 0
  pub kmalloc_free : b.kernel.machine.lock kmalloc_lock ≡ free_lock
  pub pgalloc_free : b.kernel.machine.lock pgalloc_lock ≡ free_lock
  pub sound : Sound n (kmem b)
  pub spare : ThreeFree b.pages
  pub no_nodes : (a : Ptr) → b.kernel.heap.cell a ≡ none
  pub empty_pool : b.kernel.heap.pool ≡ []
  pub some_entry : 0 < length im.entries
  pub entries :
      (i : ℕ) (p : Ptr) → get_elem? im.entries i ≡ some p → (p ≢ null) × (p ≢ b.kernel.idle_proc j)

-- From there, `proc_init` leaves an unused first entry, empty queues, free locks, the CPU and the idle
-- processes' addresses as they were: what `mpmain` starts from.
pub proc_init-Booted :
    (spins j n : ℕ) (im : Image) (b : Boot)
    → Prepared j n im b
    → Returns
        (λ u b'. Booted j n im b' × (b'.kernel.idle_proc ≡ b.kernel.idle_proc))
        (proc_init (suc spins) im b)
unfolding proc_init sched_init init_lock set_lock
proc_init-Booted spins j n im b pre =
    rw (acquire-free spins sched_lock j m ready refl, release-acquired sched_lock j m ready)
      (returns (
        (record {
          ready = record { here = back.here; bounded = omega (arith, back.layer, pre.layer) };
          off = back.flag ∙ pre.off;
          layer = back.layer ∙ pre.layer;
          sched_free = ap (λ l. l.locked) back.lock;
          kmalloc_free = back.others kmalloc_lock (omega arith) ∙ pre.kmalloc_free;
          pgalloc_free = back.others pgalloc_lock (omega arith) ∙ pre.pgalloc_free;
          ptable_free = ap (λ l. l.locked) (back.others ptable_lock (omega arith));
          sound = record { valid = pre.sound.valid; once = pre.sound.once };
          no_nodes = pre.no_nodes;
          empty_pool = pre.empty_pool;
          spare = pre.spare;
          queues = record {
            waiting_is = record { size = refl; head = refl; tail = refl; chain = tt };
            ready_is = record { size = refl; head = refl; tail = refl; chain = tt };
            apart = tt;
            free = rw pre.empty_pool tt;
            room = omega arith;
          };
          room = unused_entry im.entries pre.some_entry;
          entries = pre.entries;
        }),
        refl,
      ))
  where
    m : Machine
    m = record (b.kernel.machine) {
      lock = update (update b.kernel.machine.lock ptable_lock free_lock) sched_lock free_lock;
    }

    ready : Ready j m
    ready = record { here = pre.ready.here; bounded = pre.ready.bounded }

    back : Restored sched_lock j m (released j sched_lock (acquired j sched_lock m))
    back = Restored-released sched_lock j m ready (λ pos. pre.off)

    unused_entry :
        (as_ : List Ptr)
        → 0 < length as_
        → 0
          < count_if
              (λ e. is_unused e.state)
              (entries_of as_
                (clear_all (idle_procs ncpu_max b.kernel.idle_proc) (clear_all as_ b.kernel.proc)))
    unused_entry [] none_ = absurd (omega arith)
    unused_entry (a ∷ as_) some_ =
        rw
          (clear_all-unused (idle_procs ncpu_max b.kernel.idle_proc)
            (clear_all (a ∷ as_) b.kernel.proc) a (clear_all-first a as_ b.kernel.proc))
          (omega arith)
