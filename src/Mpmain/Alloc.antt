-- ===== src/Mpmain/Alloc.antt =====
-- The first process is allocated and put on the ready queue.
use guide_os.Prelude.{
  ℕ, zero, suc, ◌<◌, ◌≡◌, ◌≢◌, refl, ap, sym, ◌∙◌, true, false, Option, none, some, List, [], ◌∷◌,
  get_elem?, get_or, count_if, arith, Run, Returns, returns, Ptr, null,
}
use guide_os.Spinlock.Laws.{Ready}
use guide_os.Spinlock.Settled.{Settled}
use guide_os.PageAlloc.Spare.{TwoFree, ThreeFree, ThreeFree-OneFree, ThreeFree-Taken}
use guide_os.Spinlock.Section.{free_lock}
use guide_os.Kmalloc.{kmalloc_lock}
use guide_os.Kmalloc.Bytes.{Sound}
use guide_os.Mpmain.Node.{Sound-Taken}
use guide_os.PageAlloc.Allocate
use guide_os.Sched.{Proc, ProcState, unused, sched_lock}
use guide_os.PageAlloc.Locked.{pgalloc_lock}
use guide_os.Sched.Queues.{QueuesOf}
use guide_os.Proc.{ptable_lock, is_unused, Entry, Procs}
use guide_os.Proc.Alloc.{Allocated, Stacked, proc_alloc-Returns}
use guide_os.Mpmain.{Image, Boot, kmem, entries_of, procs_of, allocated, finish, new_proc}

-- The state in which `mpmain` begins, on CPU `j`: interrupts are off, no lock that it takes is
-- held, the queues and the heap of nodes are empty, both allocators are sound, three pages are free, and
-- the table of processes has an unused entry.
pub record Booted (j n : ℕ) (im : Image) (b : Boot) : Type 0 where
  pub ready : Ready j b.kernel.machine
  pub off : b.kernel.machine.if_flag ≡ false
  pub layer : (b.kernel.machine.cpus j).int_disable_layer ≡ 0
  pub sched_free : (b.kernel.machine.lock sched_lock).locked ≡ false
  pub kmalloc_free : b.kernel.machine.lock kmalloc_lock ≡ free_lock
  pub pgalloc_free : b.kernel.machine.lock pgalloc_lock ≡ free_lock
  pub ptable_free : (b.kernel.machine.lock ptable_lock).locked ≡ false
  pub sound : Sound n (kmem b)
  pub spare : ThreeFree b.pages
  pub queues : QueuesOf b.kernel [] [] 0
  pub no_nodes : (a : Ptr) → b.kernel.heap.cell a ≡ none
  pub empty_pool : b.kernel.heap.pool ≡ []
  pub room : 0 < count_if (λ e. is_unused e.state) (entries_of im.entries b.kernel.proc)
  pub entries :
      (i : ℕ) (p : Ptr) → get_elem? im.entries i ≡ some p → (p ≢ null) × (p ≢ b.kernel.idle_proc j)

entry_at :
    (as_ : List Ptr) (proc : Ptr → Proc) (i : ℕ) (e : Entry)
    → get_elem? (entries_of as_ proc) i ≡ some e
    → (p : Ptr) × (get_elem? as_ i ≡ some p) × (e.state ≡ (proc p).state) × (get_or as_ i null ≡ p)
entry_at [] proc i e at = cc
entry_at (a ∷ as_) proc zero e at = (a, refl, cc, refl)
entry_at (a ∷ as_) proc (suc i) e at = entry_at as_ proc i e at

unused_of : (s : ProcState) → is_unused s ≡ true → s ≡ unused
unused_of s h = ground arith

-- Entry `i`, the struct at `p`, was unused and is taken; the rest of the kernel is as it was.
pub record Selected (j n : ℕ) (im : Image) (b : Boot) (r : Option ℕ) (b' : Boot) : Type 0 where
  pub i : ℕ
  pub p : Ptr
  pub answer : r ≡ some i
  pub at : get_elem? im.entries i ≡ some p
  pub address : get_or im.entries i null ≡ p
  pub was : (b.kernel.proc p).state ≡ unused
  pub kernel : b'.kernel ≡ record (b.kernel) { machine = b'.kernel.machine; proc = b'.kernel.proc }
  pub settled : Settled j b.kernel.machine b'.kernel.machine
  pub sound : Sound n (kmem b')
  pub spare : TwoFree b'.pages

allocated-Selected :
    (j n : ℕ) (im : Image) (b : Boot) (r : Option ℕ) (s : Procs)
    → Booted j n im b
    → Allocated (procs_of im b).table (r, s.table)
    → Stacked n (procs_of im b) r s
    → Settled j b.kernel.machine s.machine
    → Selected j n im b r (allocated im b r s)
unfolding Allocated Stacked Allocate.Allocated
allocated-Selected j n im b none s booted (same, full) stacked settled =
    absurd (omega (arith, full, booted.room))
allocated-Selected j n im b (some i) s booted (next, taken) (page, (aligned, got), on_page, others)
      settled =
    let (e, at, free) = taken.old in
    let (p, at', same, address) = entry_at im.entries b.kernel.proc i e at in
    record {
      i = i;
      p = p;
      answer = refl;
      at = at';
      address = address;
      was = sym same ∙ unused_of e.state free;
      kernel = refl;
      settled = settled;
      sound =
          (let t = Sound-Taken n page (kmem b) s.pages s.machine booted.sound got in
            record { valid = t.valid; once = t.once });
      spare = ThreeFree-Taken n page b.pages s.pages got booted.spare;
    }

pub new_proc-Selected :
    (spins j n : ℕ) (im : Image) (b : Boot)
    → Booted j n im b
    → Returns (λ r b'. Selected j n im b r b') (new_proc (suc spins) im b)
unfolding new_proc
new_proc-Selected spins j n im b booted = finish-Returns (
    proc_alloc-Returns spins j n (procs_of im b) booted.ready (λ pos. booted.off) booted.ptable_free
      (ap (λ l. l.locked) booted.pgalloc_free) booted.sound.valid
      (ThreeFree-OneFree b.pages booted.spare))
  where
    finish-Returns :
        {run : Run Procs (Option ℕ)}
        → Returns
            (λ r s.
              Allocated (procs_of im b).table (r, s.table)
              × Stacked n (procs_of im b) r s
              × Settled j b.kernel.machine s.machine)
            run
        → Returns (λ r b'. Selected j n im b r b') (finish im b run)
    finish-Returns (returns {a = r} {s = s} (al, st, se)) =
        returns (allocated-Selected j n im b r s booted al st se)
