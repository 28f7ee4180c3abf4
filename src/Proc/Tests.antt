-- ===== src/Proc/Tests.antt =====
-- The theorems about proc.c at a table whose first entry is in use.
use guide_os.Prelude.{ℕ, zero, suc, ◌≡◌, ◌⊎◌, fault, refl, arith, [], ◌∷◌, Returns}
use guide_os.Spinlock.Fixture.{one_cpu, one_cpu-Ready}
use guide_os.Spinlock.Settled.{Settled}
use guide_os.PageAlloc.Fixture.{one_block, one_block-Valid}
use guide_os.Sched.{unused, running}
use guide_os.Proc.{Entry, Table, Procs, kern_stack, select_entry, proc_alloc}
use guide_os.Proc.Pids.{UniquePids, InUse, proc_alloc-UniquePids}
use guide_os.Proc.Alloc.{Allocated, NoPage, Stacked, proc_alloc_lem}

abbrev table : Table
table = record {
  next_pid = 4;
  proc = record { state = running; pid = 3 } ∷ record { state = unused; pid = 0 } ∷ [];
}

abbrev procs : Procs
procs = record {
  machine = one_cpu 0;
  pages = one_block;
  table = table;
  stack = λ i. kern_stack 8192;
}

proc_alloc_lem_example :
    Returns
      (λ r s'.
        Allocated table (r, s'.table) × Stacked 4 procs r s' × Settled 0 procs.machine s'.machine)
      (proc_alloc 1 procs)
    ⊎ ((proc_alloc 1 procs ≡ fault) × NoPage procs (select_entry table).0)
proc_alloc_lem_example =
    proc_alloc_lem 0 0 4 procs (one_cpu-Ready 0) (λ pos. refl) refl refl one_block-Valid

only_first : (i : ℕ) (e : Entry) → InUse table i e → (i ≡ 0) × (e.pid ≡ 3)
only_first zero e (at, used) = (refl, cc)
only_first (suc zero) e (at, used) = cc
only_first (suc (suc i)) e (at, used) = cc

table-UniquePids : UniquePids table
table-UniquePids = record {
  below = λ i e u. let p = (only_first i e u).1 in omega (arith, p);
  distinct = λ i k e e' u u' same.
      let p = (only_first i e u).0 in let q = (only_first k e' u').0 in omega (arith, p, q);
}

proc_alloc-UniquePids_example :
    Returns (λ r s'. UniquePids s'.table) (proc_alloc 1 procs)
    ⊎ ((proc_alloc 1 procs ≡ fault) × NoPage procs (select_entry table).0)
proc_alloc-UniquePids_example =
    proc_alloc-UniquePids 0 0 4 procs (one_cpu-Ready 0) (λ pos. refl) refl refl one_block-Valid
      table-UniquePids (omega arith)
