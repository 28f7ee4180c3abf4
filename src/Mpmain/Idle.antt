-- ===== src/Mpmain/Idle.antt =====
-- `sched_start` up to its loop.
use guide_os.Prelude.{
  ℕ, suc, ◌<◌, ◌≡◌, refl, ap, ◌∙◌, true, false, arith, ==_refl, Returns, returns, bind-Returns,
  map_state-Returns, Ptr, null, Option, none, some,
}
use guide_os.Cpu.{Machine, update, cpu_id, enable_interrupt}
use guide_os.Cpu.Nesting.{find_cpu-update}
use guide_os.Spinlock.Laws.{Ready, Restored, acquired, acquire-free, cur_cpu-ok, Inside-acquired}
use guide_os.PageAlloc.Locked.{Locked, pgalloc_lock, pgalloc_allocate}
use guide_os.PageAlloc.Locking.{locked-Returns}
use guide_os.PageAlloc.Invariant.{Valid}
use guide_os.PageAlloc.Allocate.{Allocated, s_alloc_block-Allocated}
use guide_os.PageAlloc.Spare.{OneFree, OneFree-some}
use guide_os.Sched.{Kernel, running, sched_lock}
use guide_os.Sched.Steady.{InLoop}
use guide_os.Proc.{sched_create_kproc}
use guide_os.Mpmain.{Image, Boot, create, idle_on, setup_idle_proc, start_cpu}

-- What the loop of `sched_start` begins with on CPU `j`: its lock is held, interrupts are off, and the
-- idle process is made; nothing but the machine and the processes has changed in the kernel.
pub record Started (j : ℕ) (im : Image) (b b' : Boot) : Type 0 where
  pub in_loop : InLoop j b'.kernel.machine
  pub kernel : b'.kernel ≡ record (b.kernel) { machine = b'.kernel.machine; proc = b'.kernel.proc }
  pub made :
      b'.made
      ≡ update b.made
          (b.kernel.idle_proc j)
          (sched_create_kproc im.proc_kentry im.kern_pml4 (b'.idle_stack j) im.idle_function)
  pub stack : b'.stack ≡ b.stack

InLoop-acquired :
    (j : ℕ) (m : Machine)
    → Ready j m
    → (m.cpus j).int_disable_layer ≡ 0
    → InLoop j (acquired j sched_lock m)
InLoop-acquired j m ready zero_ = record {
  inside = Inside-acquired j sched_lock m ready;
  layer = rw (==_refl j, zero_) refl;
  held = refl;
}

-- The idle process `p` is made, with a page for its stack.
record SetUp (j : ℕ) (im : Image) (p : Ptr) (b b' : Boot) : Type 0 where
  restored : Restored pgalloc_lock j b.kernel.machine b'.kernel.machine
  kernel : b'.kernel ≡ record (b.kernel) { machine = b'.kernel.machine; proc = b'.kernel.proc }
  made :
      b'.made
      ≡ update b.made p
          (sched_create_kproc im.proc_kentry im.kern_pml4 (b'.idle_stack j) im.idle_function)
  stack : b'.stack ≡ b.stack

setup_idle_proc-SetUp :
    (spins j n : ℕ) (im : Image) (p : Ptr) (b : Boot)
    → Ready j b.kernel.machine
    → (0 < (b.kernel.machine.cpus j).int_disable_layer → b.kernel.machine.if_flag ≡ false)
    → (b.kernel.machine.lock pgalloc_lock).locked ≡ false
    → Valid n b.pages
    → OneFree b.pages
    → Returns (λ r b'. SetUp j im p b b') (setup_idle_proc (suc spins) im j p b)
unfolding setup_idle_proc idle_on create pgalloc_allocate
setup_idle_proc-SetUp spins j n im p b ready off free valid spare =
    bind-Returns
      (map_state-Returns
        (λ l. record b { kernel = record (b.kernel) { machine = l.machine }; pages = l.pages })
        (locked-Returns spins j (record { machine = b.kernel.machine; pages = b.pages }) _ ready off
          free (s_alloc_block-Allocated n b.pages 0 valid (omega arith))))
      λ page b₁ (l, (got, back), e). rw e (idle_on-SetUp page l got back)
  where
    idle_on-SetUp :
        (page : Option ℕ) (l : Locked)
        → Allocated n b.pages 0 page l.pages
        → Restored pgalloc_lock j b.kernel.machine l.machine
        → Returns
            (λ r b'. SetUp j im p b b')
            (idle_on im j p page
              (record b { kernel = record (b.kernel) { machine = l.machine }; pages = l.pages }))
    idle_on-SetUp none l got back = absurd (OneFree-some n b.pages l.pages spare got)
    idle_on-SetUp (some page) l got back =
        returns
          (record { restored = back; kernel = refl; made = rw (==_refl j) refl; stack = refl })

-- With the lock of the page allocator and its own free, and a page free, `sched_start` makes the idle process and gets
-- to its loop.
pub start_cpu-Started :
    (spins j n : ℕ) (im : Image) (b : Boot)
    → Ready j b.kernel.machine
    → b.kernel.machine.if_flag ≡ false
    → (b.kernel.machine.cpus j).int_disable_layer ≡ 0
    → (b.kernel.machine.lock sched_lock).locked ≡ false
    → (b.kernel.machine.lock pgalloc_lock).locked ≡ false
    → Valid n b.pages
    → OneFree b.pages
    → Returns (λ c b'. (c ≡ j) × Started j im b b') (start_cpu (suc spins) im b)
unfolding start_cpu cpu_id enable_interrupt
start_cpu-Started spins j n im b ready off zero_ free pg_free valid spare =
    rw (cur_cpu-ok j b.kernel.machine ready.here off) (
      rw (cur_cpu-ok j m₁ ready₁.here off) (
        bind-Returns
          (setup_idle_proc-SetUp spins j n im (b.kernel.idle_proc j) b₁ ready₁ (λ pos. off) pg_free
            valid spare)
          λ r b₂ up.
            let m₃ : Machine = record (b₂.kernel.machine) { if_flag = true } in
            let layer₃ : (m₃.cpus j).int_disable_layer ≡ 0 =
              up.restored.layer ∙ rw (==_refl j) zero_ in
            let ready₃ : Ready j m₃ = record {
              here = up.restored.here;
              bounded = rw layer₃ (omega arith);
            } in
            let free₃ : (m₃.lock sched_lock).locked ≡ false =
              ap (λ l. l.locked) (up.restored.others sched_lock (omega arith)) ∙ free in
            rw (acquire-free spins sched_lock j m₃ ready₃ free₃) (
              returns (
                refl,
                record {
                  in_loop = InLoop-acquired j m₃ ready₃ layer₃;
                  kernel =
                      ap {A = Kernel} (λ x. record x { machine = acquired j sched_lock m₃ })
                        up.kernel;
                  made = up.made;
                  stack = up.stack;
                },
              ))))
  where
    m₁ : Machine
    m₁ = record (b.kernel.machine) {
      cpus = update b.kernel.machine.cpus j (record (b.kernel.machine.cpus j) { proc = null });
    }

    ready₁ : Ready j m₁
    ready₁ = record {
      here =
          find_cpu-update b.kernel.machine.cpus j _ b.kernel.machine.lapic_id b.kernel.machine.ncpu
            0 refl
          ∙ ready.here;
      bounded = rw (==_refl j) ready.bounded;
    }

    b₁ : Boot
    b₁ = record b {
      kernel = record (b.kernel) {
        machine = m₁;
        proc =
            update b.kernel.proc (b.kernel.idle_proc j)
              (record (b.kernel.proc (b.kernel.idle_proc j)) { state = running });
      };
    }
