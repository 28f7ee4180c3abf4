-- ===== src/Kmain/Memory.antt =====
-- The memory that the start of the kernel hands to its allocators.
use guide_os.Prelude.{
  ℕ, suc, ◌+◌, ◌-◌, ◌*◌, ◌/◌, ◌%◌, ◌^◌, ◌≤◌, ◌<◌, ◌≡◌, ◌∙◌, refl, sym, ap, true, false, ==_refl, [],
  arith, Ptr, Returns, bind-Returns, weaken-Returns, map_state-Returns, ◌>>=◌, ◌>>◌,
}
use guide_os.Memlayout.{kernbase, p2kv}
use guide_os.Cpu.{Cpu, Machine, update, find_cpu, cpu_bsp_init}
use guide_os.Cpu.Nesting.{RunsOn}
use guide_os.Spinlock.{init_lock, set_lock}
use guide_os.Spinlock.Laws.{Ready}
use guide_os.Spinlock.Section.{free_lock}
use guide_os.BootAlloc.{Boot, round_up, boot_alloc_init, boot_alloc_disable}
use guide_os.Vm.{Tables}
use guide_os.Vm.Map.{vmm_init_lem}
use guide_os.PageAlloc.Locked.{pgalloc_lock, pgalloc_free_range}
use guide_os.PageAlloc.Invariant.{free_count, Valid}
use guide_os.PageAlloc.Range.{in_range, pgalloc_free_range_lem}
use guide_os.PageAlloc.Init.{Start}
use guide_os.PageAlloc.Init.Bitmaps.{bytes_taken}
use guide_os.PageAlloc.Init.Blank.{pgalloc_init-Valid}
use guide_os.Kmalloc.{kmalloc_lock, kmalloc_init}
use guide_os.Kmalloc.Add.{cover}
use guide_os.Kmalloc.Bytes.{Sound}
use guide_os.Kmalloc.Locking.{Calm}
use guide_os.Kmain.{System, on_boot, on_machine, on_locked, on_kmem, kmem, memory_init}

-- The start of the kernel: nothing has been initialised, the kernel ends at the physical address `e`,
-- and the memory behind it holds zeros.
pub record Fresh (e : ℕ) (s : System) : Type 0 where
  pub boot : s.start.boot.initialized ≡ false
  pub max_addr : s.start.max_addr ≡ 0
  pub off : s.start.machine.if_flag ≡ false
  pub room : e + 200000 < 64 * 1024 * 1024
  pub zeros : (a : Ptr) → kernbase + e ≤ a → s.start.words a ≡ 0

-- The first page behind the kernel, its two page tables and the bitmaps
abbrev pub first_page : ℕ → ℕ
first_page e = (e + 4095) / 4096 + 39

-- What `memory_init` leaves
pub record Started (e : ℕ) (s : System) : Type 0 where
  pub calm : Calm 0 s.start.machine
  pub layer : (s.start.machine.cpus 0).int_disable_layer ≡ 0
  pub off : s.start.machine.if_flag ≡ false
  pub sound : Sound (2 ^ 20) (kmem s)
  pub nothing_small : s.size_list ≡ []
  pub pages : (q : ℕ) → free_count s.start.pages q ≡ in_range (first_page e) 16384 q

bsp-RunsOn :
    (m : Machine) (c : Cpu)
    → c.apicid ≡ m.lapic_id
    → RunsOn 0 (record m { ncpu = 1; cpus = update m.cpus 0 c })
unfolding find_cpu
bsp-RunsOn m c own = rw (own, ==_refl m.lapic_id) refl

-- The bitmaps take 37 pages.
bitmaps : bytes_taken 11 (round_up (4 * 1024 * 1024 * 1024) / 4096 / 8) ≡ 37 * 4096
unfolding bytes_taken
bitmaps = refl

-- From `boot_alloc_disable` on: the range behind the front of the boot allocator is freed.
last_part :
    (spins fuel e : ℕ) (s : System)
    → 16384 < fuel
    → e + 200000 < 64 * 1024 * 1024
    → s.start.boot.begin_kva ≡ kernbase + first_page e * 4096
    → s.start.machine.if_flag ≡ false
    → s.start.machine.lock pgalloc_lock ≡ free_lock
    → Valid (2 ^ 20) s.start.pages
    → ((q : ℕ) → free_count s.start.pages q ≡ 0)
    → Returns
        (λ r s'. Started e s')
        ((do
          on_machine cpu_bsp_init
          avail ← on_boot boot_alloc_disable
          on_kmem kmalloc_init
          on_locked (pgalloc_free_range (suc spins) fuel avail (p2kv (64 * 1024 * 1024))))
          s)
unfolding cpu_bsp_init boot_alloc_disable kmalloc_init init_lock set_lock cover
last_part spins fuel e s enough room front off lock valid none_free =
    let at : kernbase + first_page e * 4096 ≡ s.start.boot.begin_kva = sym front in
    rw front (
      weaken-Returns
        (map_state-Returns
          (λ l. record s {
            start = record (s.start) {
              machine = l.machine;
              pages = l.pages;
              boot = record (s.start.boot) { begin_kva = 0; end_kva = 0 };
            };
            size_list = [];
          })
          (pgalloc_free_range_lem spins fuel 0 (2 ^ 20) (first_page e * 4096) (64 * 1024 * 1024)
            (record { machine = m; pages = s.start.pages }) ready (λ pos. absurd (omega arith))
            (ap (λ l. l.locked) lock) valid (omega arith) (omega arith) (omega arith) (omega arith)
            (λ q ge lt. none_free q)))
        λ r s' (l, (freed, back), e'). rw e' (record {
          calm = record {
            here = back.here;
            bounded = omega (arith, back.layer);
            off = λ pos. back.flag ∙ off;
            kmalloc_free = back.others kmalloc_lock (omega arith);
            pgalloc_free = back.lock;
          };
          layer = back.layer;
          off = back.flag ∙ off;
          sound = record {
            valid = freed.valid;
            once = λ q.
                let c = freed.count ((q - kernbase) / 4096) in
                let z = none_free ((q - kernbase) / 4096) in ground arith;
          };
          nothing_small = refl;
          pages = λ q. let c = freed.count q in let z = none_free q in ground arith;
        }))
  where
    m : Machine
    m = record (s.start.machine) {
      cpus = update s.start.machine.cpus 0 (record (s.start.machine.cpus 0) {
        apicid = s.start.machine.lapic_id;
        started = true;
        int_disable_layer = 0;
      });
      ncpu = 1;
      lock = update s.start.machine.lock kmalloc_lock free_lock;
    }

    ready : Ready 0 m
    ready = record { here = bsp-RunsOn s.start.machine _ refl; bounded = omega arith }

-- From a start in which the memory behind the kernel holds zeros, with enough rounds for the loop of `pgalloc_free_range`, the set-up of the memory
-- returns with both allocators sound and their locks free. Exactly the pages from behind the kernel,
-- its page tables and the bitmaps up to 64 MB are free.
pub memory_init-Started :
    (spins fuel e : ℕ) (s : System)
    → 16384 < fuel
    → Fresh e s
    → Returns (λ r s'. Started e s') (memory_init (suc spins) fuel (kernbase + e) s)
unfolding memory_init boot_alloc_init
memory_init-Started spins fuel e s enough fresh =
    let round : round_up (kernbase + e) ≡ kernbase + (e + 4095) / 4096 * 4096 =
      omega (arith, fresh.room) in
    let end : (kernbase + e + 64 * 1024 * 1024) % 2 ^ 64 ≡ kernbase + e + 64 * 1024 * 1024 =
      omega (arith, fresh.room) in
    rw fresh.boot (
      rw (round, end)
        (bind-Returns
          (map_state-Returns (λ t. with_tables t)
            (vmm_init_lem (record { boot = boot₀; entry = s.entry })
              (record {
                page = omega arith;
                nonzero = omega arith;
                room = omega (arith, fresh.room);
                address = omega (arith, fresh.room);
              })))
          λ pml4 s₁ (t, (pdp, top, rest, huge, b), at₁).
            rw (at₁, b)
              (bind-Returns
                (map_state-Returns (λ x. record s { entry = t.entry; start = x })
                  ((pgalloc_init-Valid (4 * 1024 * 1024 * 1024) start₁ (omega arith) refl
                      (omega arith)
                      (record {
                        page = omega arith;
                        nonzero = omega arith;
                        room = omega (arith, fresh.room, bitmaps);
                        address = omega (arith, fresh.room);
                        zeros = λ a le. fresh.zeros a (omega arith);
                      })).0
                    fresh.max_addr))
                λ r s₂ (x, (valid, none_free, top_addr, b₂, m₂), at₂). rw at₂ (
                  last_part spins fuel e (record s { entry = t.entry; start = x }) enough fresh.room
                    (ap {A = Boot} (λ b. b.begin_kva) b₂ ∙ omega (arith, bitmaps))
                    (ap {A = Machine} (λ m. m.if_flag) m₂ ∙ fresh.off)
                    (ap {A = Machine} (λ m. m.lock pgalloc_lock) m₂) valid none_free))))
  where
    boot₀ : Boot
    boot₀ = record {
      begin_kva = kernbase + (e + 4095) / 4096 * 4096;
      end_kva = kernbase + e + 64 * 1024 * 1024;
      initialized = true;
    }

    with_tables : Tables → System
    with_tables t = record s { entry = t.entry; start = record (s.start) { boot = t.boot } }

    start₁ : Start
    start₁ = record (s.start) { boot = record boot₀ { begin_kva = boot₀.begin_kva + 8192 } }
