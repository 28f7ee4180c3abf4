-- ===== src/Mpmain/First.antt =====
-- The first switch: `mpmain` as a whole.
use guide_os.Prelude.{
  ℕ, zero, suc, ◌≡◌, ◌≢◌, refl, sym, ap, subst, ◌∙◌, Option, some, [], ◌∷◌, get_elem?, arith,
  ==_refl, ==_of_ne, Returns, bind-Returns, weaken-Returns, map_state-Returns, Ptr, null,
}
use guide_os.Cpu.{update}
use guide_os.Spinlock.Settled.{Settled, Restored-Settled, Settled-trans}
use guide_os.PageAlloc.Locked.{pgalloc_lock}
use guide_os.PageAlloc.Invariant.{Valid}
use guide_os.PageAlloc.Spare.{OneFree, TwoFree-OneFree}
use guide_os.Kmalloc.{kmalloc_lock}
use guide_os.Mpmain.Node.{Stocked, TookPage-OneFree, take_node-Stocked}
use guide_os.Sched.{unused, runnable, running, is_runnable, sched_lock, sched_add, sched_pick}
use guide_os.Sched.Queues.{QueuesOf, sched_add-Queues}
use guide_os.Sched.Steady.{Steady, pick-first}
use guide_os.Proc.{sched_create_kproc}
use guide_os.Mpmain.{Image, Boot, on_kernel, create, take_node, start_first, mpmain}
use guide_os.Mpmain.Alloc.{Booted, Selected, new_proc-Selected}
use guide_os.Mpmain.Idle.{Started, start_cpu-Started}

-- The process `q` that is switched to first: entry `i` of the table, made to run `kshell_main` on the
-- stack of that entry. It is the CPU's current process and runs; the idle process `idle` is made, the ready
-- queue is empty again, and the loop of `sched_start` holds its lock.
pub record Dispatched (j : ℕ) (im : Image) (idle q : Ptr) (b : Boot) : Type 0 where
  pub i : ℕ
  pub entry : get_elem? im.entries i ≡ some q
  pub made : b.made q ≡ sched_create_kproc im.proc_kentry im.kern_pml4 (b.stack i) im.kshell_main
  pub idle_made :
      b.made idle ≡ sched_create_kproc im.proc_kentry im.kern_pml4 (b.idle_stack j) im.idle_function
  pub current : (b.kernel.machine.cpus j).proc ≡ q
  pub runs : (b.kernel.proc q).state ≡ running
  pub steady : Steady j idle [] [] 1 b.kernel

-- It was unused in the state `b`.
pub record First (j : ℕ) (im : Image) (b : Boot) (q : Ptr) (b' : Boot) : Type 0 where
  pub was : (b.kernel.proc q).state ≡ unused
  pub dispatched : Dispatched j im (b.kernel.idle_proc j) q b'

module _ (spins j n : ℕ) (im : Image) (b b₁ : Boot) {r : Option ℕ} (booted : Booted j n im b)
    (sel : Selected j n im b r b₁) where
  -- The new process is made, and ready.
  made_first : Boot
  made_first = record b₁ {
    made =
        update b₁.made sel.p
          (sched_create_kproc im.proc_kentry im.kern_pml4 (b₁.stack sel.i) im.kshell_main);
    kernel = record (b₁.kernel) {
      proc = update b₁.kernel.proc sel.p (record (b₁.kernel.proc sel.p) { state = runnable });
    };
  }

  -- `kmalloc` gives a block for its node.
  made_first-Stocked :
      Returns (λ u b₂. Stocked j n made_first b₂) (take_node (suc spins) made_first)
  unfolding made_first
  made_first-Stocked =
      take_node-Stocked spins j n made_first
        (record {
          here = sel.settled.here;
          bounded = omega (arith, sel.settled.layer, booted.layer);
          off = λ pos. sel.settled.flag ∙ booted.off;
          kmalloc_free = sel.settled.exact kmalloc_lock booted.kmalloc_free;
          pgalloc_free = sel.settled.exact pgalloc_lock booted.pgalloc_free;
        })
        (record { valid = sel.sound.valid; once = sel.sound.once })
        (TwoFree-OneFree b₁.pages sel.spare)

  Stocked-Queues : (b₂ : Boot) → Stocked j n made_first b₂ → QueuesOf b₂.kernel [] [] 1
  unfolding made_first
  Stocked-Queues b₂ st =
      subst (λ x. QueuesOf x.kernel [] [] 1) (sym st.rest)
        (subst
          (λ k.
            QueuesOf
              (record k {
                machine = b₂.kernel.machine;
                heap = record (k.heap) { pool = st.block ∷ k.heap.pool };
              })
              [] [] 1)
          (sym sel.kernel)
          (record {
            waiting_is = booted.queues.waiting_is;
            ready_is = booted.queues.ready_is;
            apart = tt;
            free = rw booted.empty_pool (st.some_block, booted.no_nodes st.block, refl, tt);
            room = omega arith;
          }))

  -- It is on the ready queue.
  record Added (b₂ : Boot) : Type 0 where
    block : Ptr
    queues : QueuesOf b₂.kernel [] ((block, sel.p) ∷ []) 0
    idle : b₂.kernel.idle_proc j ≡ b.kernel.idle_proc j
    settled : Settled j b.kernel.machine b₂.kernel.machine
    made : b₂.made ≡ made_first.made
    stack : b₂.stack ≡ made_first.stack
    valid : Valid n b₂.pages
    spare : OneFree b₂.pages

  add-Added :
      (b₂ : Boot)
      → Stocked j n made_first b₂
      → Returns (λ u b₃. Added b₃) (on_kernel (sched_add (suc spins) sel.p) b₂)
  unfolding made_first
  add-Added b₂ st =
      let settled : Settled j b.kernel.machine b₂.kernel.machine =
        Settled-trans j _ _ _ sel.settled st.settled in
      weaken-Returns
        (map_state-Returns (λ k. record b₂ { kernel = k })
          (sched_add-Queues spins j sel.p b₂.kernel [] [] 0
            (record { here = settled.here; bounded = omega (arith, settled.layer, booted.layer) })
            (λ pos. settled.flag ∙ booted.off) (settled.locks sched_lock booted.sched_free)
            (ap (λ x. is_runnable (x.kernel.proc sel.p).state) st.rest ∙ rw (==_refl sel.p) refl)
            (Stocked-Queues b₂ st)))
        λ u b₃ (k, (block, qs, procs, idles, back), e). rw e (record {
          block = block;
          queues = qs;
          idle =
              ap (λ f. f j) idles
              ∙ ap (λ x. x.kernel.idle_proc j) st.rest
              ∙ ap (λ k. k.idle_proc j) sel.kernel;
          settled = Settled-trans j _ _ _ settled (Restored-Settled sched_lock j _ _ back);
          made = ap (λ x. x.made) st.rest;
          stack = ap (λ x. x.stack) st.rest;
          valid = st.sound.valid;
          spare = TookPage-OneFree n b₁.pages b₂.pages st.took sel.spare;
        })

  -- The loop of `sched_start` switches to it.
  pick-First :
      (b₂ b₃ : Boot)
      → Added b₂
      → Started j im b₂ b₃
      → Returns (λ q b'. First j im b q b') (on_kernel (sched_pick j) b₃)
  unfolding made_first
  pick-First b₂ b₃ added st =
      weaken-Returns
        (map_state-Returns _ (
          pick-first j (b.kernel.idle_proc j) [] added.block sel.p [] 0 b₃.kernel (record {
            in_loop = st.in_loop;
            idle_is = ap (λ k. k.idle_proc j) st.kernel ∙ added.idle;
            queues =
                subst (λ k. QueuesOf k [] ((added.block, sel.p) ∷ []) 0) (sym st.kernel)
                  added.queues;
            eligible = eligible;
          })))
        λ q b' (k, (same, steady, current, runs), e).
          rw (same, e)
            (record {
              was = sel.was;
              dispatched = record {
                i = sel.i;
                entry = sel.at;
                made = own_made;
                idle_made =
                    ap (λ f. f (b.kernel.idle_proc j)) st.made
                    ∙ rw (added.idle, ==_refl (b.kernel.idle_proc j)) refl;
                current = current;
                runs = runs;
                steady = steady;
              };
            })
    where
      eligible :
          (m : ℕ) (q : Ptr)
          → get_elem? (sel.p ∷ []) m ≡ some q
          → (q ≢ null) × (q ≢ b.kernel.idle_proc j)
      eligible zero q at =
          subst (λ x. (x ≢ null) × (x ≢ b.kernel.idle_proc j)) (cc)
            (booted.entries sel.i sel.p sel.at)
      eligible (suc m) q at = cc

      not_idle : sel.p ≢ b₂.kernel.idle_proc j
      not_idle e = (booted.entries sel.i sel.p sel.at).1 (e ∙ added.idle)

      own_made :
          b₃.made sel.p
          ≡ sched_create_kproc im.proc_kentry im.kern_pml4 (b₃.stack sel.i) im.kshell_main
      own_made =
          let kept : b₃.made sel.p ≡ b₂.made sel.p =
            ap (λ f. f sel.p) st.made ∙ rw (==_of_ne sel.p (b₂.kernel.idle_proc j) not_idle) refl in
          let made : b₂.made sel.p
              ≡ sched_create_kproc im.proc_kentry im.kern_pml4 (b₁.stack sel.i) im.kshell_main =
            ap (λ f. f sel.p) added.made ∙ rw (==_refl sel.p) refl in
          kept
          ∙ made
          ∙ ap (λ f. sched_create_kproc im.proc_kentry im.kern_pml4 (f sel.i) im.kshell_main)
              (sym (st.stack ∙ added.stack))

  start_first-First :
      Returns (λ q b'. First j im b q b') (start_first (suc spins) im (some sel.i) b₁)
  unfolding start_first create made_first sched_create_kproc
  start_first-First = rw sel.address (
      bind-Returns made_first-Stocked λ u b₂ stocked.
        bind-Returns (add-Added b₂ stocked) λ u' b₃ added.
          let s = added.settled in
          bind-Returns
            (start_cpu-Started spins j n im b₃
              (record { here = s.here; bounded = omega (arith, s.layer, booted.layer) })
              (s.flag ∙ booted.off) (s.layer ∙ booted.layer) (s.locks sched_lock booted.sched_free)
              (ap (λ l. l.locked) (s.exact pgalloc_lock booted.pgalloc_free)) added.valid
              added.spare)
            λ c b₄ (same, st). rw same (pick-First b₃ b₄ added st))

-- With interrupts off, no lock held, empty queues, sound allocators, three free pages and an unused entry
-- in the table of processes, `mpmain` gets to its first switch, and `First` holds then.
pub mpmain-First :
    (spins j n : ℕ) (im : Image) (b : Boot)
    → Booted j n im b
    → Returns (λ q b'. First j im b q b') (mpmain (suc spins) im b)
unfolding mpmain
mpmain-First spins j n im b booted =
    bind-Returns (new_proc-Selected spins j n im b booted)
      λ r b₁ sel. rw sel.answer (start_first-First spins j n im b b₁ booted sel)
