-- ===== src/Sched/Steady.antt =====
-- The states between two rounds of the loop of `sched_start`, and the two ends of a round.
use guide_os.Prelude.{
  ℕ, zero, suc, ◌≡◌, ◌≢◌, refl, sym, subst, ap, ◌∙◌, inl, inr, ◌⊎◌, true, Bool-cases, some, List,
  [], ◌∷◌, ◌++◌, ◌==◌, append-nil, get_elem?, arith, ltb, ltb_of_lt, ==_of_ne, ==_refl, Cmd,
  Returns, returns, bind-Returns, Ptr, null,
}
use guide_os.Heap.Chain.{Nodes, items}
use guide_os.Cpu.{Machine, update, cpu_id}
use guide_os.Cpu.Nesting.{find_cpu-update}
use guide_os.Spinlock.Laws.{Inside, cur_cpu-ok}
use guide_os.Sched.{Kernel, running, sched_lock, is_runnable, sched_pick, sched_put_back}
use guide_os.Sched.Wakeup.{items-append}
use guide_os.Sched.Switch.{sched_pick-idle}
use guide_os.Sched.Queues.{QueuesOf, Kept, pop_ready-Queues, push_ready-Queues, push_waiting-Queues}

-- CPU `i` holds the scheduler's lock, and is in no other critical section.
pub record InLoop (i : ℕ) (m : Machine) : Type 0 where
  pub inside : Inside i m
  pub layer : (m.cpus i).int_disable_layer ≡ 1
  pub held : m.lock sched_lock ≡ record { locked = true; cpu = some i }

-- CPU `i` is in the loop and its idle process is `idle`; the queues hold `ws` and `rs`, with
-- blocks for `n` more nodes, and no ready process is NULL or the idle one.
pub record Steady (i : ℕ) (idle : Ptr) (ws rs : Nodes) (n : ℕ) (k : Kernel) : Type 0 where
  pub in_loop : InLoop i k.machine
  pub idle_is : k.idle_proc i ≡ idle
  pub queues : QueuesOf k ws rs n
  pub eligible : (j : ℕ) (p : Ptr) → get_elem? (items rs) j ≡ some p → (p ≢ null) × (p ≢ idle)

-- What the loop asks of a turn, from whatever steady state: it comes back, with the process that runs still
-- the CPU's current one, no process gone from the ready queue, and as many blocks for nodes as before; it
-- may put others behind those that are ready, and change what waits. A turn in which `sched_wakeup` moves
-- processes is none: each takes a block, and `dequeue_iterator_delete` frees none.
abbrev pub IsTurn : ℕ → Ptr → Cmd Kernel (Unit {0}) → Type 0
IsTurn i idle turn =
    (p : Ptr) (ws rs : Nodes) (n : ℕ) (k : Kernel)
    → Steady i idle ws rs n k
    → p ≢ null
    → (k.machine.cpus i).proc ≡ p
    → (k.proc p).state ≡ running
    → Returns
        (λ r k'.
          (ws' : Nodes) × (zs : Nodes) × Steady i idle ws' (rs ++ zs) n k'
          × ((k'.machine.cpus i).proc ≡ p))
        (turn k)

InLoop-current :
    (i : ℕ) (p : Ptr) (m : Machine)
    → InLoop i m
    → InLoop i (record m { cpus = update m.cpus i (record (m.cpus i) { proc = p }) })
InLoop-current i p m l = record {
  inside = record {
    here =
        find_cpu-update m.cpus i (record (m.cpus i) { proc = p }) m.lapic_id m.ncpu 0 refl
        ∙ l.inside.here;
    off = l.inside.off;
    deep = rw (==_refl i) l.inside.deep;
    bounded = rw (==_refl i) l.inside.bounded;
  };
  layer = rw (==_refl i) l.layer;
  held = l.held;
}

get_elem?-snoc :
    (xs : List Ptr) (x : Ptr) (j : ℕ) (p : Ptr)
    → get_elem? (xs ++ (x ∷ [])) j ≡ some p
    → (get_elem? xs j ≡ some p) ⊎ (p ≡ x)
get_elem?-snoc [] x zero p at = inr cc
get_elem?-snoc [] x (suc j) p at = cc
get_elem?-snoc (y ∷ xs) x zero p at = inl at
get_elem?-snoc (y ∷ xs) x (suc j) p at = get_elem?-snoc xs x j p at

module _ (i : ℕ) (idle : Ptr) where
  pub pick-first :
      (ws : Nodes) (t p : Ptr) (rs : Nodes) (n : ℕ) (k : Kernel)
      → Steady i idle ws ((t, p) ∷ rs) n k
      → Returns
          (λ p' k'.
            (p' ≡ p)
            × Steady i idle ws rs (suc n) k'
            × ((k'.machine.cpus i).proc ≡ p)
            × ((k'.proc p).state ≡ running))
          (sched_pick i k)
  unfolding sched_pick
  pick-first ws t p rs n k st =
      let some_ready : ltb 0 k.ready_queue.size ≡ true =
        ltb_of_lt _ _ (omega (arith, st.queues.ready_is.size)) in
      rw some_ready (
        bind-Returns (pop_ready-Queues k ws rs n t p st.queues) λ p' k' (same, qs, kept).
          rw (same, ==_of_ne p null (st.eligible 0 p refl).0)
            (returns (
              refl,
              record {
                in_loop =
                    InLoop-current i p k'.machine (subst (InLoop i) (sym kept.machine) st.in_loop);
                idle_is = ap (λ f. f i) kept.idle_proc ∙ st.idle_is;
                queues = qs;
                eligible = λ j q at. st.eligible (suc j) q at;
              },
              rw (==_refl i) refl,
              rw (==_refl p) refl,
            )))

  pub pick-idle :
      (ws : Nodes) (n : ℕ) (k : Kernel)
      → Steady i idle ws [] n k
      → Returns
          (λ p' k'.
            (p' ≡ idle)
            × Steady i idle ws [] n k'
            × ((k'.machine.cpus i).proc ≡ idle)
            × ((k'.proc idle).state ≡ running))
          (sched_pick i k)
  pick-idle ws n k st =
      rw
        (sched_pick-idle i i k st.queues.ready_is.size st.in_loop.inside.here st.in_loop.inside.off)
        (returns (
          st.idle_is,
          record {
            in_loop = InLoop-current i (k.idle_proc i) k.machine st.in_loop;
            idle_is = st.idle_is;
            queues = st.queues;
            eligible = st.eligible;
          },
          rw (==_refl i) st.idle_is,
          rw (st.idle_is, ==_refl idle) refl,
        ))

  -- The process that gives the CPU back is put on a queue, if it is not the idle one.
  pub put_back :
      (p : Ptr) (ws rs : Nodes) (n : ℕ) (k : Kernel)
      → Steady i idle ws rs (suc n) k
      → (k.machine.cpus i).proc ≡ p
      → p ≢ null
      → p ≢ idle
      → Returns
          (λ r k'. (ws' : Nodes) × (zs : Nodes) × Steady i idle ws' (rs ++ zs) n k')
          (sched_put_back i k)
  unfolding sched_put_back cpu_id
  put_back p ws rs n k st here some_proc busy =
      rw (here, ==_of_ne p null some_proc)
        (rw
          (
            cur_cpu-ok i k.machine st.in_loop.inside.here st.in_loop.inside.off,
            st.idle_is,
            ==_of_ne p idle busy,
          )
          (elim (Bool-cases (is_runnable (k.proc p).state)) [
            | inl able ↦ rw able (
                bind-Returns (push_ready-Queues k ws rs n p st.queues) λ r k' (b, qs, kept).
                  returns (
                    ws,
                    (b, p) ∷ [],
                    released_cpu k' (rs ++ ((b, p) ∷ [])) ws qs kept λ j q at.
                        elim (get_elem?-snoc (items rs) p j q
                          (rw (items-append rs ((b, p) ∷ [])) at at)) [
                            | inl old ↦ st.eligible j q old
                            | inr same ↦ rw same (some_proc, busy)
                          ],
                  ))
            | inr asleep ↦ rw asleep (
                bind-Returns (push_waiting-Queues k ws rs n p st.queues) λ r k' (b, qs, kept).
                  returns (
                    ws ++ ((b, p) ∷ []),
                    [],
                    rw (append-nil rs)
                        (released_cpu k' rs (ws ++ ((b, p) ∷ [])) qs kept st.eligible),
                  ))
          ]))
    where
      released_cpu :
          (k' : Kernel) (rs' ws' : Nodes)
          → QueuesOf k' ws' rs' n
          → Kept k k'
          → ((j : ℕ) (q : Ptr) → get_elem? (items rs') j ≡ some q → (q ≢ null) × (q ≢ idle))
          → Steady i idle ws' rs' n (record k' {
            machine = record (k'.machine) {
              cpus = update k'.machine.cpus i (record (k'.machine.cpus i) { proc = null });
            };
          })
      released_cpu k' rs' ws' qs kept eligible = record {
        in_loop = InLoop-current i null k'.machine (subst (InLoop i) (sym kept.machine) st.in_loop);
        idle_is = ap (λ f. f i) kept.idle_proc ∙ st.idle_is;
        queues = qs;
        eligible = eligible;
      }

  pub put_back-idle :
      (ws rs : Nodes) (n : ℕ) (k : Kernel)
      → Steady i idle ws rs n k
      → (k.machine.cpus i).proc ≡ idle
      → Returns (λ r k'. Steady i idle ws rs n k') (sched_put_back i k)
  unfolding sched_put_back cpu_id
  put_back-idle ws rs n k st here =
      let after : Steady i idle ws rs n (record k {
        machine = record (k.machine) {
          cpus = update k.machine.cpus i (record (k.machine.cpus i) { proc = null });
        };
      }) =
        record {
          in_loop = InLoop-current i null k.machine st.in_loop;
          idle_is = st.idle_is;
          queues = st.queues;
          eligible = st.eligible;
        } in
      elim (Bool-cases (idle == null)) [
        | inl none_ ↦ rw (here, none_) (returns after)
        | inr some_ ↦
            rw (here, some_)
              (rw
                (
                  cur_cpu-ok i k.machine st.in_loop.inside.here st.in_loop.inside.off,
                  st.idle_is,
                  ==_refl idle,
                )
                (returns after))
      ]
