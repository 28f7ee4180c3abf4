-- ===== src/Sched/Wakeup.antt =====
-- `sched_wakeup` of sched.c: exactly the processes that wait on the channel become ready.
use guide_os.Prelude.{
  ℕ, zero, suc, ◌≤◌, ◌<◌, ◌≡◌, refl, sym, subst, ap, ◌∙◌, inl, inr, Bool, true, false, not, List,
  [], ◌∷◌, ◌++◌, append_assoc, append-nil, arith, length, filter, count_if, ◌==◌, if◌then◌else◌,
  ==_of_ne, Bool-cases, Returns, returns, bind-Returns, weaken-Returns, Ptr, null,
}
use guide_os.Heap.{Cells, Heap}
use guide_os.Heap.Chain.{
  Nodes, has, first, last, items, Free, Apart, Chain-split, Chain-frame, not-has_of_none,
  not-has_left, not-has_right, has-append,
}
use guide_os.Dequeue.{Dequeue, Iterator, push_back}
use guide_os.Dequeue.Abstract.{IsDequeue}
use guide_os.Dequeue.PushBack.{push_back-append}
use guide_os.Dequeue.Iterate.{Deleted, Disposed, iterator_delete_lem, iterator_next_lem}
use guide_os.Sched.{wakeup_loop}

pub IsDequeue-frame :
    (c c' : Cells) (q : Dequeue) (xs : Nodes)
    → ((p : Ptr) → has p xs ≡ true → c' p ≡ c p)
    → IsDequeue c q xs
    → IsDequeue c' q xs
IsDequeue-frame c c' q xs same is = record {
  size = is.size;
  head = is.head;
  tail = is.tail;
  chain = Chain-frame c c' null xs null same is.chain;
}

pub items-append : (xs ys : Nodes) → items (xs ++ ys) ≡ items xs ++ items ys
items-append [] ys = refl
items-append ((p, d) ∷ xs) ys = ap (λ l. d ∷ l) (items-append xs ys)

Apart-remove : (t d : Ptr) (us vs ys : Nodes) → Apart (us ++ ((t, d) ∷ vs)) ys → Apart (us ++ vs) ys
Apart-remove t d [] vs ys h = h.1
Apart-remove t d ((q, e) ∷ us) vs ys h = (h.0, Apart-remove t d us vs ys h.1)

Apart-snoc :
    (p d : Ptr) (xs ys : Nodes) → has p xs ≡ false → Apart xs ys → Apart xs (ys ++ ((p, d) ∷ []))
Apart-snoc p d [] ys out h = tt
Apart-snoc p d ((q, e) ∷ xs) ys out h =
    (ground (arith, has-append q ys ((p, d) ∷ []), h.0), Apart-snoc p d xs ys (ground arith) h.1)

has-remove :
    (a t d : Ptr) (us vs : Nodes) → has a (us ++ vs) ≡ true → has a (us ++ ((t, d) ∷ vs)) ≡ true
has-remove a t d [] vs h = ground arith
has-remove a t d ((q, e) ∷ us) vs h = ground (arith, has-remove a t d us vs)

-- The two queues of the scheduler, with blocks for at least `n` more nodes.
pub record Queues (h : Heap) (waiting ready : Dequeue) (ws rs : Nodes) (n : ℕ) : Type 0 where
  pub waiting_is : IsDequeue h.cell waiting ws
  pub ready_is : IsDequeue h.cell ready rs
  pub apart : Apart ws rs
  pub free : Free h.cell h.pool
  pub room : n ≤ length h.pool

-- After the deletion of `(t, d)` from the waiting queue there is a block for a fresh node, and both
-- queues are as before but for that node.
Queues-Deleted :
    (h g : Heap) (waiting ready : Dequeue) (us : Nodes) (t d : Ptr) (vs rs : Nodes) (n : ℕ)
    (r : Dequeue × Iterator)
    → Queues h waiting ready (us ++ ((t, d) ∷ vs)) rs n
    → Deleted h us t d vs r g
    → Queues g r.0 ready (us ++ vs) rs n
Queues-Deleted h g waiting ready us t d vs rs n r qs del = record {
  waiting_is = del.is;
  ready_is =
      IsDequeue-frame h.cell g.cell ready rs
        (λ p i. del.same p (not-has_left p (us ++ ((t, d) ∷ vs)) rs qs.apart i)) qs.ready_is;
  apart = Apart-remove t d us vs rs qs.apart;
  free = del.free;
  room = room_after (us ++ vs) del.disposed;
}
  where
    room_after : (ws : Nodes) → Disposed h t d g ws → n ≤ length g.pool
    room_after [] (_, pool) = rw pool (omega (arith, qs.room))
    room_after (w ∷ ws) (_, pool) = rw pool qs.room

-- The push of a woken process.
pub push_woken :
    (h : Heap) (waiting ready : Dequeue) (d p : Ptr) (ps : List Ptr) (ws rs : Nodes) (n : ℕ)
    → h.pool ≡ p ∷ ps
    → Queues h waiting ready ws rs (suc n)
    → Returns
        (λ ready' h'. Queues h' waiting ready' ws (rs ++ ((p, d) ∷ [])) n)
        (push_back ready d h)
push_woken h waiting ready d p ps ws rs n pool qs =
    let free : Free h.cell (p ∷ ps) = subst (λ l. Free h.cell l) pool qs.free in
    let out : has p ws ≡ false = not-has_of_none h.cell p null ws null free.1 qs.waiting_is.chain in
    weaken-Returns (push_back-append h ready rs d p ps qs.ready_is free pool)
      λ ready' h' (is, pool', free', same). record {
        waiting_is =
            IsDequeue-frame h.cell h'.cell waiting ws
              (λ a i.
                same a
                  (not-has_right a ws (rs ++ ((p, d) ∷ [])) (Apart-snoc p d ws rs out qs.apart) i))
              qs.waiting_is;
        ready_is = is;
        apart = Apart-snoc p d ws rs out qs.apart;
        free = subst (λ l. Free h'.cell l) (sym pool') free';
        room = omega (arith, ap length pool', ap length pool, qs.room);
      }

pub pool_cases : (ps : List Ptr) → 0 < length ps → (p : Ptr) × (qs : List Ptr) × (ps ≡ p ∷ qs)
pool_cases [] h = absurd (omega arith)
pool_cases (p ∷ ps) h = (p, ps, refl)

-- What the loop leaves: of the processes `ds` still to visit, those that pass the test are behind
-- the ready ones and the others behind those that wait.
pub record Woken (woken : Ptr → Bool) (kept ds ready : List Ptr) (r : Dequeue × Dequeue) (h' : Heap)
    : Type 0 where
  pub ws : Nodes
  pub rs : Nodes
  pub queues : Queues h' r.0 r.1 ws rs 0
  pub waiting_items : items ws ≡ kept ++ filter (λ d. not (woken d)) ds
  pub ready_items : items rs ≡ ready ++ filter woken ds

module _ (woken : Ptr → Bool) where
  pub wakeup_loop-Woken :
      (fuel : ℕ) (h : Heap) (waiting ready : Dequeue) (it : Iterator) (us vs rs : Nodes)
      → Queues h waiting ready (us ++ vs) rs (count_if woken (items vs))
      → it.current_node ≡ first vs null
      → length vs < fuel
      → Returns
          (Woken woken (items us) (items vs) (items rs))
          (wakeup_loop fuel woken waiting ready it h)
  unfolding wakeup_loop
  wakeup_loop-Woken zero h waiting ready it us vs rs qs cur enough = absurd (omega arith)
  wakeup_loop-Woken (suc fuel) h waiting ready it us [] rs qs cur enough = rw cur (
      returns (record {
        ws = us;
        rs = rs;
        queues = subst (λ l. Queues h waiting ready l rs 0) (append-nil us) qs;
        waiting_items = sym (append-nil (items us));
        ready_items = sym (append-nil (items rs));
      }))
  wakeup_loop-Woken (suc fuel) h waiting ready it us ((t, d) ∷ vs) rs qs cur enough =
      let (_, chain, _) = Chain-split h.cell null us ((t, d) ∷ vs) null qs.waiting_is.chain in
      let more : (it.current_node == null) ≡ false =
        ==_of_ne it.current_node null (λ e. chain.0 (sym cur ∙ e)) in
      rw (more, iterator_next_lem h it (last null us) t d vs chain cur)
        (elim (Bool-cases (woken d)) [
          | inl yes_ ↦ rw yes_ (
              bind-Returns
                (iterator_delete_lem h waiting (record { current_node = first vs null }) us t d vs
                  qs.free qs.waiting_is refl)
                λ r g del.
                  let c : ℕ = count_if woken (items vs) in
                  let one_more : (if woken d then suc c else c) ≡ suc c = rw yes_ in
                  let q₁ =
                    Queues-Deleted h g waiting ready us t d vs rs (suc c) r
                      (subst (λ k. Queues h waiting ready (us ++ ((t, d) ∷ vs)) rs k) one_more qs)
                      del in
                  let (p, ps, pool) = pool_cases g.pool (omega (arith, q₁.room)) in
                  bind-Returns (push_woken g r.0 ready d p ps (us ++ vs) rs c pool q₁)
                    λ ready' h' q₂.
                      weaken-Returns
                        (wakeup_loop-Woken fuel h' r.0 ready' r.1 us vs (rs ++ ((p, d) ∷ [])) q₂
                          del.current (omega arith))
                        λ s k w. record {
                          ws = w.ws;
                          rs = w.rs;
                          queues = w.queues;
                          waiting_items = rw yes_ w.waiting_items;
                          ready_items = rw yes_ (
                              w.ready_items
                              ∙ ap (λ l. l ++ filter woken (items vs))
                                  (items-append rs ((p, d) ∷ []))
                              ∙ append_assoc (items rs) (d ∷ []) (filter woken (items vs)));
                        })
          | inr no_ ↦ rw no_ (
              let c : ℕ = count_if woken (items vs) in
              let no_more : (if woken d then suc c else c) ≡ c = rw no_ in
              let q₁ : Queues h waiting ready ((us ++ ((t, d) ∷ [])) ++ vs) rs c =
                subst (λ l. Queues h waiting ready l rs c) (sym (append_assoc us ((t, d) ∷ []) vs))
                  (subst (λ k. Queues h waiting ready (us ++ ((t, d) ∷ vs)) rs k) no_more qs) in
              weaken-Returns
                (wakeup_loop-Woken fuel h waiting ready (record { current_node = first vs null })
                  (us ++ ((t, d) ∷ [])) vs rs q₁ refl (omega arith))
                λ s k w. record {
                  ws = w.ws;
                  rs = w.rs;
                  queues = w.queues;
                  waiting_items = rw no_ (
                      w.waiting_items
                      ∙ ap (λ l. l ++ filter (λ x. not (woken x)) (items vs))
                          (items-append us ((t, d) ∷ []))
                      ∙ append_assoc (items us) (d ∷ []) (filter (λ x. not (woken x)) (items vs)));
                  ready_items = rw no_ w.ready_items;
                })
        ])
