-- ===== src/Dequeue/Iterate.antt =====
-- `dequeue_iterator_next` and `dequeue_iterator_delete` of queue.c.
use guide_os.Prelude.{
  suc, ◌<◌, ◌≡◌, refl, sym, subst, ◌∙◌, true, false, none, some, [], ◌∷◌, ◌++◌, arith, length,
  length-append, ◌==◌, ==_of_ne, ok, Returns, returns, bind-Returns, weaken-Returns,
}
use guide_os.Heap.{Ptr, null, Node, node, Cells, write, Heap}
use guide_os.Heap.Chain.{
  Nodes, first, last, Chain, Free, Chain-write, Chain-split, Chain-join, Chain-frame, Free-frame,
  not-has_of_none, not-has_of_Apart, Apart-tail, not-has_left, not-has_right, has_around,
  first-append, last-append,
}
use guide_os.Dequeue.{Dequeue, Iterator, unlink, delete_target, iterator_delete, iterator_next}
use guide_os.Dequeue.Abstract.{
  IsDequeue, SameOutside, load-ok, set_next-ok, set_prev-ok, write_self, write-ne,
}
use guide_os.Dequeue.Unlink.{unlink_prev_lem, unlink_next_lem}
use guide_os.Dequeue.PopFront.{pop_front-cons}

-- What taking the node `(t, d)` out from between `us` and `vs` leaves.
pub record Unlinked (h : Heap) (us : Nodes) (t d : Ptr) (vs : Nodes) (q' : Dequeue) (h' : Heap)
    : Type 0 where
  pub is : IsDequeue h'.cell q' (us ++ vs)
  pub still : h'.cell t ≡ some (node d null null)
  pub pool : h'.pool ≡ h.pool
  pub same : SameOutside (us ++ ((t, d) ∷ vs)) h.cell h'.cell

module _ (h : Heap) (q : Dequeue) (us : Nodes) (t d : Ptr) (vs : Nodes)
    (is : IsDequeue h.cell q (us ++ ((t, d) ∷ vs))) where
  unlink_lem : Returns (Unlinked h us t d vs) (unlink q t h)
  unfolding unlink
  unlink_lem =
      let (left, (ne, holds, out, rest), apart) =
        Chain-split h.cell null us ((t, d) ∷ vs) null is.chain in
      let n : Node = node d (first vs null) (last null us) in
      let t_out = not-has_of_Apart t d us vs apart in
      rw (load-ok h ne holds) (
        bind-Returns
          (unlink_prev_lem h q d (first vs null) us t (is.head ∙ first-append us ((t, d) ∷ vs) null)
            left)
          λ q₁ g p₁.
            let in_g : g.cell t ≡ some n = p₁.same t t_out ∙ holds in
            rw (load-ok g ne in_g) (
              bind-Returns
                (unlink_next_lem g q₁ d (last null us) vs t
                  (p₁.tail ∙ is.tail ∙ last-append null us ((t, d) ∷ vs))
                  (Chain-frame h.cell g.cell t vs null
                    (λ p i. p₁.same p (not-has_left p us vs (Apart-tail t d us vs apart) i)) rest))
                λ q₂ k p₂.
                  let v : Node = node d null (last null us) in
                  let w : Node = node d null null in
                  let c : Cells = write k.cell t (some v) in
                  let in_k : k.cell t ≡ some n = p₂.same t out ∙ in_g in
                  let gone : Chain k.cell null us (first vs null) =
                    Chain-frame g.cell k.cell null us (first vs null)
                      (λ p i. p₂.same p (not-has_right p us vs (Apart-tail t d us vs apart) i))
                      p₁.chain in
                  rw
                    (
                      set_next-ok k ne in_k null,
                      set_prev-ok (record k { cell = c }) ne (write_self k.cell t (some v)) null,
                    )
                    (returns (record {
                      is = record {
                        size = omega (
                          arith,
                          p₂.size,
                          p₁.size,
                          is.size,
                          length-append us ((t, d) ∷ vs),
                          length-append us vs,
                        );
                        head = p₂.head ∙ p₁.head ∙ sym (first-append us vs null);
                        tail = p₂.tail ∙ sym (last-append null us vs);
                        chain =
                            Chain-join (write c t (some w)) null us vs null
                              (Chain-write c t (some w) null us (first vs null) t_out
                                (Chain-write k.cell t (some v) null us (first vs null) t_out gone))
                              (Chain-write c t (some w) (last null us) vs null out
                                (Chain-write k.cell t (some v) (last null us) vs null out p₂.chain))
                              (Apart-tail t d us vs apart);
                      };
                      still = write_self c t (some w);
                      pool = p₂.pool ∙ p₁.pool;
                      same = λ a away.
                          let (a_us, a_t, a_vs) = has_around a t d us vs away in
                          write-ne c t a (some w) a_t
                          ∙ write-ne k.cell t a (some v) a_t
                          ∙ p₂.same a a_vs
                          ∙ p₁.same a a_us;
                    }))))

-- The iterator has passed `us` and `(t, d)`: its current node is the first of `vs`.
delete_target-ok :
    (h : Heap) (q : Dequeue) (it : Iterator) (us : Nodes) (t d : Ptr) (vs : Nodes)
    → IsDequeue h.cell q (us ++ ((t, d) ∷ vs))
    → it.current_node ≡ first vs null
    → delete_target q it h ≡ ok t h
unfolding delete_target
delete_target-ok h q it us t d [] is e = rw (e, is.tail, last-append null us ((t, d) ∷ [])) refl
delete_target-ok h q it us t d ((s, x) ∷ vs) is e =
    let (_, (_, _, _, (ne, holds, _, _)), _) =
      Chain-split h.cell null us ((t, d) ∷ (s, x) ∷ vs) null is.chain in
    rw (e, ==_of_ne s null ne, load-ok h ne holds) refl

-- The block of the node taken out of the others `ws`: `dequeue_pop_front` gives it back, the
-- unlinking does not.
abbrev pub Disposed : Heap → Ptr → Ptr → Heap → Nodes → Type 0
Disposed h t d h' [] = (h'.cell t ≡ none) × (h'.pool ≡ t ∷ h.pool)
Disposed h t d h' (w ∷ ws) = (h'.cell t ≡ some (node d null null)) × (h'.pool ≡ h.pool)

pub record Deleted (h : Heap) (us : Nodes) (t d : Ptr) (vs : Nodes) (r : Dequeue × Iterator)
    (h' : Heap) : Type 0 where
  pub is : IsDequeue h'.cell r.0 (us ++ vs)
  pub current : r.1.current_node ≡ first vs null
  pub free : Free h'.cell h'.pool
  pub disposed : Disposed h t d h' (us ++ vs)
  pub same : SameOutside (us ++ ((t, d) ∷ vs)) h.cell h'.cell

delete_single :
    (h : Heap) (q : Dequeue) (it : Iterator) (t d : Ptr)
    → Free h.cell h.pool
    → IsDequeue h.cell q ((t, d) ∷ [])
    → it.current_node ≡ null
    → Returns (Deleted h [] t d []) (iterator_delete q it h)
unfolding iterator_delete
delete_single h q it t d free is e =
    let some_left : (q.size == 0) ≡ false = ==_of_ne q.size 0 (omega (arith, is.size)) in
    let one_left : (q.size == 1) ≡ true = rw is.size in
    rw (some_left, one_left)
      (bind-Returns (pop_front-cons h q t d [] free is)
        λ (x, q') h' (_, is', unused, pool, free', same). returns (record {
          is = is';
          current = e;
          free = subst (λ ps. Free h'.cell ps) (sym pool) free';
          disposed = (unused, pool);
          same = same;
        }))

delete_linked :
    (h : Heap) (q : Dequeue) (it : Iterator) (us : Nodes) (t d : Ptr) (vs : Nodes)
    → Free h.cell h.pool
    → IsDequeue h.cell q (us ++ ((t, d) ∷ vs))
    → it.current_node ≡ first vs null
    → 0 < length (us ++ vs)
    → Returns
        (λ r h'.
          IsDequeue h'.cell r.0 (us ++ vs)
          × (r.1.current_node ≡ first vs null)
          × Free h'.cell h'.pool
          × (h'.cell t ≡ some (node d null null))
          × (h'.pool ≡ h.pool)
          × SameOutside (us ++ ((t, d) ∷ vs)) h.cell h'.cell)
        (iterator_delete q it h)
unfolding iterator_delete
delete_linked h q it us t d vs free is e others =
    let size : q.size ≡ suc (length (us ++ vs)) =
      omega (arith, is.size, length-append us ((t, d) ∷ vs), length-append us vs) in
    let some_left : (q.size == 0) ≡ false = ==_of_ne q.size 0 (omega arith) in
    let more_left : (q.size == 1) ≡ false = ==_of_ne q.size 1 (omega arith) in
    let (_, (ne, _, _, _), _) = Chain-split h.cell null us ((t, d) ∷ vs) null is.chain in
    rw (some_left, more_left, delete_target-ok h q it us t d vs is e, ==_of_ne t null ne)
      (bind-Returns (unlink_lem h q us t d vs is) λ q' h' u.
        let open_end : (q'.size == 0) ≡ false = ==_of_ne q'.size 0 (omega (arith, u.is.size)) in
        rw open_end (
          returns (
            u.is,
            e,
            subst (λ ps. Free h'.cell ps) (sym u.pool)
                (Free-frame h.cell h'.cell h.pool
                  (λ p unused.
                    u.same p
                      (not-has_of_none h.cell p null (us ++ ((t, d) ∷ vs)) null unused is.chain))
                  free),
            u.still,
            u.pool,
            u.same,
          )))

-- `dequeue_iterator_delete`, after the iterator has passed the node `(t, d)`, takes that node out
-- and leaves the others in order and the iterator before the first of `vs`. The node's block is
-- given back only if it was the last one; otherwise it stays allocated, linked to nothing.
pub iterator_delete_lem :
    (h : Heap) (q : Dequeue) (it : Iterator) (us : Nodes) (t d : Ptr) (vs : Nodes)
    → Free h.cell h.pool
    → IsDequeue h.cell q (us ++ ((t, d) ∷ vs))
    → it.current_node ≡ first vs null
    → Returns (Deleted h us t d vs) (iterator_delete q it h)
iterator_delete_lem h q it [] t d [] free is e = delete_single h q it t d free is e
iterator_delete_lem h q it [] t d (v ∷ vs) free is e =
    weaken-Returns (delete_linked h q it [] t d (v ∷ vs) free is e (omega arith))
      λ r h' (is', cur, free', cell, pool, same). record {
        is = is';
        current = cur;
        free = free';
        disposed = (cell, pool);
        same = same;
      }
iterator_delete_lem h q it (u ∷ us) t d vs free is e =
    weaken-Returns (delete_linked h q it (u ∷ us) t d vs free is e (omega arith))
      λ r h' (is', cur, free', cell, pool, same). record {
        is = is';
        current = cur;
        free = free';
        disposed = (cell, pool);
        same = same;
      }

-- `dequeue_iterator_next` before a node returns its item and steps to the next node.
pub iterator_next_lem :
    (h : Heap) (it : Iterator) (b t d : Ptr) (vs : Nodes)
    → Chain h.cell b ((t, d) ∷ vs) null
    → it.current_node ≡ t
    → iterator_next it h ≡ ok (d, record { current_node = first vs null }) h
unfolding iterator_next
iterator_next_lem h it b t d vs (ne, holds, _, _) e =
    rw (e, ==_of_ne t null ne, load-ok h ne holds) refl
