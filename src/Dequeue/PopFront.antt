-- ===== src/Dequeue/PopFront.antt =====
-- `dequeue_pop_front`, `dequeue_peek_front` and `dequeue_push_front` of queue.c.
use guide_os.Prelude.{
  ℕ, zero, suc, ◌-◌, ◌≡◌, refl, ◌≢◌, ◌∙◌, true, false, none, some, List, [], ◌∷◌, arith, ◌==◌,
  ==_of_ne, ok, out_of_fuel, Returns, returns,
}
use guide_os.Heap.{Ptr, null, Node, node, Cells, write, Heap}
use guide_os.Heap.Chain.{
  Nodes, first, Free, Chain-write, Chain-set_prev, not-contains_of_some, Free-write, ne_of_cons,
}
use guide_os.Dequeue.{Dequeue, push_front, pop_front, peek_front}
use guide_os.Dequeue.Abstract.{
  IsDequeue, SameOutside, load-ok, set_prev-ok, kfree-ok, write_self, write-ne,
}

-- What taking the node `(t, d)` out and freeing it leaves.
abbrev pub Popped : Heap → Ptr → Ptr → Nodes → Ptr × Dequeue → Heap → Type 0
Popped h t d xs (d', q') h' =
    (d' ≡ d)
    × IsDequeue h'.cell q' xs
    × (h'.cell t ≡ none)
    × (h'.pool ≡ t ∷ h.pool)
    × Free h'.cell (t ∷ h.pool)
    × SameOutside ((t, d) ∷ xs) h.cell h'.cell

-- A freed block joins the pool.
Free-cons :
    (c : Cells) (t : Ptr) (n : Node) (ps : List Ptr)
    → t ≢ null
    → c t ≡ some n
    → Free c ps
    → Free (write c t none) (t ∷ ps)
Free-cons c t n ps ne holds free =
    let out = not-contains_of_some c t n ps holds free in
    (ne, write_self c t none, out, Free-write c t none ps out free)

module _ (h : Heap) (q : Dequeue) (t d : Ptr) (free : Free h.cell h.pool) where
  pop_front-single : IsDequeue h.cell q ((t, d) ∷ []) → Returns (Popped h t d []) (pop_front q h)
  unfolding pop_front
  pop_front-single is =
      let (ne, holds, _, _) = is.chain in
      rw (is.size, is.head, load-ok h ne holds, load-ok h ne holds, kfree-ok h ne holds)
        (returns (
          refl,
          record { size = refl; head = refl; tail = refl; chain = tt },
          write_self h.cell t none,
          refl,
          Free-cons h.cell t (node d null null) h.pool ne holds free,
          λ a out. write-ne h.cell t a none (ne_of_cons a t d [] out).0,
        ))

  pop_front-more :
      (s e : Ptr) (xs : Nodes)
      → IsDequeue h.cell q ((t, d) ∷ (s, e) ∷ xs)
      → Returns (Popped h t d ((s, e) ∷ xs)) (pop_front q h)
  unfolding pop_front
  pop_front-more s e xs is =
      let (ne, holds, out, rest) = is.chain in
      let n : Node = node e (first xs null) null in
      let nonempty : (q.size == 0) ≡ false = ==_of_ne q.size 0 (omega (arith, is.size)) in
      let more : (q.size - 1 == 0) ≡ false = ==_of_ne (q.size - 1) 0 (omega (arith, is.size)) in
      let c : Cells = write h.cell s (some n) in
      let g : Heap = record h { cell = c } in
      let kept : c t ≡ some (node d s null) =
        write-ne h.cell s t (some n) (ne_of_cons t s e xs out).0 ∙ holds in
      rw
        (
          nonempty,
          more,
          is.head,
          load-ok h ne holds,
          ==_of_ne s null rest.0,
          set_prev-ok h rest.0 rest.1 null,
          load-ok g ne kept,
          kfree-ok g ne kept,
        )
        (returns (
          refl,
          record {
            size = omega (arith, is.size);
            head = refl;
            tail = is.tail;
            chain =
                Chain-write c t none null ((s, e) ∷ xs) null out
                  (Chain-set_prev h.cell t null s e xs null rest);
          },
          write_self c t none,
          refl,
          Free-cons c t (node d s null) h.pool ne kept (
              Free-write h.cell s (some n) h.pool
                (not-contains_of_some h.cell s (node e (first xs null) t) h.pool rest.1 free) free),
          λ a away.
              let (a_ne_t, old) = ne_of_cons a t d ((s, e) ∷ xs) away in
              write-ne c t a none a_ne_t ∙ write-ne h.cell s a (some n) (ne_of_cons a s e xs old).0,
        ))

-- On a queue that is not empty `dequeue_pop_front` returns the first item and frees its node; the
-- other nodes stay, in order, and no other memory changes.
pub pop_front-cons :
    (h : Heap) (q : Dequeue) (t d : Ptr) (xs : Nodes)
    → Free h.cell h.pool
    → IsDequeue h.cell q ((t, d) ∷ xs)
    → Returns (Popped h t d xs) (pop_front q h)
pop_front-cons h q t d [] free is = pop_front-single h q t d free is
pop_front-cons h q t d ((s, e) ∷ xs) free is = pop_front-more h q t d free s e xs is

-- On an empty queue `dequeue_pop_front` and `dequeue_peek_front` return NULL and change nothing.
pub front-nil :
    (h : Heap) (q : Dequeue)
    → IsDequeue h.cell q []
    → (pop_front q h ≡ ok (null, q) h) × (peek_front q h ≡ ok null h)
unfolding pop_front peek_front
front-nil h q is = (rw is.size, rw is.size)

-- `dequeue_push_front` on an empty queue calls itself on the same queue: no depth of calls is
-- enough for it to return.
pub push_front-nil :
    (fuel : ℕ) (h : Heap) (q : Dequeue) (item : Ptr)
    → IsDequeue h.cell q []
    → push_front fuel q item h ≡ out_of_fuel
unfolding push_front
push_front-nil zero h q item is = refl
push_front-nil (suc fuel) h q item is =
    let empty : (q.size == 0) ≡ true = rw is.size in rw empty (push_front-nil fuel h q item is)
