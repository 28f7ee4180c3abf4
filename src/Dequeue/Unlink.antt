-- ===== src/Dequeue/Unlink.antt =====
-- The pointer surgery of `dequeue_iterator_delete` in queue.c.
use guide_os.Prelude.{
  ◌≡◌, refl, subst, ◌∙◌, inl, inr, false, [], ◌∷◌, ◌++◌, ==_of_ne, Returns, returns,
}
use guide_os.Heap.{Ptr, null, node, Heap}
use guide_os.Heap.Chain.{
  Nodes, has, first, last, Chain, Chain-set_next, Chain-set_prev, last-append, first-snoc,
  ne_of_snoc, ne_of_cons,
}
use guide_os.Dequeue.{Dequeue, unlink_prev, unlink_next}
use guide_os.Dequeue.Abstract.{set_next-ok, set_prev-ok, snoc_cases, write-ne}

-- The nodes `us` in front now lead to `after`.
pub record LinkedPrev (h : Heap) (q : Dequeue) (us : Nodes) (after : Ptr) (q' : Dequeue) (h' : Heap)
    : Type 0 where
  pub size : q'.size ≡ q.size
  pub head : q'.head ≡ first us after
  pub tail : q'.tail ≡ q.tail
  pub chain : Chain h'.cell null us after
  pub pool : h'.pool ≡ h.pool
  pub same : (a : Ptr) → has a us ≡ false → h'.cell a ≡ h.cell a

unlink_prev-nil :
    (h : Heap) (q : Dequeue) (d after : Ptr)
    → Returns (LinkedPrev h q [] after) (unlink_prev q (node d after null) h)
unfolding unlink_prev
unlink_prev-nil h q d after = returns (record {
  size = refl;
  head = refl;
  tail = refl;
  chain = tt;
  pool = refl;
  same = λ a out. refl;
})

unlink_prev-snoc :
    (h : Heap) (q : Dequeue) (d after : Ptr) (us : Nodes) (b x t : Ptr)
    → q.head ≡ first (us ++ ((b, x) ∷ [])) t
    → Chain h.cell null (us ++ ((b, x) ∷ [])) t
    → Returns (LinkedPrev h q (us ++ ((b, x) ∷ [])) after) (unlink_prev q (node d after b) h)
unfolding unlink_prev
unlink_prev-snoc h q d after us b x t head chain =
    let (holds, ne, linked) = Chain-set_next h.cell null us b x t after chain in
    rw (==_of_ne b null ne, set_next-ok h ne holds after)
      (returns (record {
        size = refl;
        head = head ∙ first-snoc us b x t after;
        tail = refl;
        chain = linked;
        pool = refl;
        same = λ a out. write-ne h.cell b a _ (ne_of_snoc a b x us out).0;
      }))

pub unlink_prev_lem :
    (h : Heap) (q : Dequeue) (d after : Ptr) (us : Nodes) (t : Ptr)
    → q.head ≡ first us t
    → Chain h.cell null us t
    → Returns (LinkedPrev h q us after) (unlink_prev q (node d after (last null us)) h)
unlink_prev_lem h q d after us t head chain = elim (snoc_cases us) [
  | inl e ↦ rw e (unlink_prev-nil h q d after)
  | inr (vs, (b, x), e) ↦
      let HeadOf : Nodes → Type 0 = λ l. q.head ≡ first l t in
      let ChainOf : Nodes → Type 0 = λ l. Chain h.cell null l t in
      rw (e, last-append null vs ((b, x) ∷ []))
        (unlink_prev-snoc h q d after vs b x t (subst HeadOf e head) (subst ChainOf e chain))
]

-- The nodes `vs` behind now come after `before`.
pub record LinkedNext (h : Heap) (q : Dequeue) (vs : Nodes) (before : Ptr) (q' : Dequeue)
    (h' : Heap) : Type 0 where
  pub size : q'.size ≡ q.size
  pub head : q'.head ≡ q.head
  pub tail : q'.tail ≡ last before vs
  pub chain : Chain h'.cell before vs null
  pub pool : h'.pool ≡ h.pool
  pub same : (a : Ptr) → has a vs ≡ false → h'.cell a ≡ h.cell a

pub unlink_next_lem :
    (h : Heap) (q : Dequeue) (d before : Ptr) (vs : Nodes) (t : Ptr)
    → q.tail ≡ last t vs
    → Chain h.cell t vs null
    → Returns (LinkedNext h q vs before) (unlink_next q (node d (first vs null) before) h)
unfolding unlink_next
unlink_next_lem h q d before [] t tail chain = returns (record {
  size = refl;
  head = refl;
  tail = refl;
  chain = tt;
  pool = refl;
  same = λ a out. refl;
})
unlink_next_lem h q d before ((s, e) ∷ vs) t tail chain =
    let (ne, holds, out, rest) = chain in
    rw (==_of_ne s null ne, set_prev-ok h ne holds before)
      (returns (record {
        size = refl;
        head = refl;
        tail = tail;
        chain = Chain-set_prev h.cell t before s e vs null chain;
        pool = refl;
        same = λ a away. write-ne h.cell s a _ (ne_of_cons a s e vs away).0;
      }))
