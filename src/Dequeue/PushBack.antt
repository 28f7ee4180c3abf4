-- ===== src/Dequeue/PushBack.antt =====
-- `dequeue_push_back` of queue.c.
use guide_os.Prelude.{
  ◌≡◌, refl, sym, subst, ◌∙◌, inl, inr, false, some, List, [], ◌∷◌, ◌++◌, arith, length-append,
  ◌==◌, ==_of_ne, fault, Returns, returns,
}
use guide_os.Heap.{Ptr, null, Node, node, Cells, write, Heap, kmalloc, load, set_item}
use guide_os.Heap.Chain.{
  Nodes, has, last, Free, Chain-write, Chain-join, Chain-set_next, not-has_of_none,
  not-contains_of_some, Free-write, first-append, last-append, Apart-single, ne_of_snoc, first-snoc,
}
use guide_os.Dequeue.{Dequeue, push_back}
use guide_os.Dequeue.Abstract.{
  IsDequeue, SameOutside, set_next-ok, rewrite_item, rewrite_next, rewrite_prev, snoc_cases,
  write_self, write-ne, kmalloc-ok,
}

-- What a push leaves: the nodes `ys`, the blocks `ps`, and nothing changed outside `ys`.
abbrev pub Pushed : Heap → Nodes → List Ptr → Dequeue → Heap → Type 0
Pushed h ys ps q' h' =
    IsDequeue h'.cell q' ys × (h'.pool ≡ ps) × Free h'.cell ps × SameOutside ys h.cell h'.cell

module _ (h : Heap) (p item : Ptr) (ps : List Ptr) (pool : h.pool ≡ p ∷ ps)
    (free : Free h.cell (p ∷ ps)) where
  push_back-nil :
      (q : Dequeue)
      → IsDequeue h.cell q []
      → Returns (Pushed h ((p, item) ∷ []) ps) (push_back q item h)
  unfolding push_back write
  push_back-nil q is =
      let ne = free.0 in
      let j = h.junk p in
      let c = h.cell in
      rw
        (
          kmalloc-ok h p ps pool,
          rewrite_item h c p j ps ne item,
          rewrite_next h c p (node item j.next j.prev) ps ne null,
          is.size,
          rewrite_prev h c p (node item null j.prev) ps ne null,
        )
        (returns (
          record {
            size = omega arith;
            head = refl;
            tail = refl;
            chain = (ne, ground arith, refl, tt);
          },
          refl,
          Free-write c p (some (node item null null)) ps free.2 free.3,
          λ a out. ground arith,
        ))

  -- The last node `(t, d)` of a queue that is not empty is linked to the new one.
  push_back-snoc :
      (q : Dequeue) (us : Nodes) (t d : Ptr)
      → IsDequeue h.cell q (us ++ ((t, d) ∷ []))
      → Returns (Pushed h ((us ++ ((t, d) ∷ [])) ++ ((p, item) ∷ [])) ps) (push_back q item h)
  unfolding push_back
  push_back-snoc q us t d is =
      let ne = free.0 in
      let j = h.junk p in
      let xs : Nodes = us ++ ((t, d) ∷ []) in
      let n : Node = node item null t in
      let c : Cells = write h.cell p (some n) in
      let out : has p xs ≡ false = not-has_of_none h.cell p null xs null free.1 is.chain in
      let (holds, t_ne, linked) =
        Chain-set_next c null us t d null p
          (Chain-write h.cell p (some n) null xs null out is.chain) in
      let end = last-append null us ((t, d) ∷ []) in
      let p_ne = (ne_of_snoc p t d us out).0 in
      let nonempty : (q.size == 0) ≡ false =
        ==_of_ne q.size 0 (omega (arith, is.size, length-append us ((t, d) ∷ []))) in
      rw
        (
          kmalloc-ok h p ps pool,
          rewrite_item h h.cell p j ps ne item,
          rewrite_next h h.cell p (node item j.next j.prev) ps ne null,
          nonempty,
          is.tail,
          end,
          rewrite_prev h h.cell p (node item null j.prev) ps ne t,
          set_next-ok (record h { cell = c; pool = ps }) t_ne holds p,
        )
        (returns (
          record {
            size = omega (arith, is.size, length-append xs ((p, item) ∷ []));
            head = is.head ∙ first-snoc us t d null p ∙ sym (first-append xs ((p, item) ∷ []) null);
            tail = sym (last-append null xs ((p, item) ∷ []));
            chain =
                Chain-join (write c t (some (node d p (last null us)))) null xs ((p, item) ∷ [])
                  null linked
                  (
                    ne,
                    rw end (
                        write-ne c t p (some (node d p (last null us))) p_ne
                        ∙ write_self h.cell p (some n)),
                    refl,
                    tt,
                  )
                  (Apart-single p item xs out);
          },
          refl,
          Free-write c t (some (node d p (last null us))) ps
              (not-contains_of_some c t (node d null (last null us)) ps holds
                (Free-write h.cell p (some n) ps free.2 free.3))
              (Free-write h.cell p (some n) ps free.2 free.3),
          λ a away.
              let (a_ne_p, old) = ne_of_snoc a p item xs away in
              let a_ne_t = (ne_of_snoc a t d us old).0 in
              write-ne c t a (some (node d p (last null us))) a_ne_t
              ∙ write-ne h.cell p a (some n) a_ne_p,
        ))

-- While `kmalloc` has a block, `dequeue_push_back` puts the item behind the others, takes that one
-- block, and changes no memory but that of the queue's nodes.
pub push_back-append :
    (h : Heap) (q : Dequeue) (xs : Nodes) (item p : Ptr) (ps : List Ptr)
    → IsDequeue h.cell q xs
    → Free h.cell (p ∷ ps)
    → h.pool ≡ p ∷ ps
    → Returns (Pushed h (xs ++ ((p, item) ∷ [])) ps) (push_back q item h)
push_back-append h q xs item p ps is free pool = elim (snoc_cases xs) [
  | inl e ↦
      let IsOf : Nodes → Type 0 = λ l. IsDequeue h.cell q l in
      rw e (push_back-nil h p item ps pool free q (subst IsOf e is))
  | inr (us, (t, d), e) ↦
      let IsOf : Nodes → Type 0 = λ l. IsDequeue h.cell q l in
      rw e (push_back-snoc h p item ps pool free q us t d (subst IsOf e is))
]

-- Without a block, `dequeue_push_back` writes through NULL.
pub push_back-no_memory :
    (h : Heap) (q : Dequeue) (item : Ptr) → h.pool ≡ [] → push_back q item h ≡ fault
unfolding push_back kmalloc set_item load
push_back-no_memory h q item e = rw e
