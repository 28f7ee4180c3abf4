-- ===== src/Dequeue/Abstract.antt =====
-- The list that a queue of queue.c stands for, and the facts that its functions share.
use guide_os.Prelude.{
  ◌≡◌, refl, ◌≢◌, ap, ◌⊎◌, inl, inr, false, Option, none, some, List, [], ◌∷◌, ◌++◌, arith, length,
  ==_of_ne, ==_refl, fun_ext, ok,
}
use guide_os.Heap.{
  Ptr, null, Node, Cells, write, Heap, kmalloc, load, set_item, set_next, set_prev, kfree,
}
use guide_os.Heap.Chain.{Nodes, has, first, last, Chain}
use guide_os.Dequeue.{Dequeue}

pub record IsDequeue (c : Cells) (q : Dequeue) (xs : Nodes) : Type 0 where
  pub size : q.size ≡ length xs
  pub head : q.head ≡ first xs null
  pub tail : q.tail ≡ last null xs
  pub chain : Chain c null xs null

-- Nothing outside `xs` has changed.
abbrev pub SameOutside : Nodes → Cells → Cells → Type 0
SameOutside xs c c' = (a : Ptr) → has a xs ≡ false → c' a ≡ c a

-- An access to a node that is there.
module _ (h : Heap) {p : Ptr} {n : Node} (ne : p ≢ null) (holds : h.cell p ≡ some n) where
  pub load-ok : load p h ≡ ok n h
  unfolding load
  load-ok = rw (==_of_ne p null ne, holds)

  pub set_item-ok :
      (d : Ptr)
      → set_item p d h ≡ ok tt (record h { cell = write h.cell p (some (record n { item = d })) })
  unfolding set_item
  set_item-ok d = rw load-ok

  pub set_next-ok :
      (d : Ptr)
      → set_next p d h ≡ ok tt (record h { cell = write h.cell p (some (record n { next = d })) })
  unfolding set_next
  set_next-ok d = rw load-ok

  pub set_prev-ok :
      (d : Ptr)
      → set_prev p d h ≡ ok tt (record h { cell = write h.cell p (some (record n { prev = d })) })
  unfolding set_prev
  set_prev-ok d = rw load-ok

  pub kfree-ok : kfree p h ≡ ok tt (record h { cell = write h.cell p none; pool = p ∷ h.pool })
  unfolding kfree
  kfree-ok = rw load-ok

-- A list is empty or ends in an element.
pub snoc_cases {ℓ} :
    {A : Type ℓ} (xs : List A) → (xs ≡ []) ⊎ ((us : List A) × (x : A) × (xs ≡ us ++ (x ∷ [])))
snoc_cases [] = inl refl
snoc_cases (x ∷ xs) = elim (snoc_cases xs) [
  | inl e ↦ inr ([], x, ap (λ l. x ∷ l) e)
  | inr (us, y, e) ↦ inr (x ∷ us, y, ap (λ l. x ∷ l) e)
]

pub write_self : (c : Cells) (p : Ptr) (v : Option Node) → write c p v p ≡ v
unfolding write
write_self c p v = rw ==_refl

pub write-ne : (c : Cells) (p a : Ptr) (v : Option Node) → a ≢ p → write c p v a ≡ c a
unfolding write
write-ne c p a v h = rw (==_of_ne a p h)

pub write-write : (c : Cells) (p : Ptr) (v w : Option Node) → write (write c p v) p w ≡ write c p w
unfolding write
write-write c p v w = fun_ext λ a. ground arith

pub kmalloc-ok :
    (h : Heap) (p : Ptr) (ps : List Ptr)
    → h.pool ≡ p ∷ ps
    → kmalloc h ≡ ok p (record h { cell = write h.cell p (some (h.junk p)); pool = ps })
unfolding kmalloc
kmalloc-ok h p ps e = rw e

-- A second write to a node that was just written.
module _ (h : Heap) (c : Cells) (p : Ptr) (n : Node) (ps : List Ptr) (ne : p ≢ null) where
  pub rewrite_item :
      (d : Ptr)
      → set_item p d (record h { cell = write c p (some n); pool = ps })
        ≡ ok tt (record h { cell = write c p (some (record n { item = d })); pool = ps })
  rewrite_item d = rw (
    set_item-ok (record h { cell = write c p (some n); pool = ps }) ne (write_self c p (some n)) d,
    write-write,
  )

  pub rewrite_next :
      (d : Ptr)
      → set_next p d (record h { cell = write c p (some n); pool = ps })
        ≡ ok tt (record h { cell = write c p (some (record n { next = d })); pool = ps })
  rewrite_next d = rw (
    set_next-ok (record h { cell = write c p (some n); pool = ps }) ne (write_self c p (some n)) d,
    write-write,
  )

  pub rewrite_prev :
      (d : Ptr)
      → set_prev p d (record h { cell = write c p (some n); pool = ps })
        ≡ ok tt (record h { cell = write c p (some (record n { prev = d })); pool = ps })
  rewrite_prev d = rw (
    set_prev-ok (record h { cell = write c p (some n); pool = ps }) ne (write_self c p (some n)) d,
    write-write,
  )
