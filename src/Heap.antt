-- ===== src/Heap.antt =====
-- The memory in which the nodes of kernel/src/util/queue.c live (`struct dequeue_node` of
-- kernel/include/util/queue.h), with the two allocator calls that the file makes.
pub mod Chain
pub use guide_os.Prelude.{Ptr, null}
use guide_os.Prelude.{
  ℕ, Bool, Option, none, some, List, [], ◌∷◌, ◌==◌, if◌then◌else◌, Run, Cmd, ok, fault, pure, ◌>>=◌,
  ◌>>◌,
}

-- `item` is the source's `data`, a pointer that the queue only passes on.
pub record Node : Type 0 where
  pub item : Ptr
  pub next : Ptr
  pub prev : Ptr

abbrev pub node : Ptr → Ptr → Ptr → Node
node d n p = record { item = d; next = n; prev = p }

abbrev pub Cells : Type 0
Cells = Ptr → Option Node

unfoldable pub write : Cells → Ptr → Option Node → Cells
write c p v a = if a == p then v else c a

-- `pool` lists the blocks that `kmalloc` hands out, in order; `junk` is what a block holds before
-- its first write.
pub record Heap : Type 0 where
  pub cell : Cells
  pub pool : List Ptr
  pub junk : Ptr → Node

-- `kmalloc(sizeof(struct dequeue_node))`, NULL when nothing is left
unfoldable pub kmalloc : Cmd Heap Ptr
kmalloc h = elim h.pool [
  | [] ↦ ok null h
  | p ∷ ps ↦ ok p (record h { cell = write h.cell p (some (h.junk p)); pool = ps })
]

-- `*p`: a fault at NULL and at an address that holds no node
unfoldable pub load : Ptr → Cmd Heap Node
load p h = if p == null then fault else elim (h.cell p) [ none ↦ fault | some n ↦ ok n h ]

abbrev pub store : Ptr → Node → Cmd Heap (Unit {0})
store p n h = ok tt (record h { cell = write h.cell p (some n) })

unfoldable pub set_item : Ptr → Ptr → Cmd Heap (Unit {0})
set_item p d = do n ← load p; store p (record n { item = d })

unfoldable pub set_next : Ptr → Ptr → Cmd Heap (Unit {0})
set_next p q = do n ← load p; store p (record n { next = q })

unfoldable pub set_prev : Ptr → Ptr → Cmd Heap (Unit {0})
set_prev p q = do n ← load p; store p (record n { prev = q })

-- `kfree(p)` of a block in use: it holds no node any more, and `kmalloc` may hand it out again.
unfoldable pub kfree : Ptr → Cmd Heap (Unit {0})
kfree p = do _ ← load p; λ h. ok tt (record h { cell = write h.cell p none; pool = p ∷ h.pool })
