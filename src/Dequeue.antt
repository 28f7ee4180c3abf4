-- ===== src/Dequeue.antt =====
-- kernel/src/util/queue.c: a double-ended queue of pointers and its iterator. A `dequeue_t` and an
-- iterator live outside the heap of nodes, so a function that updates one returns the new value.
pub mod Abstract
pub mod PushBack
pub mod PopFront
pub mod Unlink
pub mod Iterate
mod Tests
use guide_os.Prelude.{
  ℕ, zero, suc, ◌+◌, ◌-◌, Bool, not, Option, none, some, ◌==◌, if◌then◌else◌, Cmd, panic,
  out_of_fuel, pure, ◌>>=◌, ◌>>◌,
}
use guide_os.Heap.{
  Ptr, null, Node, node, Heap, kmalloc, load, store, set_item, set_next, set_prev, kfree,
}

pub record Dequeue : Type 0 where
  pub size : ℕ
  pub head : Ptr
  pub tail : Ptr

-- `struct dequeue_iterator`; its pointer `q` is the queue that each function takes and returns
pub record Iterator : Type 0 where
  pub current_node : Ptr

-- `dequeue_construct`, for a pointer that may be NULL
unfoldable pub construct : Option Dequeue → Option Dequeue
construct none = none
construct (some q) = some (record { size = 0; head = null; tail = null })

-- `dequeue_push_back`
unfoldable pub push_back : Dequeue → Ptr → Cmd Heap Dequeue
push_back q item = do
  p ← kmalloc
  set_item p item
  set_next p null
  if q.size == 0
      then (do set_prev p null; pure (record { size = q.size + 1; head = p; tail = p }))
      else (do
        set_prev p q.tail
        set_next q.tail p
        pure (record q { size = q.size + 1; tail = p }))

-- `dequeue_push_front`. Its call of itself is bounded by fuel.
unfoldable pub push_front : ℕ → Dequeue → Ptr → Cmd Heap Dequeue
push_front zero q item = λ h. out_of_fuel
push_front (suc fuel) q item =
    let again = push_front fuel q item in
    if q.size == 0 then again else (do
      p ← kmalloc
      set_item p item
      set_prev p null
      set_next p q.head
      set_prev q.head p
      pure (record q { size = q.size + 1; head = p }))

-- `dequeue_peek_front`
unfoldable pub peek_front : Dequeue → Cmd Heap Ptr
peek_front q = if q.size == 0 then pure null else (do n ← load q.head; pure n.item)

-- What `dequeue_pop_front` does to the queue once the head is unlinked, `next` being the new head.
unfoldable pub drop_head : Dequeue → Ptr → Cmd Heap Dequeue
drop_head q next =
    if q.size - 1 == 0
    then pure (record { size = q.size - 1; head = next; tail = null })
    else if next == null
    then (λ h. panic "null head size > 0?")
    else (do set_prev next null; pure (record q { size = q.size - 1; head = next }))

-- `dequeue_pop_front`: the item, NULL on an empty queue
unfoldable pub pop_front : Dequeue → Cmd Heap (Ptr × Dequeue)
unfolding drop_head
pop_front q = if q.size == 0 then pure (null, q) else (do
  n ← load q.head
  q' ← drop_head q n.next
  m ← load q.head
  kfree q.head
  pure (m.item, q'))

-- `dequeue_pop_back`
unfoldable pub pop_back : Dequeue → Cmd Heap (Ptr × Dequeue)
pop_back q = λ h. panic "not implemented"

-- `dequeue_iterator`
abbrev pub iterator : Dequeue → Iterator
iterator q = record { current_node = q.head }

-- `dequeue_iterator_next`
unfoldable pub iterator_next : Iterator → Cmd Heap (Ptr × Iterator)
iterator_next it =
    if it.current_node == null
    then pure (null, it)
    else (do n ← load it.current_node; pure (n.item, record { current_node = n.next }))

-- `dequeue_iterator_has_next`
abbrev pub iterator_has_next : Iterator → Bool
iterator_has_next it = not (it.current_node == null)

-- The node that `dequeue_iterator_delete` takes out: the one that `iterator_next` last returned.
unfoldable pub delete_target : Dequeue → Iterator → Cmd Heap Ptr
delete_target q it =
    if it.current_node == null then pure q.tail else (do n ← load it.current_node; pure n.prev)

-- In `dequeue_iterator_delete`, what leads to the node from the front, and from the back.
unfoldable pub unlink_prev : Dequeue → Node → Cmd Heap Dequeue
unlink_prev q n =
    if n.prev == null
    then pure (record q { head = n.next })
    else (do set_next n.prev n.next; pure q)

unfoldable pub unlink_next : Dequeue → Node → Cmd Heap Dequeue
unlink_next q n =
    if n.next == null
    then pure (record q { tail = n.prev })
    else (do set_prev n.next n.prev; pure q)

-- The unlinking in `dequeue_iterator_delete`, for a node that is not NULL.
unfoldable pub unlink : Dequeue → Ptr → Cmd Heap Dequeue
unfolding unlink_prev unlink_next
unlink q t = do
  n ← load t
  q₁ ← unlink_prev q n
  m ← load t
  q₂ ← unlink_next q₁ m
  set_next t null
  set_prev t null
  pure (record q₂ { size = q₂.size - 1 })

abbrev reset_if_empty : Dequeue → Iterator → Dequeue × Iterator
reset_if_empty q it = if q.size == 0 then (q, record { current_node = null }) else (q, it)

-- `dequeue_iterator_delete`
unfoldable pub iterator_delete : Dequeue → Iterator → Cmd Heap (Dequeue × Iterator)
unfolding delete_target unlink
iterator_delete q it =
    if q.size == 0
    then pure (q, it)
    else if q.size == 1
    then (do (d, q') ← pop_front q; pure (q', it))
    else (do
      t ← delete_target q it
      q' ← if t == null then pure q else unlink q t
      pure (reset_if_empty q' it))
