-- ===== src/Dequeue/Tests.antt =====
-- Runs of queue.c, and its theorems at a concrete heap.
use guide_os.Prelude.{refl, none, some, [], ◌∷◌, arith, ◌==◌, if◌then◌else◌, Returns}
use guide_os.Heap.{node, Cells, Heap}
use guide_os.Dequeue.{Dequeue, push_back, pop_front, iterator_delete}
use guide_os.Dequeue.Abstract.{IsDequeue}
use guide_os.Dequeue.PushBack.{Pushed, push_back-append}
use guide_os.Dequeue.PopFront.{Popped, pop_front-cons}
use guide_os.Dequeue.Iterate.{Deleted, iterator_delete_lem}

-- Two nodes: item 7 at address 1, and item 8 at address 2; block 3 is left.
abbrev cells : Cells
cells a = if a == 1 then some (node 7 2 0) else if a == 2 then some (node 8 0 1) else none

abbrev heap : Heap
heap = record { cell = cells; pool = 3 ∷ []; junk = λ a. node 0 0 0 }

abbrev two : Dequeue
two = record { size = 2; head = 1; tail = 2 }

abbrev empty : Dequeue
empty = record { size = 0; head = 0; tail = 0 }

two-IsDequeue : IsDequeue cells two ((1, 7) ∷ (2, 8) ∷ [])
two-IsDequeue = record {
  size = refl;
  head = refl;
  tail = refl;
  chain = (omega arith, refl, refl, (omega arith, refl, refl, tt));
}

push_back-append_example :
    Returns (Pushed heap ((1, 7) ∷ (2, 8) ∷ (3, 9) ∷ []) []) (push_back two 9 heap)
push_back-append_example =
    push_back-append heap two ((1, 7) ∷ (2, 8) ∷ []) 9 3 [] two-IsDequeue
      (omega arith, refl, refl, tt) refl

pop_front-cons_example : Returns (Popped heap 1 7 ((2, 8) ∷ [])) (pop_front two heap)
pop_front-cons_example =
    pop_front-cons heap two 1 7 ((2, 8) ∷ []) (omega arith, refl, refl, tt) two-IsDequeue

iterator_delete_lem_example :
    Returns
      (Deleted heap [] 1 7 ((2, 8) ∷ []))
      (iterator_delete two (record { current_node = 2 }) heap)
iterator_delete_lem_example =
    iterator_delete_lem heap two (record { current_node = 2 }) [] 1 7 ((2, 8) ∷ [])
      (omega arith, refl, refl, tt) two-IsDequeue refl
