-- ===== src/Handshake/Wakeup.antt =====
-- The sleep of `console_getc` and the wakeup of `console_isr_handler`.
use guide_os.Prelude.{◌<◌, ◌≡◌, refl, true, Option, none, some, arith}
use guide_os.Handshake.{
  Holder, reader_side, handler_side, others, waiting, ready, Handler, idle, draining, waking,
  scanning, woke, leaving, System, moved, Step, others_release, drained, wakeup_acquire,
  wakeup_move, Reach,
}
use guide_os.Handshake.Invariant.{will_wake, Inv, Step-Inv, Reach-Inv}

-- No wakeup is lost: while a reader is in the waiting queue and a byte is in the FIFO, the handler is
-- in its section and has yet to go through the waiting queue.
pub no_lost_wakeup :
    {s : System}
    → Reach s
    → s.reader ≡ waiting
    → 0 < s.bytes
    → (will_wake s.handler ≡ true) × (s.read_lock ≡ some handler_side)
no_lost_wakeup r e pos = let v = Reach-Inv r in ground arith

pub data Steps : System → System → Type 0 where
  done : {s : System} → Steps s s
  then_ : {s t u : System} → Step s t → Steps t u → Steps s u

Woken : System → Type 0
Woken s = (t : System) × Steps s t × (t.reader ≡ ready)

from_scanning : (s : System) → s.reader ≡ waiting → s.handler ≡ scanning → Woken s
unfolding Woken
from_scanning s e h =
    (record s { reader = moved s.reader; handler = woke }, then_ (wakeup_move h) done, rw e refl)

before : {s t : System} → Step s t → Woken t → Woken s
unfolding Woken
before step (u, steps, e) = (u, then_ step steps, e)

from_waking : (s : System) → Inv s → s.reader ≡ waiting → s.handler ≡ waking → Woken s
from_waking s v e h = by_lock s.sched_lock refl
  where
    by_lock : (l : Option Holder) → s.sched_lock ≡ l → Woken s
    by_lock none f = before (wakeup_acquire h f) (from_scanning _ e refl)
    by_lock (some others) f =
        before (others_release f) (before (wakeup_acquire h refl) (from_scanning _ e refl))
    by_lock (some reader_side) f = absurd (ground arith)
    by_lock (some handler_side) f = absurd (ground arith)

-- From any state in which a reader is in the waiting queue and a byte is in the FIFO, steps lead to one
-- in which the reader is in the ready queue.
pub reader_woken :
    {s : System}
    → Reach s
    → s.reader ≡ waiting
    → 0 < s.bytes
    → (t : System) × Steps s t × (t.reader ≡ ready)
unfolding Woken
reader_woken {s} r e pos = by_handler s.handler refl
  where
    v : Inv s
    v = Reach-Inv r

    by_handler : (h : Handler) → s.handler ≡ h → Woken s
    by_handler draining f = before (drained f) (from_waking _ (Step-Inv (drained f) v) e refl)
    by_handler waking f = from_waking s v e f
    by_handler scanning f = from_scanning s e f
    by_handler idle f = let w = no_lost_wakeup r e pos in absurd (ground arith)
    by_handler woke f = let w = no_lost_wakeup r e pos in absurd (ground arith)
    by_handler leaving f = let w = no_lost_wakeup r e pos in absurd (ground arith)
