-- ===== src/Handshake/Deadlock.antt =====
-- The order in which `sched_sleep` and `console_isr_handler` take their two locks.
use guide_os.Prelude.{◌≡◌, ◌↔◌, ◌⊎◌, inl, inr, refl, Option, none, some, arith}
use guide_os.Handshake.{
  Holder, reader_side, handler_side, others, Reader, outside, reading, got, falling, holding_both,
  marked, waiting, ready, resumed, returning, Handler, idle, draining, waking, scanning, woke,
  leaving, System, Step, enter, read_byte, find_empty, leave, sleep_acquire, sleep_release,
  switch_out, switch_in, retake, come_back, others_acquire, others_release, interrupt, write_byte,
  drained, wakeup_acquire, wakeup_move, wakeup_release, end_interrupt, Reach,
}
use guide_os.Handshake.Invariant.{Inv, Reach-Inv}

-- The reader is back with the scheduler's lock, and the handler calls `sched_wakeup` with the other.
abbrev pub Crossed : System → Type 0
Crossed s = (s.reader ≡ resumed) × (s.handler ≡ waking)

Crossed-stuck : {s t : System} → Inv s → Crossed s → Step s t → ⊥
Crossed-stuck v (e, f) (enter a b) = ground arith
Crossed-stuck v (e, f) (read_byte a b) = ground arith
Crossed-stuck v (e, f) (find_empty a b) = ground arith
Crossed-stuck v (e, f) (leave a) = ground arith
Crossed-stuck v (e, f) (sleep_acquire a b) = ground arith
Crossed-stuck v (e, f) (sleep_release a) = ground arith
Crossed-stuck v (e, f) (switch_out a) = ground arith
Crossed-stuck v (e, f) (switch_in a b) = ground arith
Crossed-stuck v (e, f) (retake a b) = ground arith
Crossed-stuck v (e, f) (come_back a) = ground arith
Crossed-stuck v (e, f) (others_acquire b) = ground arith
Crossed-stuck v (e, f) (others_release b) = ground arith
Crossed-stuck v (e, f) (interrupt a b) = ground arith
Crossed-stuck v (e, f) (write_byte a) = ground arith
Crossed-stuck v (e, f) (drained a) = ground arith
Crossed-stuck v (e, f) (wakeup_acquire a b) = ground arith
Crossed-stuck v (e, f) (wakeup_move a) = ground arith
Crossed-stuck v (e, f) (wakeup_release a) = ground arith
Crossed-stuck v (e, f) (end_interrupt a) = ground arith

Moves : System → Type 0
Moves s = (t : System) × Step s t

module _ (s : System) (v : Inv s) where
  handler-Moves :
      s.sched_lock ≡ some reader_side
      → s.reader ≡ resumed
      → (h : Handler) → s.handler ≡ h
      → s.read_lock ≡ some handler_side
      → Moves s ⊎ Crossed s
  unfolding Moves
  handler-Moves l e idle f held = absurd (ground arith)
  handler-Moves l e draining f held = inl (_, drained f)
  handler-Moves l e waking f held = inr (e, f)
  handler-Moves l e scanning f held = absurd (ground arith)
  handler-Moves l e woke f held = absurd (ground arith)
  handler-Moves l e leaving f held = inl (_, end_interrupt f)

  resumed-Moves :
      s.sched_lock ≡ some reader_side
      → s.reader ≡ resumed
      → (l : Option Holder) → s.read_lock ≡ l
      → Moves s ⊎ Crossed s
  unfolding Moves
  resumed-Moves l e none f = inl (_, retake e f)
  resumed-Moves l e (some handler_side) f = handler-Moves l e s.handler refl f
  resumed-Moves l e (some reader_side) f = absurd (ground arith)
  resumed-Moves l e (some others) f = absurd (ground arith)

  reader-Moves : s.sched_lock ≡ some reader_side → (r : Reader) → s.reader ≡ r → Moves s ⊎ Crossed s
  unfolding Moves
  reader-Moves l holding_both e = inl (_, sleep_release e)
  reader-Moves l marked e = inl (_, switch_out e)
  reader-Moves l resumed e = resumed-Moves l e s.read_lock refl
  reader-Moves l returning e = inl (_, come_back e)
  reader-Moves l outside e = absurd (ground arith)
  reader-Moves l reading e = absurd (ground arith)
  reader-Moves l got e = absurd (ground arith)
  reader-Moves l falling e = absurd (ground arith)
  reader-Moves l waiting e = absurd (ground arith)
  reader-Moves l ready e = absurd (ground arith)

  scanning-Moves :
      s.sched_lock ≡ some handler_side → (h : Handler) → s.handler ≡ h → Moves s ⊎ Crossed s
  unfolding Moves
  scanning-Moves l scanning f = inl (_, wakeup_move f)
  scanning-Moves l woke f = inl (_, wakeup_release f)
  scanning-Moves l idle f = absurd (ground arith)
  scanning-Moves l draining f = absurd (ground arith)
  scanning-Moves l waking f = absurd (ground arith)
  scanning-Moves l leaving f = absurd (ground arith)

  sched_lock-Moves : (l : Option Holder) → s.sched_lock ≡ l → Moves s ⊎ Crossed s
  unfolding Moves
  sched_lock-Moves none e = inl (_, others_acquire e)
  sched_lock-Moves (some others) e = inl (_, others_release e)
  sched_lock-Moves (some reader_side) e = reader-Moves e s.reader refl
  sched_lock-Moves (some handler_side) e = scanning-Moves e s.handler refl

-- The two lock orders meet in one way only: the system is stuck exactly if a woken reader is back
-- from the switch with the scheduler's lock and waits for `console_read_lock`, while the handler on
-- another CPU has that one and waits for the scheduler's lock.
pub deadlock :
    {s : System}
    → Reach s
    → ((t : System) → Step s t → ⊥) ↔ ((s.reader ≡ resumed) × (s.handler ≡ waking))
unfolding Moves
deadlock {s} r = (
  λ stuck. elim (sched_lock-Moves s (Reach-Inv r) s.sched_lock refl) [
    | inl (t, step) ↦ absurd (stuck t step)
    | inr crossed ↦ crossed
  ],
  λ crossed t step. Crossed-stuck (Reach-Inv r) crossed step,
)
