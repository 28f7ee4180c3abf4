-- ===== src/Handshake/Tests.antt =====
-- A reader that sleeps, and the handler: the theorems at states that a run reaches.
use guide_os.Prelude.{◌≡◌, ◌↔◌, refl, true, none, some, arith}
use guide_os.Handshake.{
  reader_side, handler_side, waiting, ready, resumed, waking, System, Step, enter, find_empty,
  sleep_acquire, sleep_release, switch_out, switch_in, others_acquire, others_release, interrupt,
  write_byte, drained, wakeup_acquire, wakeup_move, wakeup_release, end_interrupt, draining, Reach,
  start, later,
}
use guide_os.Handshake.Invariant.{will_wake}
use guide_os.Handshake.Wakeup.{Steps, no_lost_wakeup, reader_woken}
use guide_os.Handshake.Deadlock.{deadlock}

-- The reader sleeps, and the handler has written a byte.
abbrev asleep : System
asleep = record {
  read_lock = some handler_side;
  sched_lock = none;
  bytes = 1;
  reader = waiting;
  handler = draining;
}

asleep-Reach : Reach asleep
asleep-Reach =
    let a = later start (enter refl refl) in
    let b = later (later a (find_empty refl refl)) (sleep_acquire refl refl) in
    let c = later (later b (sleep_release refl)) (switch_out refl) in
    let d = later (later c (others_release refl)) (interrupt refl refl) in later d (write_byte refl)

no_lost_wakeup_example : (will_wake asleep.handler ≡ true) × (asleep.read_lock ≡ some handler_side)
no_lost_wakeup_example = no_lost_wakeup asleep-Reach refl (omega arith)

reader_woken_example : (t : System) × Steps asleep t × (t.reader ≡ ready)
reader_woken_example = reader_woken asleep-Reach refl (omega arith)

-- The reader has been woken and picked while the handler runs for the next byte.
abbrev crossed : System
crossed = record {
  read_lock = some handler_side;
  sched_lock = some reader_side;
  bytes = 1;
  reader = resumed;
  handler = waking;
}

crossed-Reach : Reach crossed
crossed-Reach =
    let a = later (later asleep-Reach (drained refl)) (wakeup_acquire refl refl) in
    let b = later (later a (wakeup_move refl)) (wakeup_release refl) in
    let c = later (later b (end_interrupt refl)) (interrupt refl refl) in
    let d = later (later c (drained refl)) (others_acquire refl) in later d (switch_in refl refl)

deadlock_example :
    ((t : System) → Step crossed t → ⊥) ↔ ((crossed.reader ≡ resumed) × (crossed.handler ≡ waking))
deadlock_example = deadlock crossed-Reach
