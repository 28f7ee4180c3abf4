-- ===== src/Handshake/Invariant.antt =====
-- What the interleaving of a reader and the handler keeps true.
use guide_os.Prelude.{◌<◌, ◌≡◌, Bool, true, false, Option, none, some, arith}
use guide_os.Handshake.{
  Holder, reader_side, handler_side, others, Reader, reading, got, falling, holding_both, marked,
  waiting, resumed, returning, Handler, idle, draining, waking, scanning, woke, System, Step, enter,
  read_byte, find_empty, leave, sleep_acquire, sleep_release, switch_out, switch_in, retake,
  come_back, others_acquire, others_release, interrupt, write_byte, drained, wakeup_acquire,
  wakeup_move, wakeup_release, end_interrupt, Reach, start, later,
}

abbrev pub is_side : Holder → Holder → Bool
is_side reader_side reader_side = true
is_side handler_side handler_side = true
is_side others others = true
is_side _ _ = false

abbrev pub holds : Holder → Option Holder → Bool
holds h none = false
holds h (some x) = is_side h x

-- The locks that each side holds where it stands
abbrev pub reader_reads : Reader → Bool
reader_reads reading = true
reader_reads got = true
reader_reads falling = true
reader_reads holding_both = true
reader_reads returning = true
reader_reads _ = false

abbrev pub reader_schedules : Reader → Bool
reader_schedules holding_both = true
reader_schedules marked = true
reader_schedules resumed = true
reader_schedules returning = true
reader_schedules _ = false

abbrev pub handler_reads : Handler → Bool
handler_reads idle = false
handler_reads _ = true

abbrev pub handler_schedules : Handler → Bool
handler_schedules scanning = true
handler_schedules woke = true
handler_schedules _ = false

-- The handler has yet to go through the waiting queue.
abbrev pub will_wake : Handler → Bool
will_wake draining = true
will_wake waking = true
will_wake scanning = true
will_wake _ = false

-- The reader has found the FIFO empty and is not woken yet.
abbrev pub falls_asleep : Reader → Bool
falls_asleep falling = true
falls_asleep holding_both = true
falls_asleep marked = true
falls_asleep waiting = true
falls_asleep _ = false

-- Each side has exactly the locks that it holds where it stands, and a reader that falls asleep while a byte
-- waits has the handler coming.
abbrev pub Inv : System → Type 0
Inv s =
    (reader_reads s.reader ≡ true → s.read_lock ≡ some reader_side)
    × (reader_schedules s.reader ≡ true → s.sched_lock ≡ some reader_side)
    × (handler_reads s.handler ≡ true → s.read_lock ≡ some handler_side)
    × (handler_schedules s.handler ≡ true → s.sched_lock ≡ some handler_side)
    × (holds reader_side s.read_lock ≡ true → reader_reads s.reader ≡ true)
    × (holds reader_side s.sched_lock ≡ true → reader_schedules s.reader ≡ true)
    × (holds handler_side s.read_lock ≡ true → handler_reads s.handler ≡ true)
    × (holds handler_side s.sched_lock ≡ true → handler_schedules s.handler ≡ true)
    × (holds others s.read_lock ≡ false)
    × (falls_asleep s.reader ≡ true → 0 < s.bytes → will_wake s.handler ≡ true)

pub Step-Inv : {s t : System} → Step s t → Inv s → Inv t
Step-Inv (enter e l) v = ground arith
Step-Inv (read_byte e l) v = ground arith
Step-Inv (find_empty e l) v = ground arith
Step-Inv (leave e) v = ground arith
Step-Inv (sleep_acquire e l) v = ground arith
Step-Inv (sleep_release e) v = ground arith
Step-Inv (switch_out e) v = ground arith
Step-Inv (switch_in e l) v = ground arith
Step-Inv (retake e l) v = ground arith
Step-Inv (come_back e) v = ground arith
Step-Inv (others_acquire l) v = ground arith
Step-Inv (others_release l) v = ground arith
Step-Inv (interrupt e l) v = ground arith
Step-Inv (write_byte e) v = ground arith
Step-Inv (drained e) v = ground arith
Step-Inv (wakeup_acquire e l) v = ground arith
Step-Inv (wakeup_move e) v = ground arith
Step-Inv (wakeup_release e) v = ground arith
Step-Inv (end_interrupt e) v = ground arith

pub Reach-Inv : {s : System} → Reach s → Inv s
Reach-Inv start = ground arith
Reach-Inv (later r step) = Step-Inv step (Reach-Inv r)
