-- ===== src/Handshake.antt =====
-- The wait for input: a process in `console_getc` of kernel/src/arch/x86/console.c, which sleeps by
-- `sched_sleep` of kernel/src/proc/sched.c, against `console_isr_handler` on another CPU, which wakes
-- it by `sched_wakeup`. The two interleave at each lock operation and each access to the FIFO, with
-- the scheduler of any other CPU, which also takes the scheduler's lock.
pub mod Invariant
pub mod Wakeup
pub mod Deadlock
mod Tests
use guide_os.Prelude.{ℕ, zero, suc, ◌≡◌, Option, none, some}

-- Who holds a lock. `others` is the scheduler, and the processes that return from it.
pub data Holder : Type 0 where
  reader_side handler_side others : Holder

-- Where the process stands: at `spsc_fifo_read`; with a byte; in `sched_sleep` before it has the
-- scheduler's lock, with both locks, and with the scheduler's; in the waiting queue; in the ready
-- queue; back from the switch, with the scheduler's lock, and with both locks.
pub data Reader : Type 0 where
  outside reading got falling holding_both marked waiting ready resumed returning : Reader

-- Where the handler stands: in its loop over the device; at the `acquire` of `sched_wakeup`, in its
-- loop, and behind it; and at its own `release`.
pub data Handler : Type 0 where
  idle draining waking scanning woke leaving : Handler

-- `console_read_lock`, `sched.lock`, and the number of bytes in `console_fifo`
pub record System : Type 0 where
  pub read_lock : Option Holder
  pub sched_lock : Option Holder
  pub bytes : ℕ
  pub reader : Reader
  pub handler : Handler

-- What the loop of `sched_wakeup` does to the reader
abbrev pub moved : Reader → Reader
moved waiting = ready
moved r = r

pub data Step (s : System) : System → Type 0 where
  enter :
      s.reader ≡ outside
      → s.read_lock ≡ none
      → Step s (record s { read_lock = some reader_side; reader = reading })
  read_byte :
      {n : ℕ} → s.reader ≡ reading → s.bytes ≡ suc n → Step s (record s { bytes = n; reader = got })
  find_empty : s.reader ≡ reading → s.bytes ≡ zero → Step s (record s { reader = falling })
  leave : s.reader ≡ got → Step s (record s { read_lock = none; reader = outside })
  sleep_acquire :
      s.reader ≡ falling
      → s.sched_lock ≡ none
      → Step s (record s { sched_lock = some reader_side; reader = holding_both })
  sleep_release : s.reader ≡ holding_both → Step s (record s { read_lock = none; reader = marked })
  -- `sched_switch_out`: the loop of `sched_start` queues the process, and goes on with the lock.
  switch_out : s.reader ≡ marked → Step s (record s { sched_lock = some others; reader = waiting })
  switch_in :
      s.reader ≡ ready
      → s.sched_lock ≡ some others
      → Step s (record s { sched_lock = some reader_side; reader = resumed })
  retake :
      s.reader ≡ resumed
      → s.read_lock ≡ none
      → Step s (record s { read_lock = some reader_side; reader = returning })
  come_back : s.reader ≡ returning → Step s (record s { sched_lock = none; reader = reading })
  others_acquire : s.sched_lock ≡ none → Step s (record s { sched_lock = some others })
  others_release : s.sched_lock ≡ some others → Step s (record s { sched_lock = none })
  interrupt :
      s.handler ≡ idle
      → s.read_lock ≡ none
      → Step s (record s { read_lock = some handler_side; handler = draining })
  write_byte : s.handler ≡ draining → Step s (record s { bytes = suc (s.bytes) })
  drained : s.handler ≡ draining → Step s (record s { handler = waking })
  wakeup_acquire :
      s.handler ≡ waking
      → s.sched_lock ≡ none
      → Step s (record s { sched_lock = some handler_side; handler = scanning })
  wakeup_move : s.handler ≡ scanning → Step s (record s { reader = moved s.reader; handler = woke })
  wakeup_release : s.handler ≡ woke → Step s (record s { sched_lock = none; handler = leaving })
  end_interrupt : s.handler ≡ leaving → Step s (record s { read_lock = none; handler = idle })

abbrev pub initial : System
initial = record {
  read_lock = none;
  sched_lock = none;
  bytes = 0;
  reader = outside;
  handler = idle;
}

pub data Reach : System → Type 0 where
  start : Reach initial
  later : {s t : System} → Reach s → Step s t → Reach t
