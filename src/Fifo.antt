-- ===== src/Fifo.antt =====
-- kernel/src/util/fifo.c and kernel/include/util/fifo.h: the single-producer single-consumer byte
-- ring between the console interrupt and its readers. A pointer that may be NULL is an option, and
-- a function returns the new contents of the struct beside its result.
pub mod Window
pub mod Refine
pub mod Fill
pub mod Concurrent
mod Tests
use guide_os.Prelude.{
  ℕ, ◌+◌, ◌%◌, ◌^◌, Bool, true, false, Option, none, some, List, ◌==◌, if◌then◌else◌, get_or, set,
}

-- `os_error_t` of kernel/include/error.h
pub data OsError : Type 0 where
  oserr_ok oserr_invalid_argument oserr_no_memory : OsError

pub record Fifo : Type 0 where
  pub buffer : List ℕ
  pub buffer_size : ℕ
  pub read : ℕ
  pub watermark : ℕ
  pub write : ℕ

-- `i + 1` in a `size_t`, and then round the buffer
abbrev pub advance : ℕ → ℕ → ℕ
advance n i = (i + 1) % 2 ^ 64 % n

unfoldable pub spsc_fifo_init : Option Fifo → List ℕ → ℕ → OsError × Option Fifo
spsc_fifo_init none buffer buffer_size = (oserr_invalid_argument, none)
spsc_fifo_init (some f) buffer buffer_size =
    (oserr_ok, some (record f { buffer = buffer; buffer_size = buffer_size; read = 0; write = 0 }))

unfoldable pub spsc_fifo_write : Option Fifo → ℕ → OsError × Option Fifo
spsc_fifo_write none byte = (oserr_invalid_argument, none)
spsc_fifo_write (some f) byte =
    if advance f.buffer_size f.write == f.read then (oserr_no_memory, some f) else (
      oserr_ok,
      some (record f { buffer = set f.buffer f.write byte; write = advance f.buffer_size f.write }),
    )

-- The flag says that `pOut` is not NULL. `none` is the result -1; `some v` is the result 0 with
-- `*pOut = v`.
unfoldable pub spsc_fifo_read : Option Fifo → Bool → Option ℕ × Option Fifo
spsc_fifo_read none out = (none, none)
spsc_fifo_read (some f) false = (none, some f)
spsc_fifo_read (some f) true =
    if f.read == f.write
    then (none, some f)
    else (some (get_or f.buffer f.read 0), some (record f { read = advance f.buffer_size f.read }))
