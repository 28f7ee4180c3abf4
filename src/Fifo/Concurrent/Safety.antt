-- ===== src/Fifo/Concurrent/Safety.antt =====
-- Under every interleaving of fifo.c's writer and reader, the bytes come out as they went in.
use guide_os.Prelude.{ℕ, ◌^◌, ◌≤◌, ◌<◌, ◌≡◌, refl, List, ◌++◌, arith, length}
use guide_os.Fifo.Window.{mod_self, window, length-window}
use guide_os.Fifo.Concurrent.{System, Reach, start, later}
use guide_os.Fifo.Concurrent.Invariant.{Inv}
use guide_os.Fifo.Concurrent.Steps.{Step-Inv}

Reach-Inv :
    {n : ℕ} {buffer : List ℕ} {s : System}
    → 0 < n
    → n < 2 ^ 64
    → n ≤ length buffer
    → Reach n buffer s
    → (k : ℕ) × Inv n s k
Reach-Inv {n} pos small fits start = (
  0,
  record {
    fits = fits;
    small = small;
    read_in = pos;
    room = pos;
    reaches = mod_self n 0 0 refl pos;
    history = refl;
    writer_at = tt;
    reader_at = tt;
  },
)
Reach-Inv pos small fits (later r step) = Step-Inv step (Reach-Inv pos small fits r).1

-- However the writer and the reader interleave, the bytes that the reader has got are the first of
-- those that the writer has put in, in order, and fewer than `n` still wait.
pub received_in_order :
    {n : ℕ} {buffer : List ℕ} {s : System}
    → 0 < n
    → n < 2 ^ 64
    → n ≤ length buffer
    → Reach n buffer s
    → (waiting : List ℕ) × (s.sent ≡ s.received ++ waiting) × (length waiting < n)
received_in_order {n} {s} pos small fits r =
    let (k, inv) = Reach-Inv pos small fits r in
    (
      window s.buffer n s.read k,
      inv.history,
      omega (arith, length-window s.buffer n s.read k, inv.room),
    )
