-- ===== src/Fifo/Concurrent/Steps.antt =====
-- Every step of the writer and of the reader of fifo.c keeps the invariant.
use native.Mathlib.Nat.{mod-eq_of_lt, mod-lt, add-zero}
use guide_os.Prelude.{
  ℕ, zero, suc, ◌+◌, ◌%◌, ◌<◌, ◌≡◌, refl, ◌≢◌, subst, sym, ap, ◌∙◌, [], ◌∷◌, ◌++◌, arith,
  append_assoc, length-set, get_or, set, get_or-set_self, get_or-set_ne,
}
use guide_os.Fifo.{advance}
use guide_os.Fifo.Window.{window, window-set_outside, window-suc, round_step}
use guide_os.Fifo.Concurrent.{
  Writer, Reader, System, Step, write_begin, write_full, write_check, write_store, write_commit,
  read_begin, read_empty, read_check, read_copy, read_commit,
}
use guide_os.Fifo.Concurrent.Invariant.{
  WriterAt, ReaderAt, Inv, advance_lem, reaches-suc, room_of_check, ReaderAt-store, ReaderAt-suc,
  WriterAt-read, waiting_of_check, ne_of_waiting,
}

module _ {n k : ℕ} {s : System} (inv : Inv n s k) where
  open inv use {fits, small, read_in, room, reaches, history, writer_at, reader_at}

  write_in : s.write < n
  write_in = rw (← reaches) (mod-lt (s.read + k) (omega (arith, room)))

  writer_is : {w : Writer} → s.writer ≡ w → WriterAt n k s.buffer s.read s.write w
  writer_is e = subst (WriterAt n k s.buffer s.read s.write) e writer_at

  reader_is : {r : Reader} → s.reader ≡ r → ReaderAt k s.buffer s.read r
  reader_is e = subst (ReaderAt k s.buffer s.read) e reader_at

  -- Both threads may change their local variables as long as what they know stays true.
  Inv-local :
      (w : Writer) (r : Reader)
      → WriterAt n k s.buffer s.read s.write w
      → ReaderAt k s.buffer s.read r
      → Inv n (record s { writer = w; reader = r }) k
  Inv-local w r hw hr = record {
    fits = fits;
    small = small;
    read_in = read_in;
    room = room;
    reaches = reaches;
    history = history;
    writer_at = hw;
    reader_at = hr;
  }

  Inv-write_begin : (byte : ℕ) → Inv n (record s { writer = Writer.loaded_read byte s.read }) k
  Inv-write_begin byte =
      Inv-local (Writer.loaded_read byte s.read) s.reader
        (0, rw add-zero (mod-eq_of_lt read_in), read_in, omega (arith, room)) reader_at

  Inv-write_check :
      {byte r : ℕ}
      → s.writer ≡ Writer.loaded_read byte r
      → advance n s.write ≢ r
      → Inv n (record s { writer = Writer.has_room byte s.write }) k
  Inv-write_check {byte} {r} e ne =
      let (d, stale, r_in, apart) = writer_is e in
      Inv-local (Writer.has_room byte s.write) s.reader
        (
          refl,
          room_of_check n k s.read s.write r d read_in write_in small room reaches stale r_in apart
              ne,
        )
        reader_at

  Inv-write_store :
      {byte w : ℕ}
      → s.writer ≡ Writer.has_room byte w
      → Inv n (record s { buffer = set s.buffer w byte; writer = Writer.stored byte w }) k
  Inv-write_store {byte} {w} e =
      let (here, more) = writer_is e in
      record {
        fits = omega (arith, length-set s.buffer w byte, fits);
        small = small;
        read_in = read_in;
        room = room;
        reaches = reaches;
        history =
            rw (here, window-set_outside s.buffer n byte k s.read s.write read_in room reaches)
              history;
        writer_at = (
          here,
          more,
          rw here (get_or-set_self s.buffer s.write byte 0 (omega (arith, write_in, fits))),
        );
        reader_at =
            ReaderAt-store k s.read s.buffer (set s.buffer w byte) s.reader
              (λ pos. get_or-set_ne s.buffer byte 0 (λ same.
                ne_of_waiting n k s.read s.write read_in room reaches pos (sym here ∙ same)))
              reader_at;
      }

  Inv-write_commit :
      {byte w : ℕ}
      → s.writer ≡ Writer.stored byte w
      → Inv n
          (record s { write = advance n w; writer = Writer.idle; sent = s.sent ++ (byte ∷ []) })
          (suc k)
  Inv-write_commit {byte} {w} e =
      let (here, more, is) = writer_is e in
      record {
        fits = fits;
        small = small;
        read_in = read_in;
        room = more;
        reaches =
            reaches-suc n s.read k s.write read_in room reaches
            ∙ sym (advance_lem n s.write write_in small)
            ∙ ap (advance n) (sym here);
        history =
            ap (λ l. l ++ (byte ∷ [])) history
            ∙ append_assoc s.received (window s.buffer n s.read k) (byte ∷ [])
            ∙ ap (λ l. s.received ++ l)
                (sym (window-suc s.buffer n k s.read read_in ∙ rw (reaches, is)));
        writer_at = tt;
        reader_at = ReaderAt-suc k s.read s.buffer s.reader reader_at;
      }

  Inv-read_check :
      {r : ℕ}
      → s.reader ≡ Reader.loaded_read r
      → r ≢ s.write
      → Inv n (record s { reader = Reader.has_byte r }) k
  Inv-read_check {r} e ne =
      let here : r ≡ s.read = reader_is e in
      Inv-local s.writer (Reader.has_byte r) writer_at
        (here, waiting_of_check n k s.read s.write read_in reaches (λ same. ne (here ∙ same)))

  Inv-read_copy :
      {r : ℕ}
      → s.reader ≡ Reader.has_byte r
      → Inv n (record s { reader = Reader.copied r (get_or s.buffer r 0) }) k
  Inv-read_copy {r} e =
      let (here, pos) = reader_is e in
      Inv-local s.writer (Reader.copied r (get_or s.buffer r 0)) writer_at
        (here, pos, ap (λ i. get_or s.buffer i 0) here)

Inv-read_commit :
    (n k : ℕ) {s : System} {r v : ℕ}
    → Inv n s k
    → s.reader ≡ Reader.copied r v
    → (j : ℕ) × Inv n
        (record s { read = advance n r; reader = Reader.idle; received = s.received ++ (v ∷ []) })
        j
Inv-read_commit n zero inv e = absurd (omega (arith, (reader_is inv e).1))
Inv-read_commit n (suc k) {s} {r} {v} inv e =
    let (here, pos, is) = reader_is inv e in
    let next : advance n r ≡ (s.read + 1) % n =
      ap (advance n) here ∙ advance_lem n s.read read_in small in
    (
      k,
      rw next (record {
        fits = fits;
        small = small;
        read_in = mod-lt (s.read + 1) (omega arith);
        room = omega arith;
        reaches = round_step n s.read k ∙ reaches;
        history =
            history
            ∙ ap (λ b. s.received ++ b ∷ window s.buffer n ((s.read + 1) % n) k) (sym is)
            ∙ sym (append_assoc s.received (v ∷ []) (window s.buffer n ((s.read + 1) % n) k));
        writer_at = WriterAt-read n k s.read s.write s.buffer s.writer writer_at;
        reader_at = tt;
      }),
    )
  where
    open inv use {fits, small, read_in, room, reaches, history, writer_at}

pub Step-Inv : {n k : ℕ} {s t : System} → Step n s t → Inv n s k → (j : ℕ) × Inv n t j
Step-Inv {k} (write_begin byte e) inv = (k, Inv-write_begin inv byte)
Step-Inv {k} {s} (write_full e full) inv = (k, Inv-local inv Writer.idle s.reader tt inv.reader_at)
Step-Inv {k} (write_check e ne) inv = (k, Inv-write_check inv e ne)
Step-Inv {k} (write_store e) inv = (k, Inv-write_store inv e)
Step-Inv {k} (write_commit e) inv = (suc k, Inv-write_commit inv e)
Step-Inv {k} {s} (read_begin e) inv =
    (k, Inv-local inv s.writer (Reader.loaded_read s.read) inv.writer_at refl)
Step-Inv {k} {s} (read_empty e none_wait) inv =
    (k, Inv-local inv s.writer Reader.idle inv.writer_at tt)
Step-Inv {k} (read_check e ne) inv = (k, Inv-read_check inv e ne)
Step-Inv {k} (read_copy e) inv = (k, Inv-read_copy inv e)
Step-Inv {n} {k} (read_commit e) inv = Inv-read_commit n k inv e
