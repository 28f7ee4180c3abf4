-- ===== src/Fifo/Tests.antt =====
-- Runs of fifo.c, and its theorems at concrete rings.
use guide_os.Prelude.{ℕ, ◌<◌, ◌≡◌, refl, true, some, List, [], ◌∷◌, ◌++◌, arith, length}
use guide_os.Fifo.{Fifo, oserr_no_memory, spsc_fifo_write, spsc_fifo_read}
use guide_os.Fifo.Refine.{
  IsValid, IsValid?, contents?, enqueue, dequeue, write_refines, read_refines,
}
use guide_os.Fifo.Concurrent.{
  Reader, write_begin, write_check, write_store, write_commit, read_begin, initial, Reach, start,
  later,
}
use guide_os.Fifo.Concurrent.Safety.{received_in_order}

-- 8, then 9, round the end of a ring of four
abbrev wrapped : Fifo
wrapped = record {
  buffer = 9 ∷ 0 ∷ 7 ∷ 8 ∷ [];
  buffer_size = 4;
  read = 3;
  watermark = 0;
  write = 1;
}

wrapped-IsValid : IsValid wrapped
wrapped-IsValid = omega arith

full_refuses : (spsc_fifo_write (some (record wrapped { write = 2 })) 5).0 ≡ oserr_no_memory
unfolding spsc_fifo_write
full_refuses = refl

write_refines_example :
    let (s, f') = spsc_fifo_write (some wrapped) 5 in
    let (s', q) = enqueue 3 (8 ∷ 9 ∷ []) 5 in (s ≡ s') × (contents? f' ≡ some q) × IsValid? f'
write_refines_example = write_refines 5 wrapped-IsValid

read_refines_example :
    let (r, f') = spsc_fifo_read (some wrapped) true in
    let (r', q) = dequeue (8 ∷ 9 ∷ []) in (r ≡ r') × (contents? f' ≡ some q) × IsValid? f'
read_refines_example = read_refines wrapped-IsValid

abbrev ring : List ℕ
ring = 0 ∷ 0 ∷ []

-- The reader begins, and the writer puts one byte in.
one_byte : Reach 2 ring (record (initial ring) {
  buffer = 7 ∷ 0 ∷ [];
  write = 1;
  reader = Reader.loaded_read 0;
  sent = 7 ∷ [];
})
one_byte =
    later
      (later
        (later (later (later start (read_begin refl)) (write_begin 7 refl))
          (write_check refl (omega arith)))
        (write_store refl))
      (write_commit refl)

received_in_order_example : (waiting : List ℕ) × (7 ∷ [] ≡ [] ++ waiting) × (length waiting < 2)
received_in_order_example = received_in_order (omega arith) (omega arith) (omega arith) one_byte
