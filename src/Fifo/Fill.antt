-- ===== src/Fifo/Fill.antt =====
-- `spsc_fifo_write` of fifo.c, by whether there is room.
use guide_os.Prelude.{
  ℕ, ◌+◌, ◌<◌, ◌≡◌, refl, some, [], ◌∷◌, ◌++◌, arith, ◌==◌, length, Bool-cases, inl, inr, eq_of_==,
  ne_of_==,
}
use guide_os.Fifo.{oserr_ok, oserr_no_memory, Fifo, advance, spsc_fifo_write}
use guide_os.Fifo.Refine.{
  IsValid, contents, length-contents, full_iff, contents-write, written-IsValid, written,
}

pub write-room :
    {f : Fifo} (x : ℕ)
    → IsValid f
    → length (contents f) + 1 < f.buffer_size
    → (spsc_fifo_write (some f) x ≡ (oserr_ok, some (written f x)))
      × (contents (written f x) ≡ contents f ++ (x ∷ []))
      × IsValid (written f x)
unfolding spsc_fifo_write
write-room {f} x v room = elim (Bool-cases (advance f.buffer_size f.write == f.read)) [
  | inl full ↦ absurd (omega (arith, (full_iff v).0 (eq_of_== _ _ full), length-contents v))
  | inr free ↦ rw free (refl, contents-write v x (ne_of_== _ _ free), written-IsValid v x)
]

pub write-full :
    {f : Fifo} (x : ℕ)
    → IsValid f
    → length (contents f) + 1 ≡ f.buffer_size
    → spsc_fifo_write (some f) x ≡ (oserr_no_memory, some f)
unfolding spsc_fifo_write
write-full {f} x v full = elim (Bool-cases (advance f.buffer_size f.write == f.read)) [
  | inl e ↦ rw e refl
  | inr free ↦ absurd (ne_of_== _ _ free ((full_iff v).1 (omega (arith, length-contents v))))
]
