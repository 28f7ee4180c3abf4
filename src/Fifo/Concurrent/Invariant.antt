-- ===== src/Fifo/Concurrent/Invariant.antt =====
-- What holds of the shared ring of fifo.c between any two steps of its writer and reader.
use native.Mathlib.Nat.{mod-add-mod, add_assoc}
use native.Mathlib.Decide.{dec_lt}
use guide_os.Prelude.{
  ℕ, zero, suc, ◌+◌, ◌%◌, ◌^◌, ◌≤◌, ◌<◌, ◌≡◌, ◌≢◌, sym, ap, ◌∙◌, List, ◌++◌, arith, length, get_or,
}
use guide_os.Fifo.{advance}
use guide_os.Fifo.Window.{mod_self, mod_back, window, round-ne_start}
use guide_os.Fifo.Concurrent.{Writer, Reader, System}

-- A loaded read index may be stale: `d` bytes were taken since. With the `k` that wait they do not
-- go round the ring.
abbrev pub WriterAt : ℕ → ℕ → List ℕ → ℕ → ℕ → Writer → Type 0
WriterAt n k buffer read write Writer.idle = Unit
WriterAt n k buffer read write (Writer.loaded_read byte r) =
    (d : ℕ) × ((r + d) % n ≡ read) × (r < n) × (d + k < n)
WriterAt n k buffer read write (Writer.has_room byte w) = (w ≡ write) × (suc k < n)
WriterAt n k buffer read write (Writer.stored byte w) =
    (w ≡ write) × (suc k < n) × (get_or buffer write 0 ≡ byte)

abbrev pub ReaderAt : ℕ → List ℕ → ℕ → Reader → Type 0
ReaderAt k buffer read Reader.idle = Unit
ReaderAt k buffer read (Reader.loaded_read r) = r ≡ read
ReaderAt k buffer read (Reader.has_byte r) = (r ≡ read) × (0 < k)
ReaderAt k buffer read (Reader.copied r v) = (r ≡ read) × (0 < k) × (v ≡ get_or buffer read 0)

-- `k` bytes wait between the two indices.
pub record Inv (n : ℕ) (s : System) (k : ℕ) : Type 0 where
  pub fits : n ≤ length s.buffer
  pub small : n < 2 ^ 64
  pub read_in : s.read < n
  pub room : k < n
  pub reaches : (s.read + k) % n ≡ s.write
  pub history : s.sent ≡ s.received ++ window s.buffer n s.read k
  pub writer_at : WriterAt n k s.buffer s.read s.write s.writer
  pub reader_at : ReaderAt k s.buffer s.read s.reader

-- `advance` without the wrap of `size_t`.
pub advance_lem : (n i : ℕ) → i < n → n < 2 ^ 64 → advance n i ≡ (i + 1) % n
advance_lem n i h small = ap (λ t. t % n) (omega arith)

-- One more byte than wait is stored at `write`, once the writer has stored it.
pub reaches-suc : (n i k w : ℕ) → i < n → k < n → (i + k) % n ≡ w → (i + suc k) % n ≡ (w + 1) % n
reaches-suc n i k w hi hk e =
    ap (λ t. t % n) (omega arith) ∙ sym (mod-add-mod (i + k) n 1) ∙ ap (λ t. (t + 1) % n) e

-- The writer's test leaves room, also when its read index is stale.
pub room_of_check :
    (n k read write r d : ℕ)
    → read < n
    → write < n
    → n < 2 ^ 64
    → k < n
    → (read + k) % n ≡ write
    → (r + d) % n ≡ read
    → r < n
    → d + k < n
    → advance n write ≢ r
    → suc k < n
room_of_check n k read write r d hr hw small hk reaches stale r_in apart ne =
    elim (dec_lt (suc k) n) [
      | yes p ↦ p
      | no p ↦ absurd (
          ne (
            advance_lem n write hw small
            ∙ sym (reaches-suc n read k write hr hk reaches)
            ∙ mod_back n (read + suc k) read (omega arith) hr
            ∙ sym stale
            ∙ mod_self n (r + d) r (omega arith) r_in))
    ]

pub ReaderAt-store :
    (k read : ℕ) (buffer buffer' : List ℕ) (r : Reader)
    → (0 < k → get_or buffer' read 0 ≡ get_or buffer read 0)
    → ReaderAt k buffer read r
    → ReaderAt k buffer' read r
ReaderAt-store k read buffer buffer' Reader.idle same h = tt
ReaderAt-store k read buffer buffer' (Reader.loaded_read r) same h = h
ReaderAt-store k read buffer buffer' (Reader.has_byte r) same h = h
ReaderAt-store k read buffer buffer' (Reader.copied r v) same (here, some_wait, is) =
    (here, some_wait, is ∙ sym (same some_wait))

pub ReaderAt-suc :
    (k read : ℕ) (buffer : List ℕ) (r : Reader)
    → ReaderAt k buffer read r
    → ReaderAt (suc k) buffer read r
ReaderAt-suc k read buffer Reader.idle h = tt
ReaderAt-suc k read buffer (Reader.loaded_read r) h = h
ReaderAt-suc k read buffer (Reader.has_byte r) h = (h.0, omega arith)
ReaderAt-suc k read buffer (Reader.copied r v) h = (h.0, omega arith, h.2)

pub WriterAt-read :
    (n k read write : ℕ) (buffer : List ℕ) (w : Writer)
    → WriterAt n (suc k) buffer read write w
    → WriterAt n k buffer ((read + 1) % n) write w
WriterAt-read n k read write buffer Writer.idle h = tt
WriterAt-read n k read write buffer (Writer.loaded_read byte r) (d, stale, r_in, apart) = (
  d + 1,
  ap (λ t. t % n) (sym (add_assoc r d 1))
      ∙ sym (mod-add-mod (r + d) n 1)
      ∙ ap (λ t. (t + 1) % n) stale,
  r_in,
  omega arith,
)
WriterAt-read n k read write buffer (Writer.has_room byte w) h = (h.0, omega arith)
WriterAt-read n k read write buffer (Writer.stored byte w) h = (h.0, omega arith, h.2)

pub waiting_of_check :
    (n k read write : ℕ) → read < n → (read + k) % n ≡ write → read ≢ write → 0 < k
waiting_of_check n zero read write hr e ne =
    absurd (ne (sym (mod_self n (read + 0) read (omega arith) hr) ∙ e))
waiting_of_check n (suc k) read write hr e ne = omega arith

-- While a byte waits, the two indices differ.
pub ne_of_waiting :
    (n k read write : ℕ) → read < n → k < n → (read + k) % n ≡ write → 0 < k → write ≢ read
ne_of_waiting n zero read write hr hk e pos = absurd (omega arith)
ne_of_waiting n (suc k) read write hr hk e pos = λ same. round-ne_start n read k hr hk (e ∙ same)
