-- ===== src/Fifo/Concurrent.antt =====
-- fifo.c with a writer and a reader that interleave at every shared access. The loads and stores
-- of `read` and `write` are atomic with acquire and release order, which on one location and with
-- one storing side each is read as sequential interleaving.
pub mod Invariant
pub mod Steps
pub mod Safety
use guide_os.Prelude.{ℕ, ◌+◌, ◌%◌, ◌<◌, ◌≡◌, ◌≢◌, List, [], ◌∷◌, ◌++◌, get_or, set}
use guide_os.Fifo.{advance}

-- Where `spsc_fifo_write` stands, with the local variables that are live there.
pub data Writer : Type 0 where
  idle : Writer
  loaded_read : (byte cur_read : ℕ) → Writer
  has_room : (byte cur_write : ℕ) → Writer
  stored : (byte cur_write : ℕ) → Writer

-- Where `spsc_fifo_read` stands.
pub data Reader : Type 0 where
  idle : Reader
  loaded_read : (cur_read : ℕ) → Reader
  has_byte : (cur_read : ℕ) → Reader
  copied : (cur_read value : ℕ) → Reader

-- The shared struct, both program counters, and two histories: the bytes that `spsc_fifo_write`
-- accepted and those that `spsc_fifo_read` returned, each in order.
pub record System : Type 0 where
  pub buffer : List ℕ
  pub read : ℕ
  pub write : ℕ
  pub writer : Writer
  pub reader : Reader
  pub sent : List ℕ
  pub received : List ℕ

pub data Step (n : ℕ) (s : System) : System → Type 0 where
  write_begin :
      (byte : ℕ)
      → s.writer ≡ Writer.idle
      → Step n s (record s { writer = Writer.loaded_read byte s.read })
  write_full :
      {byte r : ℕ}
      → s.writer ≡ Writer.loaded_read byte r
      → advance n s.write ≡ r
      → Step n s (record s { writer = Writer.idle })
  write_check :
      {byte r : ℕ}
      → s.writer ≡ Writer.loaded_read byte r
      → advance n s.write ≢ r
      → Step n s (record s { writer = Writer.has_room byte s.write })
  write_store :
      {byte w : ℕ}
      → s.writer ≡ Writer.has_room byte w
      → Step n s (record s { buffer = set s.buffer w byte; writer = Writer.stored byte w })
  write_commit :
      {byte w : ℕ}
      → s.writer ≡ Writer.stored byte w
      → Step n s
          (record s { write = advance n w; writer = Writer.idle; sent = s.sent ++ (byte ∷ []) })
  read_begin : s.reader ≡ Reader.idle → Step n s (record s { reader = Reader.loaded_read s.read })
  read_empty :
      {r : ℕ}
      → s.reader ≡ Reader.loaded_read r
      → r ≡ s.write
      → Step n s (record s { reader = Reader.idle })
  read_check :
      {r : ℕ}
      → s.reader ≡ Reader.loaded_read r
      → r ≢ s.write
      → Step n s (record s { reader = Reader.has_byte r })
  read_copy :
      {r : ℕ}
      → s.reader ≡ Reader.has_byte r
      → Step n s (record s { reader = Reader.copied r (get_or s.buffer r 0) })
  read_commit :
      {r v : ℕ}
      → s.reader ≡ Reader.copied r v
      → Step n s
          (record s { read = advance n r; reader = Reader.idle; received = s.received ++ (v ∷ []) })

-- after `spsc_fifo_init` with a buffer of `n` bytes
abbrev pub initial : List ℕ → System
initial buffer = record {
  buffer = buffer;
  read = 0;
  write = 0;
  writer = Writer.idle;
  reader = Reader.idle;
  sent = [];
  received = [];
}

pub data Reach (n : ℕ) (buffer : List ℕ) : System → Type 0 where
  start : Reach n buffer (initial buffer)
  later : {s t : System} → Reach n buffer s → Step n s t → Reach n buffer t
