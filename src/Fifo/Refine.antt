-- ===== src/Fifo/Refine.antt =====
-- The ring of fifo.c behaves as a queue of at most `buffer_size - 1` bytes.
use native.Mathlib.Nat.{mod-eq_of_lt}
use native.Mathlib.Decide.{dec_lt}
use guide_os.Prelude.{
  ℕ, suc, ◌+◌, ◌-◌, ◌%◌, ◌^◌, ◌≤◌, ◌<◌, ◌≡◌, refl, ◌≢◌, ◌⊎◌, ◌↔◌, ap, true, Option, none, some,
  List, [], get_or, set, ◌∷◌, ◌++◌, arith, ◌==◌, if◌then◌else◌, length, length-set, Bool-cases, inl,
  inr, eq_of_==, ne_of_==, ==_refl, ==_of_ne,
}
use guide_os.Fifo.{
  OsError, oserr_ok, oserr_no_memory, Fifo, advance, spsc_fifo_init, spsc_fifo_write,
  spsc_fifo_read,
}
use guide_os.Fifo.Window.{mod_self, mod_back, window, length-window, window-set}

pub record IsValid (f : Fifo) : Type 0 where
  pub fits : f.buffer_size ≤ length f.buffer
  pub small : f.buffer_size < 2 ^ 64
  pub read_in : f.read < f.buffer_size
  pub write_in : f.write < f.buffer_size

-- how many bytes wait
abbrev pub level : Fifo → ℕ
level f = (f.write + f.buffer_size - f.read) % f.buffer_size

abbrev pub contents : Fifo → List ℕ
contents f = window f.buffer f.buffer_size f.read (level f)

-- The specification: a bounded queue, oldest byte first.
unfoldable pub enqueue : ℕ → List ℕ → ℕ → OsError × List ℕ
enqueue limit q x = if length q == limit then (oserr_no_memory, q) else (oserr_ok, q ++ (x ∷ []))

unfoldable pub dequeue : List ℕ → Option ℕ × List ℕ
dequeue [] = (none, [])
dequeue (x ∷ q) = (some x, q)

-- `i + 1` round the ring, and the distance from `r` to `w`, without `%`.
advance_cases :
    (n i : ℕ)
    → i < n
    → n < 2 ^ 64
    → ((i + 1 < n) × (advance n i ≡ i + 1)) ⊎ ((i + 1 ≡ n) × (advance n i ≡ 0))
advance_cases n i h small = elim (dec_lt (i + 1) n) [
  | yes p ↦ inl (p, mod_self n ((i + 1) % 2 ^ 64) (i + 1) (omega arith) p)
  | no p ↦ inr (omega arith, mod_back n ((i + 1) % 2 ^ 64) 0 (omega arith) (omega arith))
]

distance_cases :
    (n r w : ℕ)
    → r < n
    → w < n
    → ((r ≤ w) × ((w + n - r) % n ≡ w - r)) ⊎ ((w < r) × ((w + n - r) % n ≡ w + n - r))
distance_cases n r w hr hw = elim (dec_lt w r) [
  | yes p ↦ inr (p, mod-eq_of_lt (omega arith))
  | no p ↦ inl (omega arith, mod_back n (w + n - r) (w - r) (omega arith) (omega arith))
]

-- The write index is the read index advanced by the level, round the buffer.
level_reaches : (n r w : ℕ) → r < n → w < n → (r + (w + n - r) % n) % n ≡ w
level_reaches n r w hr hw = elim (distance_cases n r w hr hw) [
  | inl (le, e) ↦ mod_self n (r + (w + n - r) % n) w (omega arith) hw
  | inr (lt, e) ↦ mod_back n (r + (w + n - r) % n) w (omega arith) hw
]

module _ {f : Fifo} (v : IsValid f) where
  open f use {buffer, buffer_size, read, write}

  pub length-contents : length (contents f) ≡ level f
  length-contents = length-window buffer buffer_size read (level f)

  pub level-lt : level f < buffer_size
  level-lt = omega (arith, distance_cases buffer_size read write v.read_in v.write_in)

  pub full_iff : (advance buffer_size write ≡ read) ↔ (level f ≡ buffer_size - 1)
  full_iff = (
    λ e. omega (
      arith,
      advance_cases buffer_size write v.write_in v.small,
      distance_cases buffer_size read write v.read_in v.write_in,
    ),
    λ e. omega (
      arith,
      advance_cases buffer_size write v.write_in v.small,
      distance_cases buffer_size read write v.read_in v.write_in,
    ),
  )

  level-advance_write :
      advance buffer_size write ≢ read
      → (advance buffer_size write + buffer_size - read) % buffer_size ≡ suc (level f)
  level-advance_write ne = omega (
    arith,
    v.read_in,
    advance_cases buffer_size write v.write_in v.small,
    distance_cases buffer_size read write v.read_in v.write_in,
    distance_cases buffer_size read (advance buffer_size write) v.read_in
        (omega (arith, advance_cases buffer_size write v.write_in v.small)),
  )

  level-advance_read :
      read ≢ write → level f ≡ suc ((write + buffer_size - advance buffer_size read) % buffer_size)
  level-advance_read ne = omega (
    arith,
    v.read_in,
    advance_cases buffer_size read v.read_in v.small,
    distance_cases buffer_size read write v.read_in v.write_in,
    distance_cases buffer_size (advance buffer_size read) write
        (omega (arith, advance_cases buffer_size read v.read_in v.small)) v.write_in,
  )

  -- A write in place of a valid ring: the level rises by one and the byte joins the end.
  pub contents-write :
      (x : ℕ)
      → advance buffer_size write ≢ read
      → contents (record f { buffer = set buffer write x; write = advance buffer_size write })
        ≡ contents f ++ (x ∷ [])
  contents-write x ne = rw (level-advance_write ne) (
      window-set buffer buffer_size x (level f) read write v.fits v.read_in level-lt
        (level_reaches buffer_size read write v.read_in v.write_in))

  contents-read :
      read ≢ write
      → contents f ≡ get_or buffer read 0 ∷ contents (record f { read = advance buffer_size read })
  contents-read ne = rw (level-advance_read ne) (rw (no_wrap) refl)
    where
      no_wrap : (read + 1) % 2 ^ 64 ≡ read + 1
      no_wrap = omega (arith, v.read_in, v.small)

  contents-empty : read ≡ write → contents f ≡ []
  contents-empty e = ap (window buffer buffer_size read) no_bytes
    where
      no_bytes : level f ≡ 0
      no_bytes = omega (arith, distance_cases buffer_size read write v.read_in v.write_in)

-- The ring with the byte `x` written
abbrev pub written : Fifo → ℕ → Fifo
written f x = record f { buffer = set f.buffer f.write x; write = advance f.buffer_size f.write }

pub written-IsValid : {f : Fifo} → IsValid f → (x : ℕ) → IsValid (written f x)
written-IsValid {f} v x = record {
  fits = omega (arith, length-set f.buffer f.write x, v.fits);
  small = v.small;
  read_in = v.read_in;
  write_in = omega (arith, v.write_in, advance_cases f.buffer_size f.write v.write_in v.small);
}

abbrev pub contents? : Option Fifo → Option (List ℕ)
contents? none = none
contents? (some f) = some (contents f)

abbrev pub IsValid? : Option Fifo → Type 0
IsValid? none = Unit
IsValid? (some f) = IsValid f

-- `spsc_fifo_write` on a valid ring returns the status of the bounded queue with room for
-- `buffer_size - 1` bytes, leaves the ring holding that queue's bytes, and keeps it valid.
pub write_refines :
    {f : Fifo} (x : ℕ)
    → IsValid f
    → let (s, f') = spsc_fifo_write (some f) x in
      let (s', q) = enqueue (f.buffer_size - 1) (contents f) x in
      (s ≡ s') × (contents? f' ≡ some q) × IsValid? f'
unfolding spsc_fifo_write enqueue
write_refines {f} x v = elim (Bool-cases (advance f.buffer_size f.write == f.read)) [
  | inl full ↦
      let e = (full_iff v).0 (eq_of_== _ _ full) in
      rw (full, length-contents v, e, ==_refl (f.buffer_size - 1)) (refl, refl, v)
  | inr room ↦
      let ne = ne_of_== _ _ room in
      rw (room, length-contents v, ==_of_ne _ _ (λ e. ne ((full_iff v).1 e)))
        (refl, ap some (contents-write v x ne), written-IsValid v x)
]

-- `spsc_fifo_read` on a valid ring returns the oldest byte, or -1 on an empty ring, leaves the
-- ring holding the rest, and keeps it valid.
pub read_refines :
    {f : Fifo}
    → IsValid f
    → let (r, f') = spsc_fifo_read (some f) true in
      let (r', q) = dequeue (contents f) in (r ≡ r') × (contents? f' ≡ some q) × IsValid? f'
unfolding spsc_fifo_read dequeue
read_refines {f} v = elim (Bool-cases (f.read == f.write)) [
  | inl empty ↦ rw (empty, contents-empty v (eq_of_== _ _ empty)) (refl, refl, v)
  | inr more ↦
      let ne = ne_of_== _ _ more in
      rw (more, contents-read v ne)
        (
          refl,
          refl,
          record {
            fits = v.fits;
            small = v.small;
            read_in =
                omega (arith, v.read_in, advance_cases f.buffer_size f.read v.read_in v.small);
            write_in = v.write_in;
          },
        )
]

-- `spsc_fifo_init` on a buffer that holds at least `buffer_size` bytes leaves a valid, empty ring.
pub init-IsValid :
    (f : Fifo) (buffer : List ℕ) (n : ℕ)
    → 0 < n
    → n < 2 ^ 64
    → n ≤ length buffer
    → let (s, f') = spsc_fifo_init (some f) buffer n in
      (s ≡ oserr_ok) × (contents? f' ≡ some []) × IsValid? f'
unfolding spsc_fifo_init
init-IsValid f buffer n pos small fits =
    let valid : IsValid (record f { buffer = buffer; buffer_size = n; read = 0; write = 0 }) =
      record { fits = fits; small = small; read_in = pos; write_in = pos } in
    (refl, ap some (contents-empty valid refl), valid)
