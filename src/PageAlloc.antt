-- ===== src/PageAlloc.antt =====
-- kernel/src/mem/page_alloc.c: the buddy allocator of physical pages. A page is its index, so a
-- kernel virtual address `P2KV(pgidx * PG_SIZE)` is `pgidx` and `NULL` is `none`; the free list that
-- runs through the pages themselves is the list of their indices, from the head on. Orders are not
-- negative.
pub mod Lists
pub mod Invariant
pub mod Bins
pub mod Free
pub mod Spare
pub mod Range
pub mod Allocate
pub mod Locked
pub mod Locking
pub mod Init
mod Tests
pub mod Fixture
use guide_os.Prelude.{
  ℕ, zero, suc, ◌+◌, ◌-◌, ◌*◌, ◌/◌, ◌%◌, ◌^◌, Bool, true, false, not, ◌&&◌, ◌||◌, Option, none,
  some, List, [], ◌∷◌, get_elem?, set, ◌==◌, if◌then◌else◌, ltb, leb, Cmd, ok, panic, fault,
  out_of_fuel, pure, ◌>>=◌, ◌>>◌, test_bit, flip_bit, shr, low_bits, clear_low,
}
use guide_os.Cpu.{Machine, LockId, update}
use guide_os.Spinlock.{acquire, release}

abbrev pub max_order : ℕ
max_order = 10

abbrev pub page_size : ℕ
page_size = 4096

-- `struct page_alloc_free_bin` with its `struct free_page_list`; the bitmap is a list of `u32`s.
pub record Bin : Type 0 where
  pub list : List ℕ
  pub size : ℕ
  pub bitmap : List ℕ

-- `pgalloc_bins`, of which the entries 0 to `MAX_ORDER` exist
pub record Pages : Type 0 where
  pub bin : ℕ → Bin

unfoldable pub get_bin : ℕ → Cmd Pages Bin
get_bin order s = if ltb max_order order then fault else ok (s.bin order) s

abbrev pub with_bin : ℕ → Bin → Pages → Pages
with_bin order b s = record s { bin = update s.bin order b }

abbrev pub put_bin : ℕ → Bin → Cmd Pages (Unit {0})
put_bin order b s = ok tt (with_bin order b s)

-- Bit `i` of the bitmap, and the bitmap with that bit toggled: a fault past the end
unfoldable pub bitmap_bit : List ℕ → ℕ → Cmd Pages Bool
bitmap_bit ws i s = elim (get_elem? ws (i / 32)) [
  | none ↦ fault
  | some w ↦ ok (test_bit w (i % 32)) s
]

unfoldable pub bitmap_toggle : List ℕ → ℕ → Cmd Pages (List ℕ)
bitmap_toggle ws i s = elim (get_elem? ws (i / 32)) [
  | none ↦ fault
  | some w ↦ ok (set ws (i / 32) (flip_bit w (i % 32))) s
]

-- The search through the free list, and the list without the entry it stops at
abbrev pub listed : ℕ → List ℕ → Bool
listed p [] = false
listed p (x ∷ xs) = if x == p then true else listed p xs

abbrev pub unlisted : ℕ → List ℕ → List ℕ
unlisted p [] = []
unlisted p (x ∷ xs) = if x == p then xs else x ∷ unlisted p xs

-- `s_free_block`, on fuel for its call of itself with the next order
unfoldable pub free_block : ℕ → ℕ → ℕ → Cmd Pages (Unit {0})
free_block zero pgidx order = λ s. out_of_fuel
free_block (suc fuel) pgidx order = do
  if low_bits pgidx order == 0 then pure tt else (λ s. panic "s_free_block")
  b ← get_bin order
  bit ← bitmap_bit b.bitmap (shr pgidx (suc order))
  words ← bitmap_toggle b.bitmap (shr pgidx (suc order))
  if bit && not (order == max_order)
      then (if listed (flip_bit pgidx order) b.list
          then (do
            put_bin order (record {
              list = unlisted (flip_bit pgidx order) b.list;
              size = (b.size + (2 ^ 64 - 1)) % 2 ^ 64;
              bitmap = words;
            })
            free_block fuel (clear_low pgidx (suc order)) (suc order))
          else (λ s. panic "has buddy but can't find it???"))
      else put_bin order
          (record { list = pgidx ∷ b.list; size = (b.size + 1) % 2 ^ 64; bitmap = words })

unfoldable pub s_free_block : ℕ → ℕ → Cmd Pages (Unit {0})
s_free_block = free_block 11

-- The head of the free list is taken off: a fault when there is none
unfoldable pub pop_page : ℕ → Bin → Cmd Pages (Option ℕ)
pop_page order b = elim b.list [
  | [] ↦ λ s. fault
  | p ∷ ps ↦ do
    words ← bitmap_toggle b.bitmap (shr p (suc order))
    put_bin order (record { list = ps; size = (b.size + (2 ^ 64 - 1)) % 2 ^ 64; bitmap = words })
    pure (some p)
]

-- What `s_alloc_block` does with the block of the next order: its upper half is freed.
unfoldable pub split_page : ℕ → Option ℕ → Cmd Pages (Option ℕ)
split_page order none = pure none
split_page order (some large) = do s_free_block (large + 2 ^ order) order; pure (some large)

-- `s_alloc_block`, on fuel for its call of itself with the next order
unfoldable pub alloc_block : ℕ → ℕ → Cmd Pages (Option ℕ)
alloc_block zero order = λ s. out_of_fuel
alloc_block (suc fuel) order = if ltb max_order order then pure none else (do
  b ← get_bin order
  if b.size == 0
      then (do large ← alloc_block fuel (suc order); split_page order large)
      else pop_page order b)

unfoldable pub s_alloc_block : ℕ → Cmd Pages (Option ℕ)
s_alloc_block = alloc_block 12

-- The largest order, at most `order`, of an aligned block that starts at `start` and ends by `end`
unfoldable pub fitting_order : ℕ → ℕ → ℕ → ℕ
fitting_order start end zero = 0
fitting_order start end (suc order) =
    if (low_bits start (suc order) == 0) && leb (start + 2 ^ suc order) end
    then suc order
    else fitting_order start end order

-- The loop of `pgalloc_free_range` over page indices, on fuel
unfoldable pub free_range : ℕ → ℕ → ℕ → Cmd Pages (Unit {0})
free_range zero start end = λ s. out_of_fuel
free_range (suc fuel) start end =
    if ltb start end
    then (do
      s_free_block start (fitting_order start end max_order)
      free_range fuel (start + 2 ^ fitting_order start end max_order) end)
    else pure tt
