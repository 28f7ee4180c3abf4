-- ===== src/PageAlloc/Init/Bitmaps.antt =====
-- The loop of `pgalloc_init`, which takes the bitmaps from the boot allocator.
use guide_os.Prelude.{
  ℕ, zero, suc, ◌+◌, ◌/◌, ◌%◌, ◌^◌, ◌≤◌, ◌<◌, ◌≡◌, ◌∙◌, refl, ap, subst, true, List, [], length,
  get_or, arith, ==_of_ne, ==_refl, ltb, ltb_of_lt, Ptr, null, Returns, returns, weaken-Returns,
}
use guide_os.BootAlloc.{boot_alloc, round_up}
use guide_os.PageAlloc.{Bin}
use guide_os.PageAlloc.Init.{Start, words_from, set_bitmap, bitmap_loop}

-- The bytes of the bitmap `k` orders up from one of `b` bytes
unfoldable pub bitmap_bytes : ℕ → ℕ → ℕ
bitmap_bytes b zero = b
bitmap_bytes b (suc k) = bitmap_bytes ((b + 1) / 2) k

-- What the loop takes off the boot allocator in `left` rounds
unfoldable pub bytes_taken : ℕ → ℕ → ℕ
bytes_taken zero b = 0
bytes_taken (suc left) b = round_up ((b + 1) / 2) + bytes_taken left ((b + 1) / 2)

unfoldable pub Zeros : List ℕ → Type 0
Zeros ws = (i : ℕ) → get_or ws i 0 ≡ 0

words_from-Zeros :
    (words : Ptr → ℕ) (a n : ℕ) → ((b : Ptr) → a ≤ b → words b ≡ 0) → Zeros (words_from words a n)
unfolding Zeros
words_from-Zeros words a zero z i = refl
words_from-Zeros words a (suc n) z zero = z a (omega arith)
words_from-Zeros words a (suc n) z (suc i) =
    words_from-Zeros words (a + 4) n (λ b le. z b (omega arith)) i

length-words_from : (words : Ptr → ℕ) (a n : ℕ) → length (words_from words a n) ≡ n
length-words_from words a zero = refl
length-words_from words a (suc n) = ap suc (length-words_from words (a + 4) n)

-- A bin with nothing free, and a cleared bitmap of `bytes` bytes, to whole pages
pub record Blank (bytes : ℕ) (b : Bin) : Type 0 where
  pub list : b.list ≡ []
  pub size : b.size ≡ 0
  pub zeros : Zeros b.bitmap
  pub words : length b.bitmap ≡ round_up bytes / 4

pub record Filled (order left b : ℕ) (s s' : Start) : Type 0 where
  pub blank : (k : ℕ) → k < left → Blank (bitmap_bytes b (suc k)) (s'.pages.bin (order + k))
  pub below : (o : ℕ) → o < order → s'.pages.bin o ≡ s.pages.bin o
  pub boot : s'.boot ≡ record (s.boot) { begin_kva = s.boot.begin_kva + bytes_taken left b }
  pub machine : s'.machine ≡ s.machine
  pub max_addr : s'.max_addr ≡ s.max_addr

-- The boot allocator can give `n` more bytes in pages, and they hold zeros.
pub record Room (n : ℕ) (s : Start) : Type 0 where
  pub page : s.boot.begin_kva % 4096 ≡ 0
  pub nonzero : 0 < s.boot.begin_kva
  pub room : s.boot.begin_kva + n < s.boot.end_kva
  pub address : s.boot.end_kva < 2 ^ 64
  pub zeros : (a : Ptr) → s.boot.begin_kva ≤ a → s.words a ≡ 0

-- The state behind a round
abbrev next_round : ℕ → ℕ → Start → Start
next_round order size s = record s {
  boot = record (s.boot) { begin_kva = s.boot.begin_kva + round_up size };
  pages = set_bitmap order (words_from s.words s.boot.begin_kva (round_up size / 4)) s.pages;
}

Filled-next_round :
    (left order b : ℕ) (s s' : Start)
    → ((a : Ptr) → s.boot.begin_kva ≤ a → s.words a ≡ 0)
    → ((s.pages.bin order).list ≡ []) × ((s.pages.bin order).size ≡ 0)
    → Filled (suc order) left ((b + 1) / 2) (next_round order ((b + 1) / 2) s) s'
    → Filled order (suc left) b s s'
unfolding bitmap_bytes bytes_taken
Filled-next_round left order b s s' zeros empty f = record {
  blank = by_round;
  below = λ o lt. f.below o (omega arith) ∙ rw (==_of_ne o order (omega arith)) refl;
  boot = f.boot ∙ ap {A = ℕ} (λ x. record (s.boot) { begin_kva = x }) moved;
  machine = f.machine;
  max_addr = f.max_addr;
}
  where
    size : ℕ
    size = (b + 1) / 2

    moved :
        s.boot.begin_kva + round_up size + bytes_taken left size
        ≡ s.boot.begin_kva + (round_up size + bytes_taken left size)
    moved = omega arith

    own : Bin
    own = record (s.pages.bin order) {
      bitmap = words_from s.words s.boot.begin_kva (round_up size / 4);
    }

    own_blank : Blank size own
    own_blank = record {
      list = empty.0;
      size = empty.1;
      zeros = words_from-Zeros s.words s.boot.begin_kva (round_up size / 4) zeros;
      words = length-words_from s.words s.boot.begin_kva (round_up size / 4);
    }

    add_nothing' : order + 0 ≡ order
    add_nothing' = omega arith

    by_round : (k : ℕ) → k < suc left → Blank (bitmap_bytes size k) (s'.pages.bin (order + k))
    by_round zero lt =
        let here : s'.pages.bin (order + 0) ≡ own =
          ap {A = ℕ} s'.pages.bin add_nothing'
          ∙ f.below order (omega arith)
          ∙ rw (==_refl order) refl in
        rw here own_blank
    by_round (suc k) lt =
        subst (λ o. Blank (bitmap_bytes size (suc k)) (s'.pages.bin o)) (omega arith)
          (f.blank k (omega arith))

pub bitmap_loop-Filled :
    (left order b : ℕ) (s : Start)
    → b < 2 ^ 61
    → Room (bytes_taken left b) s
    → ((o : ℕ) → order ≤ o → ((s.pages.bin o).list ≡ []) × ((s.pages.bin o).size ≡ 0))
    → Returns (λ r s'. Filled order left b s s') (bitmap_loop left order b s)
unfolding bitmap_loop bytes_taken boot_alloc bitmap_bytes
bitmap_loop-Filled zero order b s small room empty = returns (record {
  blank = λ k lt. absurd (omega arith);
  below = λ o lt. refl;
  boot = ap {A = ℕ} (λ x. record (s.boot) { begin_kva = x }) add_nothing;
  machine = refl;
  max_addr = refl;
})
  where
    add_nothing : s.boot.begin_kva ≡ s.boot.begin_kva + 0
    add_nothing = omega arith
bitmap_loop-Filled (suc left) order b s small room empty =
    let size : ℕ = (b + 1) / 2 in
    let front : ℕ = s.boot.begin_kva in
    let wrap : (front + round_up size) % 2 ^ 64 ≡ front + round_up size =
      omega (arith, room.room, room.address) in
    let fits : ltb (front + round_up size) s.boot.end_kva ≡ true =
      ltb_of_lt _ _ (omega (arith, room.room)) in
    let s₁ : Start = next_round order size s in
    rw (wrap, fits)
      (rw (==_of_ne front null (omega (arith, room.nonzero))) (
        weaken-Returns
          (bitmap_loop-Filled left (suc order) size s₁ (omega arith)
            (record {
              page = omega (arith, room.page);
              nonzero = omega (arith, room.nonzero);
              room = omega (arith, room.room);
              address = room.address;
              zeros = λ a le. room.zeros a (omega arith);
            })
            (λ o le. rw (==_of_ne o order (omega arith)) (empty o (omega arith))))
          λ r s' f. Filled-next_round left order b s s' (room.zeros) (empty order (omega arith)) f))
