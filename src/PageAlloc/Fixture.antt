-- ===== src/PageAlloc/Fixture.antt =====
-- Memories of 4 pages, for the runs of page_alloc.c and of what calls it.
use guide_os.Prelude.{
  ℕ, zero, suc, ◌/◌, ◌≤◌, ◌≡◌, refl, [], ◌∷◌, arith, get_or, test_bit-zero, shr, low_bits,
}
use guide_os.PageAlloc.{Pages, with_bin}
use guide_os.PageAlloc.Lists.{AllAligned, blocks}
use guide_os.PageAlloc.Invariant.{bit_at, total, free_count, Valid}
use guide_os.PageAlloc.Spare.{ThreeFree}
use guide_os.PageAlloc.Bins.{Used, Freed-pushed, pushed_bin}

-- Nothing is free, and the bitmaps have one word each.
abbrev pub fresh : Pages
fresh = record { bin = λ o. record { list = []; size = 0; bitmap = 0 ∷ [] } }

pub zero_words : (i : ℕ) → get_or {A = ℕ} (0 ∷ []) i 0 ≡ 0
zero_words zero = refl
zero_words (suc i) = refl

pub shr_le : (w k : ℕ) → shr w k ≤ w
unfolding shr
shr_le w zero = omega arith
shr_le w (suc k) = omega (arith, shr_le (w / 2) k)

pub nothing_free : (q : ℕ) → free_count fresh q ≡ 0
unfolding free_count total blocks
nothing_free q = refl

pub fresh-Valid : Valid 4 fresh
unfolding AllAligned bit_at blocks
fresh-Valid = record {
  small = omega arith;
  size = λ o lt. refl;
  aligned = λ o lt. tt;
  words = λ o q lt h. omega (arith, shr_le q (suc o));
  bits = λ o k lt. rw (zero_words (k / 32)) (test_bit-zero _);
  apart = λ q. omega (arith, nothing_free q);
  inside = λ q h. absurd (omega (arith, nothing_free q));
}

pub upper-Used : Used 4 fresh 2 1
unfolding shr low_bits
upper-Used = record {
  aligned = refl;
  unlisted_yet = λ q e. nothing_free q;
  inside = λ q e. omega (arith, e);
}

-- Pages 2 and 3 are free.
abbrev pub one_block : Pages
one_block = with_bin 1 (pushed_bin (fresh.bin 1) 2 1) fresh

pub one_block-Valid : Valid 4 one_block
one_block-Valid = (Freed-pushed 4 fresh 2 1 fresh-Valid (omega arith) upper-Used).valid

pub all-Used : Used 4 fresh 0 2
unfolding shr low_bits
all-Used = record {
  aligned = refl;
  unlisted_yet = λ q e. nothing_free q;
  inside = λ q e. omega (arith, e);
}

-- All four pages are free.
abbrev pub all_free : Pages
all_free = with_bin 2 (pushed_bin (fresh.bin 2) 0 2) fresh

pub all_free-Valid : Valid 4 all_free
all_free-Valid = (Freed-pushed 4 fresh 0 2 fresh-Valid (omega arith) all-Used).valid

pub all_free-ThreeFree : ThreeFree all_free
unfolding free_count total blocks shr
all_free-ThreeFree =
    (1, 2, 3, omega arith, omega arith, omega arith, omega arith, omega arith, omega arith)
