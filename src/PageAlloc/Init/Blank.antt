-- ===== src/PageAlloc/Init/Blank.antt =====
-- The state that `pgalloc_init` leaves: nothing is free, and the bitmaps are large enough.
use guide_os.Prelude.{
  ℕ, zero, suc, ◌+◌, ◌*◌, ◌/◌, ◌%◌, ◌^◌, ◌≤◌, ◌<◌, ◌≡◌, ◌≢◌, ◌∙◌, refl, sym, ap, subst, false, List,
  none, length, arith, ◌==◌, ==_of_ne, panic, Returns, weaken-Returns, shr, test_bit-zero,
}
use guide_os.Cpu.{update}
use guide_os.Spinlock.{init_lock, set_lock}
use guide_os.Spinlock.Section.{free_lock}
use guide_os.PageAlloc.Locked.{pgalloc_lock}
use guide_os.BootAlloc.{round_up}
use guide_os.PageAlloc.{Pages}
use guide_os.PageAlloc.Lists.{AllAligned, blocks}
use guide_os.PageAlloc.Invariant.{bit_at, free_count, free_count-nil, Valid}
use guide_os.PageAlloc.Init.{Start, cleared, pgalloc_init}
use guide_os.PageAlloc.Init.Bitmaps.{
  bitmap_bytes, bytes_taken, Zeros, Blank, Room, bitmap_loop-Filled,
}

-- Bit `shr q k` is within the bitmap of order `k`, if `q` is within eight bits for each byte.
shr_within : (k q b : ℕ) → q < 8 * b → shr q k < 8 * bitmap_bytes b k
unfolding shr bitmap_bytes
shr_within zero q b lt = lt
shr_within (suc k) q b lt = shr_within k (q / 2) ((b + 1) / 2) (omega arith)

bitmap_bytes_le : (k b : ℕ) → bitmap_bytes b k ≤ b + 1
unfolding bitmap_bytes
bitmap_bytes_le zero b = omega arith
bitmap_bytes_le (suc k) b = omega (arith, bitmap_bytes_le k ((b + 1) / 2))

bit_at-Zeros : (ws : List ℕ) (i : ℕ) → Zeros ws → bit_at ws i ≡ false
unfolding Zeros bit_at
bit_at-Zeros ws i z = rw (z (i / 32)) (test_bit-zero (i % 32))

module _ (n : ℕ) (s : Pages) (small : n < 2 ^ 52) (whole : n % 8 ≡ 0)
    (blank : (k : ℕ) → k < 11 → Blank (bitmap_bytes (n / 8) (suc k)) (s.bin k)) where
  Blank-none_free : (q : ℕ) → free_count s q ≡ 0
  Blank-none_free = free_count-nil s (λ o lt. (blank o lt).list)

  Blank-Valid : Valid n s
  unfolding AllAligned blocks
  Blank-Valid = record {
    small = omega arith;
    size = λ o lt. (blank o lt).size ∙ sym (ap {A = List ℕ} length (blank o lt).list);
    aligned = λ o lt. subst (AllAligned o) (sym (blank o lt).list) tt;
    words = λ o q lt in_. omega (
      arith,
      (blank o lt).words,
      shr_within (suc o) q (n / 8) (omega arith),
      bitmap_bytes_le (suc o) (n / 8),
    );
    bits = λ o k lt.
        bit_at-Zeros (s.bin o).bitmap k (blank o (omega arith)).zeros
        ∙ ap {A = List ℕ} (λ l. blocks (suc o) k l % 2 == 1) (sym (blank o (omega arith)).list);
    apart = λ q. omega (arith, Blank-none_free q);
    inside = λ q h. absurd (omega (arith, Blank-none_free q));
  }

-- `pgalloc_init` for a machine of `n` pages, eight of which share a byte of a bitmap, takes the
-- bitmaps off the boot allocator and leaves a valid allocator in which no page is free, provided the
-- boot allocator has the memory and it holds zeros. The second call panics.
pub pgalloc_init-Valid :
    (max_mem_addr : ℕ) (s : Start)
    → max_mem_addr + 4096 < 2 ^ 64
    → round_up max_mem_addr / 4096 % 8 ≡ 0
    → 0 < max_mem_addr
    → Room (bytes_taken 11 (round_up max_mem_addr / 4096 / 8)) s
    → (s.max_addr ≡ 0
        → Returns
            (λ r s'.
              Valid (round_up max_mem_addr / 4096) s'.pages
              × ((q : ℕ) → free_count s'.pages q ≡ 0)
              × (s'.max_addr ≡ round_up max_mem_addr)
              × (s'.boot ≡ record (s.boot) {
                begin_kva = s.boot.begin_kva + bytes_taken 11 (round_up max_mem_addr / 4096 / 8);
              })
              × (s'.machine
                  ≡ record (s.machine) { lock = update s.machine.lock pgalloc_lock free_lock }))
            (pgalloc_init max_mem_addr s))
      × (s.max_addr ≢ 0 → pgalloc_init max_mem_addr s ≡ panic "pgalloc_init double init")
unfolding pgalloc_init init_lock set_lock
pgalloc_init-Valid max_mem_addr s bound whole pos room = (
  λ first. rw first (
      weaken-Returns
        (bitmap_loop-Filled 11 0 b
          (record s {
            machine = record (s.machine) {
              lock = update s.machine.lock pgalloc_lock (record { locked = false; cpu = none });
            };
            pages = cleared;
            max_addr = round_up max_mem_addr;
          })
          (omega arith)
          (record {
            page = room.page;
            nonzero = room.nonzero;
            room = room.room;
            address = room.address;
            zeros = room.zeros;
          })
          (λ o le. (refl, refl)))
        λ r s' f.
          let blank : (k : ℕ) → k < 11 → Blank (bitmap_bytes b (suc k)) (s'.pages.bin k) = λ k lt.
            subst (λ o. Blank (bitmap_bytes b (suc k)) (s'.pages.bin o)) (omega arith)
              (f.blank k lt) in
          (
            Blank-Valid n s'.pages (omega arith) whole blank,
            Blank-none_free n s'.pages (omega arith) whole blank,
            f.max_addr,
            f.boot,
            f.machine,
          )),
  λ again. rw (==_of_ne s.max_addr 0 again) refl,
)
  where
    n : ℕ
    n = round_up max_mem_addr / 4096

    b : ℕ
    b = n / 8
