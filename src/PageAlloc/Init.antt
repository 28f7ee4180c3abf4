-- ===== src/PageAlloc/Init.antt =====
-- `pgalloc_init` of page_alloc.c. The bitmaps are pages of the boot allocator, whose contents are a
-- parameter of the state: `words a` is the `u32` at the address `a`.
pub mod Bitmaps
pub mod Blank
use guide_os.Prelude.{
  ℕ, zero, suc, ◌+◌, ◌-◌, ◌*◌, ◌/◌, ◌%◌, ◌^◌, List, [], ◌∷◌, Cmd, map_state, ok, panic, pure, ◌>>=◌,
  ◌>>◌, ◌==◌, if◌then◌else◌, Ptr, null,
}
use guide_os.Cpu.{Machine, update}
use guide_os.Spinlock.{init_lock}
use guide_os.BootAlloc.{Boot, boot_alloc, round_up}
use guide_os.PageAlloc.{Bin, Pages, max_order, page_size, with_bin}
use guide_os.PageAlloc.Locked.{pgalloc_lock}

pub record Start : Type 0 where
  pub machine : Machine
  pub boot : Boot
  pub words : Ptr → ℕ
  pub pages : Pages
  pub max_addr : ℕ

-- The `n` words from the address `a` on
abbrev pub words_from : (Ptr → ℕ) → Ptr → ℕ → List ℕ
words_from words a zero = []
words_from words a (suc n) = words a ∷ words_from words (a + 4) n

abbrev pub cleared : Pages
cleared = record { bin = λ o. record { list = []; size = 0; bitmap = [] } }

abbrev pub set_bitmap : ℕ → List ℕ → Pages → Pages
set_bitmap order ws s = with_bin order (record (s.bin order) { bitmap = ws }) s

-- The rounds of the loop from order `order` on, with `left` of them to go. A bitmap may be indexed as
-- far as the pages that it got.
unfoldable pub bitmap_loop : ℕ → ℕ → ℕ → Cmd Start (Unit {0})
bitmap_loop zero order bitmap_size s = ok tt s
bitmap_loop (suc left) order bitmap_size s =
    let size : ℕ = (bitmap_size + 1) / 2 in
    let r = boot_alloc size s.boot in
    let rest = bitmap_loop left (suc order) size (record s {
      boot = r.1;
      pages = set_bitmap order (words_from s.words r.0 (round_up size / 4)) s.pages;
    }) in
    if r.0 == null then panic "pgalloc_init" else rest

-- `pgalloc_init`
unfoldable pub pgalloc_init : ℕ → Cmd Start (Unit {0})
pgalloc_init max_mem_addr s =
    if s.max_addr == 0
    then (do
      (λ s. map_state (λ m. record s { machine = m }) (init_lock pgalloc_lock s.machine))
      (λ s. ok tt (record s { max_addr = round_up max_mem_addr; pages = cleared }))
      bitmap_loop 11 0 (round_up max_mem_addr / page_size / 8))
        s
    else panic "pgalloc_init double init"
