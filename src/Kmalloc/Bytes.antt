-- ===== src/Kmalloc/Bytes.antt =====
-- The bytes that kmalloc.c and page_alloc.c have to give.
use guide_os.Prelude.{ℕ, ◌+◌, ◌-◌, ◌/◌, ◌≤◌, ◌≡◌, ◌≢◌, arith, if◌then◌else◌, leb, Ptr, shr}
use guide_os.Memlayout.{kernbase}
use guide_os.PageAlloc.{Pages}
use guide_os.PageAlloc.Invariant.{free_count, covers, Valid}
use guide_os.PageAlloc.Bins.{Taken}
use guide_os.Kmalloc.{Kmem, metadata_size, page_address, add_block}
use guide_os.Kmalloc.Add.{within, cover, add_block-cover}
use guide_os.Kmalloc.Fit.{Apart}

-- How often the byte `q` is in a free page.
abbrev pub page_bytes : Pages → Ptr → ℕ
page_bytes ps q = if leb kernbase q then free_count ps ((q - kernbase) / 4096) else 0

-- How often the byte `q` is free: in the free list, or in a free page.
abbrev pub free_bytes : Kmem → Ptr → ℕ
free_bytes s q = cover s.size_list q + page_bytes s.pages q

-- The page allocator is valid, and no byte is free twice.
pub record Sound (n : ℕ) (s : Kmem) : Type 0 where
  pub valid : Valid n s.pages
  pub once : (q : Ptr) → free_bytes s q ≤ 1

-- A block of `n` bytes at `p` has been handed out: its bytes and those of its header were free and are
-- so no more, no other byte changes, and the header says `n`. No other header changes, nor what the
-- blocks hold.
pub record Granted (n : ℕ) (s : Kmem) (p : Ptr) (s' : Kmem) : Type 0 where
  pub behind_header : metadata_size ≤ p
  pub header : s'.size_at (p - metadata_size) ≡ n
  pub bytes :
      (q : Ptr)
      → within (p - metadata_size) (n + metadata_size) q + free_bytes s' q ≡ free_bytes s q
  pub headers : (a : Ptr) → a ≢ p - metadata_size → s'.size_at a ≡ s.size_at a
  pub contents : s'.bytes ≡ s.bytes

pub Sound-Apart : (n : ℕ) (s : Kmem) → Sound n s → Apart s
unfolding Apart
Sound-Apart n s sound q = omega (arith, sound.once q)

-- A page of the page allocator holds the bytes of its index.
within-page :
    (p q : ℕ)
    → within (page_address p) 4096 q
      ≡ (if leb kernbase q then covers 0 p ((q - kernbase) / 4096) else 0)
unfolding shr
within-page p q = ground arith

-- The free list with a page that has been taken: the same bytes are free.
abbrev pub with_page : ℕ → Pages → Kmem → Kmem
with_page p ps s = record s { pages = ps; size_list = add_block (page_address p) 4096 s.size_list }

module _ (n p : ℕ) (ps : Pages) (s : Kmem) (sound : Sound n s)
    (taken : Taken n s.pages p 0 ps) where
  moved_bytes : (q : Ptr) → within (page_address p) 4096 q + page_bytes ps q ≡ page_bytes s.pages q
  moved_bytes q =
      let t = taken.count ((q - kernbase) / 4096) in let w = within-page p q in ground arith

  pub with_page-bytes : (q : Ptr) → free_bytes (with_page p ps s) q ≡ free_bytes s q
  with_page-bytes q =
      let c =
        add_block-cover (page_address p) 4096 s.size_list (omega arith)
          (λ r. omega (arith, moved_bytes r, sound.once r)) q in
      omega (arith, c, moved_bytes q)

  pub with_page-Sound : Sound n (with_page p ps s)
  with_page-Sound = record {
    valid = taken.valid;
    once = λ q. omega (arith, with_page-bytes q, sound.once q);
  }
