-- ===== src/Kmalloc/Tests.antt =====
-- Runs of kmalloc.c, and its theorems at a free list of one block.
use guide_os.Prelude.{
  ℕ, ◌+◌, ◌-◌, ◌/◌, ◌≤◌, ◌≡◌, refl, some, List, [], ◌∷◌, arith, ◌==◌, if◌then◌else◌, ok, Returns,
  Ends, null, shr, flip_bit, ◌>>=◌,
}
use guide_os.Memlayout.{kernbase}
use guide_os.Spinlock.Laws.{Restored}
use guide_os.Spinlock.Fixture.{one_cpu, one_cpu-RunsOn}
use guide_os.PageAlloc.{
  Pages, with_bin, s_alloc_block, alloc_block, get_bin, pop_page, bitmap_toggle,
}
use guide_os.PageAlloc.Fixture.{one_block, one_block-Valid}
use guide_os.Kmalloc.{
  Block, Kmem, add_block, kmalloc_lock, kmalloc, kfree, krealloc, page_address, merge_loop,
  insert_block,
}
use guide_os.Kmalloc.Add.{within, cover}
use guide_os.Kmalloc.Bytes.{free_bytes, Sound}
use guide_os.Kmalloc.Allocate.{Answer, OutOfMemory}
use guide_os.Kmalloc.Locking.{Calm}
use guide_os.Kmalloc.Calls.{kmalloc_lem, kfree_lem, kfree-kmalloc}
use guide_os.Kmalloc.Gap.{kmalloc-gap}
use guide_os.Kmalloc.Realloc.{InUse, Moved, krealloc_lem}

abbrev free : List Block
free = record { addr = 8192; size = 100 } ∷ []

abbrev pages : Pages
pages = record {
  bin = λ o. record {
    list = if o == 0 then 3 ∷ [] else [];
    size = if o == 0 then 1 else 0;
    bitmap = 2 ∷ [];
  };
}

abbrev memory : List Block → Kmem
memory bs = record {
  machine = one_cpu 0;
  pages = one_block;
  size_list = bs;
  size_at = λ a. if a == 8192 then 100 else 4;
  bytes = λ a. 0;
}

one_cpu-Calm : Calm 0 (one_cpu 0)
one_cpu-Calm = record {
  here = one_cpu-RunsOn 0;
  bounded = omega arith;
  off = λ pos. refl;
  kmalloc_free = refl;
  pgalloc_free = refl;
}

memory-Sound : Sound 4 (memory free)
unfolding cover
memory-Sound = record {
  valid = one_block-Valid;
  once = λ q. let a = one_block-Valid.apart ((q - kernbase) / 4096) in ground arith;
}

-- The block at 8000 ends where the free one starts.
merge_runs : add_block 8000 192 free ≡ record { addr = 8000; size = 292 } ∷ []
unfolding add_block merge_loop insert_block
merge_runs = refl

kmalloc_lem_example :
    Ends
      (λ p s'.
        Restored kmalloc_lock 0 (one_cpu 0) s'.machine
        × Sound 4 s'
        × Answer 4 40 (memory free) p s')
      (OutOfMemory 40 (memory free))
      (kmalloc 1 40 (memory free))
kmalloc_lem_example = kmalloc_lem 0 0 4 40 (memory free) one_cpu-Calm memory-Sound

kfree-kmalloc_example :
    Ends
      (λ r s'. Sound 4 s' × ((q : ℕ) → free_bytes s' q ≡ free_bytes (memory free) q))
      (OutOfMemory 40 (memory free))
      ((kmalloc 1 40 >>= kfree 1) (memory free))
kfree-kmalloc_example =
    kfree-kmalloc 0 0 4 40 (memory free) one_cpu-Calm memory-Sound (omega arith) (omega arith)

-- The block at 8208 is in use, and has 100 bytes.
used-Sound : Sound 4 (memory [])
unfolding cover
used-Sound = record {
  valid = one_block-Valid;
  once = λ q. let a = one_block-Valid.apart ((q - kernbase) / 4096) in ground arith;
}

used_apart : (q : ℕ) → within 8192 116 q + free_bytes (memory []) q ≤ 1
unfolding cover
used_apart q = let a = one_block-Valid.apart ((q - kernbase) / 4096) in ground arith

kfree_lem_example :
    Returns
      (λ r s'.
        Restored kmalloc_lock 0 (one_cpu 0) s'.machine
        × Sound 4 s'
        × ((q : ℕ) → free_bytes s' q ≡ within 8192 116 q + free_bytes (memory []) q)
        × (s'.bytes ≡ (memory []).bytes))
      (kfree 1 8208 (memory []))
kfree_lem_example =
    kfree_lem 0 0 4 100 (memory []) 8208 one_cpu-Calm used-Sound (omega arith) refl used_apart

abbrev pages_left : Pages
pages_left = with_bin 0 (record { list = []; size = 0; bitmap = 0 ∷ [] }) pages

page_three : s_alloc_block 0 pages ≡ ok (some 3) pages_left
unfolding s_alloc_block alloc_block get_bin pop_page bitmap_toggle shr flip_bit
page_three = refl

abbrev no_block : Kmem
no_block = record (memory []) { pages = pages }

kmalloc-gap_example :
    Returns
      (λ r s'.
        (r ≡ null)
        × (s'.pages ≡ pages_left)
        × ((q : ℕ) → cover s'.size_list q ≡ within (page_address 3) 4096 q))
      (kmalloc 1 4060 no_block)
kmalloc-gap_example =
    kmalloc-gap 0 0 4060 3 no_block pages_left one_cpu-Calm (omega arith) (omega arith) refl
      page_three

used-InUse : InUse 100 8208 (memory [])
used-InUse = record { behind_header = omega arith; header = refl; apart = used_apart }

krealloc_lem_example :
    Ends
      (λ p s'. Calm 0 s'.machine × Sound 4 s' × Moved 200 100 8208 (memory []) p s')
      (OutOfMemory 200 (memory []))
      (krealloc 1 8208 200 (memory []))
krealloc_lem_example =
    krealloc_lem 0 0 4 200 100 (memory []) 8208 one_cpu-Calm used-Sound used-InUse (omega arith)
      (omega arith) (omega arith)
