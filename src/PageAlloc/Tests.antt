-- ===== src/PageAlloc/Tests.antt =====
-- The theorems about page_alloc.c on a memory of 4 pages.
use guide_os.Prelude.{◌+◌, refl, arith, Returns}
use guide_os.PageAlloc.{s_free_block, s_alloc_block}
use guide_os.PageAlloc.Bins.{Freed}
use guide_os.PageAlloc.Free.{s_free_block-Freed}
use guide_os.PageAlloc.Allocate.{Allocated, s_alloc_block-Allocated}
use guide_os.Memlayout.{kernbase}
use guide_os.Spinlock.Laws.{Restored}
use guide_os.Spinlock.Fixture.{one_cpu, one_cpu-Ready}
use guide_os.PageAlloc.Locked.{pgalloc_lock, pgalloc_free_range}
use guide_os.PageAlloc.Range.{FreedRange, pgalloc_free_range_lem}
use guide_os.PageAlloc.Fixture.{
  fresh, fresh-Valid, upper-Used, nothing_free, one_block, one_block-Valid,
}

s_free_block-Freed_example : Returns (λ r s'. Freed 4 fresh 2 1 s') (s_free_block 2 1 fresh)
s_free_block-Freed_example = s_free_block-Freed 4 fresh 2 1 fresh-Valid upper-Used (omega arith)

s_alloc_block-Allocated_example : Returns (Allocated 4 one_block 0) (s_alloc_block 0 one_block)
s_alloc_block-Allocated_example =
    s_alloc_block-Allocated 4 one_block 0 one_block-Valid (omega arith)

-- The range from byte 4097 to byte 16384 holds the pages 2 and 3.
pgalloc_free_range_lem_example :
    Returns
      (λ r s'. FreedRange 4 fresh 2 4 s'.pages × Restored pgalloc_lock 0 (one_cpu 0) s'.machine)
      (pgalloc_free_range 1 5
        (kernbase + 4097)
        (kernbase + 16384)
        (record { machine = one_cpu 0; pages = fresh }))
pgalloc_free_range_lem_example =
    pgalloc_free_range_lem 0 5 0 4 4097 16384 (record { machine = one_cpu 0; pages = fresh })
      (one_cpu-Ready 0) (λ pos. refl) refl fresh-Valid (omega arith) (omega arith) (omega arith)
      (omega arith) (λ q ge lt. nothing_free q)
