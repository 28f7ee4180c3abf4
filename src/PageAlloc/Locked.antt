-- ===== src/PageAlloc/Locked.antt =====
-- The functions of page_alloc.c that take its lock.
use guide_os.Prelude.{ℕ, ◌+◌, ◌-◌, ◌/◌, ◌%◌, ◌^◌, Option, Cmd, map_state, pure, ◌>>=◌, ◌>>◌}
use guide_os.Memlayout.{kv2p}
use guide_os.Cpu.{Machine, LockId}
use guide_os.Spinlock.{acquire, release}
use guide_os.PageAlloc.{Pages, page_size, s_free_block, s_alloc_block, free_range}

pub record Locked : Type 0 where
  pub machine : Machine
  pub pages : Pages

-- `pgalloc_lock`
abbrev pub pgalloc_lock : LockId
pgalloc_lock = 1

abbrev pub on_machine : {A : Type 0} → Cmd Machine A → Cmd Locked A
on_machine c s = map_state (λ m. record s { machine = m }) (c s.machine)

abbrev pub on_pages : {A : Type 0} → Cmd Pages A → Cmd Locked A
on_pages c s = map_state (λ p. record s { pages = p }) (c s.pages)

abbrev pub locked : {A : Type 0} → ℕ → Cmd Pages A → Cmd Locked A
locked spins c = do
  on_machine (acquire spins pgalloc_lock)
  r ← on_pages c
  on_machine (release pgalloc_lock)
  pure r

unfoldable pub pgalloc_allocate : ℕ → ℕ → Cmd Locked (Option ℕ)
pgalloc_allocate spins order = locked spins (s_alloc_block order)

unfoldable pub pgalloc_free : ℕ → ℕ → ℕ → Cmd Locked (Unit {0})
pgalloc_free spins pgidx order = locked spins (s_free_block pgidx order)

-- `pgalloc_free_range`, on fuel for its loop
unfoldable pub pgalloc_free_range : ℕ → ℕ → ℕ → ℕ → Cmd Locked (Unit {0})
pgalloc_free_range spins fuel start_va end_va = locked spins (
    free_range fuel ((kv2p start_va + (page_size - 1)) % 2 ^ 64 / page_size)
      (kv2p end_va / page_size))
