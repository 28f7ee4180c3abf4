-- ===== src/Kmain.antt =====
-- kernel/src/kmain.c: how the start of the kernel sets up its memory. Kmain.Whole has all of `kmain`, with
-- the devices that are set up between these calls, and the processes after them.
pub mod Memory
pub mod Whole
mod Tests
use guide_os.Prelude.{ℕ, ◌+◌, ◌*◌, ◌^◌, List, Cmd, map_state, ok, pure, ◌>>=◌, ◌>>◌, Ptr}
use guide_os.Memlayout.{p2kv}
use guide_os.Strings.{Mem}
use guide_os.Cpu.{Machine, cpu_bsp_init}
use guide_os.BootAlloc.{Boot, boot_alloc_init, boot_alloc_disable}
use guide_os.Vm.{Tables, vmm_init}
use guide_os.PageAlloc.Locked.{Locked, pgalloc_free_range}
use guide_os.PageAlloc.Init.{Start, pgalloc_init}
use guide_os.Kmalloc.{Block, Kmem, kmalloc_init}

-- The state of the allocators, with the CPU and the page tables
pub record System : Type 0 where
  pub start : Start
  pub entry : Ptr → ℕ → ℕ
  pub size_list : List Block
  pub size_at : Ptr → ℕ
  pub bytes : Mem

abbrev pub on_boot : {A : Type 0} → (Boot → A × Boot) → Cmd System A
on_boot f s =
    let r = f s.start.boot in ok r.0 (record s { start = record (s.start) { boot = r.1 } })

abbrev pub on_tables : {A : Type 0} → Cmd Tables A → Cmd System A
on_tables c s =
    map_state (λ t. record s { entry = t.entry; start = record (s.start) { boot = t.boot } })
      (c (record { boot = s.start.boot; entry = s.entry }))

abbrev pub on_start : {A : Type 0} → Cmd Start A → Cmd System A
on_start c s = map_state (λ t. record s { start = t }) (c s.start)

abbrev pub on_machine : {A : Type 0} → Cmd Machine A → Cmd System A
on_machine c s =
    map_state (λ m. record s { start = record (s.start) { machine = m } }) (c s.start.machine)

abbrev pub on_locked : {A : Type 0} → Cmd Locked A → Cmd System A
on_locked c s =
    map_state (λ l. record s { start = record (s.start) { machine = l.machine; pages = l.pages } })
      (c (record { machine = s.start.machine; pages = s.start.pages }))

abbrev pub kmem : System → Kmem
kmem s = record {
  machine = s.start.machine;
  pages = s.start.pages;
  size_list = s.size_list;
  size_at = s.size_at;
  bytes = s.bytes;
}

abbrev pub on_kmem : {A : Type 0} → Cmd Kmem A → Cmd System A
on_kmem c s =
    map_state
      (λ k. record s {
        start = record (s.start) { machine = k.machine; pages = k.pages };
        size_list = k.size_list;
        size_at = k.size_at;
        bytes = k.bytes;
      })
      (c (kmem s))

-- What `kmain` does to the memory, with the end of the kernel at `kern_end`. `fuel` is for the loop of
-- `pgalloc_free_range`.
unfoldable pub memory_init : ℕ → ℕ → Ptr → Cmd System (Unit {0})
memory_init spins fuel kern_end = do
  on_boot (λ b. (tt, boot_alloc_init kern_end (64 * 1024 * 1024) b))
  on_tables vmm_init
  on_start (pgalloc_init (4 * 1024 * 1024 * 1024))
  on_machine cpu_bsp_init
  avail ← on_boot boot_alloc_disable
  on_kmem kmalloc_init
  on_locked (pgalloc_free_range spins fuel avail (p2kv (64 * 1024 * 1024)))
