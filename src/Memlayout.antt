-- ===== src/Memlayout.antt =====
-- kernel/include/mem/memlayout.h: physical memory is seen from KERNBASE on.
use guide_os.Prelude.{ℕ, ◌+◌, ◌-◌, ◌%◌, ◌^◌, Ptr}

abbrev pub kernbase : ℕ
kernbase = 0xffff800000000000

-- `KERN_PHYMAP_TOP`
abbrev pub kern_phymap_top : ℕ
kern_phymap_top = kernbase + 2 ^ 39

-- `KV2P` and `P2KV`
abbrev pub kv2p : Ptr → ℕ
kv2p va = (va + 2 ^ 64 - kernbase) % 2 ^ 64

abbrev pub p2kv : ℕ → Ptr
p2kv pa = (pa + kernbase) % 2 ^ 64
