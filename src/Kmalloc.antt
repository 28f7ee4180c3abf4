-- ===== src/Kmalloc.antt =====
-- kernel/src/mem/kmalloc.c: the allocator of small blocks. Addresses do not wrap around, and `NULL` is
-- 0. The free list, which runs through the headers of the free blocks, is the list of those blocks;
-- what the `size` field in the header of a block in use holds is `size_at`.
pub mod Add
pub mod Fit
pub mod Bytes
pub mod Allocate
pub mod Locking
pub mod Calls
pub mod Gap
pub mod Realloc
mod Tests
use guide_os.Prelude.{
  ℕ, zero, suc, ◌+◌, ◌-◌, ◌*◌, Bool, true, false, not, ◌&&◌, ◌||◌, Option, none, some, List, [],
  ◌∷◌, ◌==◌, if◌then◌else◌, ltb, leb, Cmd, Run, map_state, ok, panic, fault, pure, ◌>>=◌, ◌>>◌, Ptr,
  null, min, ◌%◌, ◌^◌,
}
use guide_os.Memlayout.{kernbase}
use guide_os.Strings.{Mem, memcpy, memset}
use guide_os.Cpu.{Machine, LockId, update}
use guide_os.Spinlock.{init_lock, acquire, release}
use guide_os.PageAlloc.{Pages, page_size}
use guide_os.PageAlloc.Locked.{Locked, pgalloc_allocate}

-- `TOTAL_METADATA_SIZE` and `MIN_BLOCK_SIZE`
abbrev pub metadata_size : ℕ
metadata_size = 16

abbrev pub min_block_size : ℕ
min_block_size = 24

-- `metadata_t`: a block with its header at `addr`, and `size` bytes behind the header
pub record Block : Type 0 where
  pub addr : Ptr
  pub size : ℕ

-- The first loop of `add_block`, for a block from `start` to `end`: it takes the free neighbours
-- off the list and merges them into `meta`.
unfoldable pub merge_loop : Ptr → Ptr → Block → List Block → List Block × Block
merge_loop start end meta [] = ([], meta)
merge_loop start end meta (b ∷ bs) =
    let front =
      merge_loop start end (record { addr = b.addr; size = b.size + (meta.size + metadata_size) })
        bs in
    let back =
      merge_loop start end
        (record { addr = meta.addr; size = meta.size + (b.size + metadata_size) }) bs in
    let rest = merge_loop start end meta bs in
    if b.addr + b.size + metadata_size == start
    then front
    else if end == b.addr
    then back
    else (b ∷ rest.0, rest.1)

-- The second loop: `meta` goes in front of the first block that is not smaller.
unfoldable pub insert_behind : Block → List Block → List Block
insert_behind meta [] = meta ∷ []
insert_behind meta (b ∷ bs) =
    if leb meta.size b.size then meta ∷ b ∷ bs else b ∷ insert_behind meta bs

unfoldable pub insert_block : Block → List Block → List Block
insert_block meta [] = meta ∷ []
insert_block meta (b ∷ bs) =
    if ltb b.size meta.size then b ∷ insert_behind meta bs else meta ∷ b ∷ bs

-- `add_block`: the free list that it leaves
unfoldable pub add_block : Ptr → ℕ → List Block → List Block
add_block block raw_size free =
    if ltb raw_size min_block_size
    then free
    else (let merged =
          merge_loop block (block + raw_size)
            (record { addr = block; size = raw_size - metadata_size }) free in
        insert_block merged.1 merged.0)

abbrev pub fits : ℕ → Block → Bool
fits request_size b = (b.size == request_size) || leb (request_size + min_block_size) b.size

-- `remove_block` for a block that is off the list already: the header of the block to hand out, and
-- the free list
unfoldable pub remove_block : ℕ → Block → List Block → Ptr × List Block
remove_block request_size b free =
    if b.size == request_size
    then (b.addr, free)
    else (let old_block_size = b.size - (request_size + metadata_size) in
        (
          b.addr + metadata_size + old_block_size,
          add_block b.addr (old_block_size + metadata_size) free,
        ))

abbrev pub behind : Block → Option (Block × List Block) → Option (Block × List Block)
behind b none = none
behind b (some (c, cs)) = some (c, b ∷ cs)

-- The search of `find_fit_block`: the first block that fits, and the list without it
unfoldable pub find_fit : ℕ → List Block → Option (Block × List Block)
find_fit request_size [] = none
find_fit request_size (b ∷ bs) =
    if fits request_size b then some (b, bs) else behind b (find_fit request_size bs)

-- The state of the allocator, with the CPU and the page allocator that it calls; `bytes` is what the
-- memory holds besides the headers.
pub record Kmem : Type 0 where
  pub machine : Machine
  pub pages : Pages
  pub size_list : List Block
  pub size_at : Ptr → ℕ
  pub bytes : Mem

-- `find_fit_block`, which writes the header of the block it hands out
unfoldable pub find_fit_block : ℕ → Cmd Kmem Ptr
find_fit_block request_size s = elim (find_fit request_size s.size_list) [
  | none ↦ ok null s
  | some (b, bs) ↦
      let (header, free) = remove_block request_size b bs in
      ok (header + metadata_size)
        (record s { size_list = free; size_at = update s.size_at header request_size })
]

-- `P2KV(pgidx * PG_SIZE)`
abbrev pub page_address : ℕ → Ptr
page_address pgidx = kernbase + page_size * pgidx

-- `kmalloc_lock`
abbrev pub kmalloc_lock : LockId
kmalloc_lock = 2

abbrev pub on_machine : {A : Type 0} → Cmd Machine A → Cmd Kmem A
on_machine c s = map_state (λ m. record s { machine = m }) (c s.machine)

abbrev pub on_locked : {A : Type 0} → Cmd Locked A → Cmd Kmem A
on_locked c s =
    map_state (λ l. record s { machine = l.machine; pages = l.pages })
      (c (record { machine = s.machine; pages = s.pages }))

abbrev pub under_lock : {A : Type 0} → ℕ → Cmd Kmem A → Cmd Kmem A
under_lock spins c = do
  on_machine (acquire spins kmalloc_lock)
  r ← c
  on_machine (release kmalloc_lock)
  pure r

-- `kmalloc_init`
unfoldable pub kmalloc_init : Cmd Kmem (Unit {0})
kmalloc_init = do (λ s. ok tt (record s { size_list = [] })); on_machine (init_lock kmalloc_lock)

unfoldable pub add_page : Option ℕ → Cmd Kmem (Unit {0})
add_page none s = panic "malloc: OOM"
add_page (some p) s =
    ok tt (record s { size_list = add_block (page_address p) page_size s.size_list })

-- `kmalloc` between the `acquire` and the `release` of its lock
unfoldable pub get_block : ℕ → ℕ → Cmd Kmem Ptr
get_block spins size =
    if (size == 0) || ltb (page_size - metadata_size) size then pure null else (do
      rtn ← find_fit_block size
      if rtn == null
          then (do page ← on_locked (pgalloc_allocate spins 0); add_page page; find_fit_block size)
          else pure rtn)

-- `kmalloc`. `spins` bounds the wait for a lock.
unfoldable pub kmalloc : ℕ → ℕ → Cmd Kmem Ptr
kmalloc spins size = under_lock spins (get_block spins size)

-- `kfree` between the `acquire` and the `release`
unfoldable pub put_block : Ptr → Cmd Kmem (Unit {0})
put_block block s =
    ok tt (record s { size_list = add_block block (s.size_at block + metadata_size) s.size_list })

unfoldable pub kfree : ℕ → Ptr → Cmd Kmem (Unit {0})
kfree spins ptr =
    if ptr == null then pure tt else under_lock spins (put_block (ptr - metadata_size))

-- The `memcpy` of `krealloc`: at NULL no page is mapped.
abbrev pub copy_block : Ptr → Ptr → ℕ → Cmd Kmem (Unit {0})
copy_block dst src n s =
    if (dst == null) && ltb 0 n
    then fault
    else ok tt (record s { bytes = memcpy dst src n s.bytes })

unfoldable pub krealloc : ℕ → Ptr → ℕ → Cmd Kmem Ptr
krealloc spins ptr size =
    if ptr == null
    then kmalloc spins size
    else if size == 0
    then (do kfree spins ptr; pure null)
    else (do
      new_block ← kmalloc spins size
      (λ s. copy_block new_block ptr (min size (s.size_at (ptr - metadata_size))) s)
      kfree spins ptr
      pure new_block)

-- `kcalloc`: the product is a `size_t`.
unfoldable pub kcalloc : ℕ → ℕ → ℕ → Cmd Kmem Ptr
kcalloc spins nmemb size = do
  memory ← kmalloc spins (nmemb * size % 2 ^ 64)
  if memory == null
      then pure tt
      else (λ s. ok tt (record s { bytes = memset memory 0 (size * nmemb % 2 ^ 64) s.bytes }))
  pure memory
