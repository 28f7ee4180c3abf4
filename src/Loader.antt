-- ===== src/Loader.antt =====
-- stage2_bootloader/src/stage2_loader.c: the copy of the kernel to the address where it starts.
mod Tests
use guide_os.Prelude.{
  ℕ, zero, suc, ◌+◌, ◌-◌, ◌*◌, ◌≤◌, ◌<◌, ◌≡◌, ◌∙◌, refl, if◌then◌else◌, ltb, leb, ◌&&◌, arith, Ptr,
}
use guide_os.Strings.{Mem, poke}

abbrev pub current_binary : Ptr
current_binary = 0x10000

abbrev pub target_binary : Ptr
target_binary = 0x100000

-- The loop of `stage2_cmain` from `i` on, with `left` bytes to go
unfoldable pub load_loop : ℕ → ℕ → Mem → Mem
load_loop zero i m = m
load_loop (suc left) i m =
    load_loop left (i + 1) (poke m (target_binary + i) (m (current_binary + i)))

-- `stage2_cmain`: the memory, and the address where it jumps to
unfoldable pub stage2_cmain : Mem → Ptr × Mem
stage2_cmain m = (target_binary, load_loop (256 * 1024) 0 m)

load_loop_lem :
    (left i : ℕ) (m : Mem) (a : Ptr)
    → i + left ≤ 256 * 1024
    → load_loop left i m a ≡ (
        if leb (target_binary + i) a && ltb a (target_binary + (i + left))
        then m (current_binary + (a - target_binary))
        else m a)
unfolding load_loop poke
load_loop_lem zero i m a fits = ground arith
load_loop_lem (suc left) i m a fits =
    load_loop_lem left (i + 1) (poke m (target_binary + i) (m (current_binary + i))) a (omega arith)
    ∙ grind arith

-- The loader jumps to 1 MB. The 256 KB from there on are then those that were at 64 KB, and no other
-- byte has changed.
pub stage2_cmain_lem :
    (m : Mem) (a : Ptr)
    → ((stage2_cmain m).0 ≡ target_binary)
      × ((stage2_cmain m).1 a ≡ (
          if leb target_binary a && ltb a (target_binary + 256 * 1024)
          then m (current_binary + (a - target_binary))
          else m a))
unfolding stage2_cmain
stage2_cmain_lem m a = (refl, load_loop_lem (256 * 1024) 0 m a (omega arith))
