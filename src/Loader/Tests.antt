-- ===== src/Loader/Tests.antt =====
-- The loader on a memory whose bytes are their addresses modulo 256.
use guide_os.Prelude.{◌+◌, ◌-◌, ◌*◌, ◌%◌, ◌≡◌, ◌&&◌, refl, if◌then◌else◌, ltb, leb}
use guide_os.Strings.{Mem, poke}
use guide_os.Loader.{current_binary, target_binary, load_loop, stage2_cmain, stage2_cmain_lem}

abbrev memory : Mem
memory a = a % 256

first_bytes : load_loop 3 0 memory (target_binary + 2) ≡ 2
unfolding load_loop poke
first_bytes = refl

stage2_cmain_lem_example :
    ((stage2_cmain memory).0 ≡ target_binary)
    × ((stage2_cmain memory).1 0x100007 ≡ (
        if leb target_binary 0x100007 && ltb 0x100007 (target_binary + 256 * 1024)
        then memory (current_binary + (0x100007 - target_binary))
        else memory 0x100007))
stage2_cmain_lem_example = stage2_cmain_lem memory 0x100007
