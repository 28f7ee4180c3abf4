-- ===== src/Console.antt =====
-- kernel/src/arch/x86/console.c: the text screen. `crt` holds the 16-bit cells of the screen, and the
-- cursor is in two 8-bit registers of the video controller.
pub mod Bounds
mod Tests
pub mod Input
pub mod Init
use guide_os.Prelude.{
  ℕ, zero, suc, ◌+◌, ◌-◌, ◌*◌, ◌/◌, ◌%◌, ◌^◌, Bool, true, false, ◌==◌, if◌then◌else◌, ltb, leb,
}
use guide_os.Strings.{Mem, poke, fill, memcpy}

-- `BACKSPACE` and the character `\n`
abbrev pub backspace : ℕ
backspace = 0x100

abbrev pub newline : ℕ
newline = 10

pub record Screen : Type 0 where
  pub crt : Mem
  pub cursor_high : ℕ
  pub cursor_low : ℕ

-- The cursor as `cga_putchar` reads it, and as it writes it back
abbrev pub cursor : Screen → ℕ
cursor s = s.cursor_high * 256 + s.cursor_low

abbrev pub set_cursor : ℕ → Mem → Screen
set_cursor pos crt = record { crt = crt; cursor_high = pos / 256 % 256; cursor_low = pos % 256 }

-- The cursor and the screen behind the character
unfoldable pub put_cell : ℕ → ℕ → Mem → ℕ × Mem
put_cell c pos crt =
    if c == newline
    then (pos + (80 - pos % 80), crt)
    else if c == backspace
    then (pos - 1, crt)
    else (pos + 1, poke crt pos (c % 256 + 0x700))

-- `memcpy` and `memset` copy and clear whole cells here; a negative count is large as a `size_t`.
unfoldable pub scroll : ℕ × Mem → ℕ × Mem
scroll (pos, crt) =
    if leb 24 (pos / 80)
    then (
      pos - 80,
      fill ((24 * 80 + 2 ^ 64 - (pos - 80)) % 2 ^ 64) (pos - 80) 0 (memcpy 0 80 (23 * 80) crt),
    )
    else (pos, crt)

unfoldable pub cga_putchar : ℕ → Screen → Screen
cga_putchar c s =
    let r = scroll (put_cell c (cursor s) s.crt) in set_cursor r.0 (poke r.1 r.0 (32 + 0x700))
