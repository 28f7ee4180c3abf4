-- ===== src/Console/Bounds.antt =====
-- `cga_putchar` stays within the screen.
use guide_os.Prelude.{
  ℕ, ◌+◌, ◌-◌, ◌*◌, ◌/◌, ◌%◌, ◌^◌, ◌≤◌, ◌<◌, ◌≡◌, ◌∙◌, refl, inl, inr, Bool-cases, arith, ==_of_ne,
  ==_refl, leb,
}
use guide_os.Strings.{Mem, poke, memcpy}
use guide_os.Strings.Move.{memmove_lem}
use guide_os.Strings.Compare.{fill_lem}
use guide_os.Console.{Screen, cursor, put_cell, scroll, cga_putchar}

put_cell-bounds :
    (c pos : ℕ) (crt : Mem) (i : ℕ)
    → pos < 1920
    → 1920 ≤ i
    → ((put_cell c pos crt).0 ≤ 1920) × ((put_cell c pos crt).1 i ≡ crt i)
unfolding put_cell poke
put_cell-bounds c pos crt i lt ge = (ground arith, ground arith)

scroll-bounds :
    (pos : ℕ) (crt : Mem) (i : ℕ)
    → pos ≤ 1920
    → 1920 ≤ i
    → ((scroll (pos, crt)).0 < 1920) × ((scroll (pos, crt)).1 i ≡ crt i)
unfolding scroll memcpy
scroll-bounds pos crt i le ge = elim (Bool-cases (leb 24 (pos / 80))) [
  | inl e ↦
      let n : ℕ = (24 * 80 + 2 ^ 64 - (pos - 80)) % 2 ^ 64 in
      let copied = memmove_lem 0 80 1840 crt i in
      let cleared = fill_lem n (pos - 80) 0 (memcpy 0 80 1840 crt) i in
      rw e (ground arith, cleared ∙ ground (arith, copied))
  | inr e ↦ rw e (ground arith, refl)
]

-- From a cursor within the first 24 rows, `cga_putchar` leaves the cursor within them, writes no cell
-- behind them, and puts a blank under the cursor.
pub cga_putchar-bounds :
    (c : ℕ) (s : Screen)
    → cursor s < 1920
    → (cursor (cga_putchar c s) < 1920)
      × ((i : ℕ) → 1920 ≤ i → (cga_putchar c s).crt i ≡ s.crt i)
      × ((cga_putchar c s).crt (cursor (cga_putchar c s)) ≡ 32 + 0x700)
unfolding cga_putchar poke
cga_putchar-bounds c s lt =
    let r = put_cell c (cursor s) s.crt in
    let small : (scroll r).0 < 1920 =
      (scroll-bounds r.0 r.1 1920 (put_cell-bounds c (cursor s) s.crt 1920 lt (omega arith)).0
        (omega arith)).0 in
    let back : (scroll r).0 / 256 % 256 * 256 + (scroll r).0 % 256 ≡ (scroll r).0 =
      omega (arith, small) in
    (
      omega (arith, small, back),
      λ i ge.
          let (le, kept) = put_cell-bounds c (cursor s) s.crt i lt ge in
          let rest = (scroll-bounds r.0 r.1 i le ge).1 in
          rw (==_of_ne i (scroll r).0 (omega (arith, small, ge))) (rest ∙ kept),
      rw (back, ==_refl (scroll r).0) refl,
    )
