-- ===== src/Prelude/Bits.antt =====
-- One bit of a word: `(w >> k) & 1` and `w ^ (1 << k)`.
use Prim.Native.Nat.{ℕ, zero, suc, ◌+◌, ◌-◌, ◌*◌, ◌/◌, ◌%◌, ◌^◌, ◌<◌, bit_xor}
use mathlib.Core.Path.{◌≡◌, refl, ap, ◌∙◌}
use mathlib.Core.Bool.{Bool, false, not, ◌&&◌}
use native.Mathlib.Omega.{arith}
use guide_os.Prelude.Tests.{ltb, leb, ◌==◌, if◌then◌else◌}

unfoldable pub test_bit : ℕ → ℕ → Bool
test_bit w zero = w % 2 == 1
test_bit w (suc k) = test_bit (w / 2) k

unfoldable pub flip_bit : ℕ → ℕ → ℕ
flip_bit w zero = if w % 2 == 1 then w - 1 else w + 1
flip_bit w (suc k) = w % 2 + 2 * flip_bit (w / 2) k

pub test_bit-zero : (k : ℕ) → test_bit 0 k ≡ false
unfolding test_bit
test_bit-zero zero = refl
test_bit-zero (suc k) = test_bit-zero k

pub test_bit-flip_bit :
    (w k j : ℕ) → test_bit (flip_bit w k) j ≡ (if k == j then not (test_bit w j) else test_bit w j)
unfolding test_bit flip_bit
test_bit-flip_bit w zero zero = ground arith
test_bit-flip_bit w zero (suc j) = ground arith
test_bit-flip_bit w (suc k) zero = ground arith
test_bit-flip_bit w (suc k) (suc j) = ground (arith, test_bit-flip_bit (w / 2) k j)

flip_bit_runs : flip_bit 0xa5 6 ≡ bit_xor 0xa5 (2 ^ 6)
unfolding flip_bit
flip_bit_runs = refl

-- `w >> k`, `w & ((1 << k) - 1)` and `w & ~((1 << k) - 1)`
unfoldable pub shr : ℕ → ℕ → ℕ
shr w zero = w
shr w (suc k) = shr (w / 2) k

unfoldable pub low_bits : ℕ → ℕ → ℕ
low_bits w zero = 0
low_bits w (suc k) = w % 2 + 2 * low_bits (w / 2) k

unfoldable pub clear_low : ℕ → ℕ → ℕ
clear_low w zero = w
clear_low w (suc k) = 2 * clear_low (w / 2) k

pub shr-suc : (w k : ℕ) → shr w (suc k) ≡ shr w k / 2
unfolding shr
shr-suc w zero = refl
shr-suc w (suc k) = shr-suc (w / 2) k

half_even : (r x : ℕ) → r < 2 → (r + 2 * x) / 2 ≡ x
half_even r x h = omega arith

half_double : (x : ℕ) → 2 * x / 2 ≡ x
half_double x = omega arith

half_add : (w k : ℕ) → (w + 2 ^ suc k) / 2 ≡ w / 2 + 2 ^ k
half_add w k = omega arith

pub shr-flip_bit :
    (w k : ℕ) → shr (flip_bit w k) k ≡ (if shr w k % 2 == 1 then shr w k - 1 else shr w k + 1)
unfolding shr flip_bit
shr-flip_bit w zero = refl
shr-flip_bit w (suc k) =
    ap (λ x. shr x k) (half_even (w % 2) (flip_bit (w / 2) k) (omega arith))
    ∙ shr-flip_bit (w / 2) k

pub low_bits-flip_bit : (w k : ℕ) → low_bits (flip_bit w k) k ≡ low_bits w k
unfolding low_bits flip_bit
low_bits-flip_bit w zero = refl
low_bits-flip_bit w (suc k) =
    rw (half_even (w % 2) (flip_bit (w / 2) k) (omega arith))
      (omega (arith, low_bits-flip_bit (w / 2) k))

pub shr-clear_low : (w k : ℕ) → shr (clear_low w k) k ≡ shr w k
unfolding shr clear_low
shr-clear_low w zero = refl
shr-clear_low w (suc k) =
    ap (λ x. shr x k) (half_double (clear_low (w / 2) k)) ∙ shr-clear_low (w / 2) k

pub low_bits-clear_low : (w k : ℕ) → low_bits (clear_low w k) k ≡ 0
unfolding low_bits clear_low
low_bits-clear_low w zero = refl
low_bits-clear_low w (suc k) =
    rw (half_double (clear_low (w / 2) k)) (omega (arith, low_bits-clear_low (w / 2) k))

pub low_bits-suc : (w k : ℕ) → low_bits w (suc k) ≡ 0 → low_bits w k ≡ 0
unfolding low_bits
low_bits-suc w zero e = refl
low_bits-suc w (suc k) e = omega (arith, low_bits-suc (w / 2) k (omega (arith, e)), e)

pub shr_even : (w k : ℕ) → low_bits w (suc k) ≡ 0 → shr w k % 2 ≡ 0
unfolding low_bits shr
shr_even w zero e = omega (arith, e)
shr_even w (suc k) e = shr_even (w / 2) k (omega (arith, e))

-- A multiple of `2 ^ k` is determined by its quotient.
pub eq_of_shr : (v w k : ℕ) → low_bits v k ≡ 0 → low_bits w k ≡ 0 → shr v k ≡ shr w k → v ≡ w
unfolding low_bits shr
eq_of_shr v w zero lv lw e = e
eq_of_shr v w (suc k) lv lw e =
    omega (arith, eq_of_shr (v / 2) (w / 2) k (omega (arith, lv)) (omega (arith, lw)) e, lv, lw)

-- Adding `2 ^ k` adds one to the quotient.
pub shr-add : (w k : ℕ) → shr (w + 2 ^ k) k ≡ shr w k + 1
unfolding shr
shr-add w zero = refl
shr-add w (suc k) = ap (λ x. shr x k) (half_add w k) ∙ shr-add (w / 2) k

pub low_bits-add : (w k : ℕ) → low_bits (w + 2 ^ k) k ≡ low_bits w k
unfolding low_bits
low_bits-add w zero = refl
low_bits-add w (suc k) = rw (half_add w k) (omega (arith, low_bits-add (w / 2) k))

low_bits_runs : low_bits 0xa5 3 ≡ 5
unfolding low_bits
low_bits_runs = refl

range_halves :
    (w v p : ℕ)
    → w % 2 ≡ 0
    → (leb (w / 2) (v / 2) && ltb (v / 2) (w / 2 + p)) ≡ (leb w v && ltb v (w + 2 * p))
range_halves w v p e = ground arith

-- The words with the same quotient as a multiple of `2 ^ k` are the `2 ^ k` words from it on.
pub shr_range :
    (w v k : ℕ) → low_bits w k ≡ 0 → (shr w k == shr v k) ≡ (leb w v && ltb v (w + 2 ^ k))
unfolding shr low_bits
shr_range w v zero e = ground arith
shr_range w v (suc k) e =
    shr_range (w / 2) (v / 2) k (omega (arith, e))
    ∙ (let double : 2 ^ suc k ≡ 2 * 2 ^ k = omega arith in
        rw double (range_halves w v (2 ^ k) (omega (arith, e))))
