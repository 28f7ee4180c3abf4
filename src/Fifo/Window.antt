-- ===== src/Fifo/Window.antt =====
-- The bytes that lie in the ring from one index on.
use native.Mathlib.Nat.{mod-add-mod, mod-eq_of_lt, mod-eq-sub-mod, add-zero, add_comm, add-mod_left}
use native.Mathlib.Decide.{dec_lt}
use guide_os.Prelude.{
  ℕ, zero, suc, ◌+◌, ◌-◌, ◌%◌, ◌≤◌, ◌<◌, ◌≡◌, refl, ◌≢◌, ap, ap₂, ◌∙◌, List, [], ◌∷◌, ◌++◌, arith,
  length, get_or, set, get_or-set_self, get_or-set_ne,
}

-- `a % n` where `a` goes round at most once.
pub mod_self : (n a b : ℕ) → a ≡ b → b < n → a % n ≡ b
mod_self n a b e h = rw e (mod-eq_of_lt h)

pub mod_back : (n a b : ℕ) → a ≡ b + n → b < n → a % n ≡ b
mod_back n a b e h = rw (e, add_comm b n, add-mod_left n b) (mod-eq_of_lt h)

-- The `k` bytes from index `i` on, going round at `n`.
abbrev pub window : List ℕ → ℕ → ℕ → ℕ → List ℕ
window buf n i zero = []
window buf n i (suc k) = get_or buf i 0 ∷ window buf n ((i + 1) % n) k

pub length-window : (buf : List ℕ) (n i k : ℕ) → length (window buf n i k) ≡ k
length-window buf n i zero = refl
length-window buf n i (suc k) = ap suc (length-window buf n ((i + 1) % n) k)

-- `add-mod` in the form of a case split: `i + k` goes round at most once.
pub round_once : (n i k : ℕ) → i < n → k < n → (i + k) % n ≢ i + k → (i + k) % n + n ≡ i + k
round_once n i k hi hk ne = elim (dec_lt (i + k) n) [
  | yes p ↦ absurd (ne (mod-eq_of_lt p))
  | no p ↦ omega (
    arith,
    mod-eq-sub-mod {n = i + k} {m = n} (omega arith),
    mod-eq_of_lt {n = i + k - n} {m = n} (omega arith),
  )
]

pub round-ne_start : (n i k : ℕ) → i < n → suc k < n → (i + suc k) % n ≢ i
round-ne_start n i k hi hk e = omega (arith, round_once n i (suc k) hi (omega arith) (omega arith))

pub round_step : (n i k : ℕ) → ((i + 1) % n + k) % n ≡ (i + suc k) % n
round_step n i k = rw mod-add-mod (ap (λ t. t % n) (omega arith))

-- A write behind a window that does not fill the ring adds the byte at its end.
pub window-set :
    (buf : List ℕ) (n x k i j : ℕ)
    → n ≤ length buf
    → i < n
    → k < n
    → (i + k) % n ≡ j
    → window (set buf j x) n i (suc k) ≡ window buf n i k ++ (x ∷ [])
window-set buf n x zero i j fits hi hk e =
    let here : i ≡ j = rw (add-zero, mod-eq_of_lt hi) at e in
    rw (← here) (ap (λ v. v ∷ []) (get_or-set_self buf i x 0 (omega arith)))
window-set buf n x (suc k) i j fits hi hk e =
    ap₂ ◌∷◌ (get_or-set_ne buf x 0 (λ same. round-ne_start n i k hi hk (e ∙ same)))
      (window-set buf n x k ((i + 1) % n) j fits (omega arith) (omega arith) (round_step n i k ∙ e))

-- A write at an index outside the window leaves it alone.
pub window-set_outside :
    (buf : List ℕ) (n x k i j : ℕ)
    → i < n
    → k < n
    → (i + k) % n ≡ j
    → window (set buf j x) n i k ≡ window buf n i k
window-set_outside buf n x zero i j hi hk e = refl
window-set_outside buf n x (suc k) i j hi hk e =
    ap₂ ◌∷◌ (get_or-set_ne buf x 0 (λ same. round-ne_start n i k hi hk (e ∙ same))) (
      window-set_outside buf n x k ((i + 1) % n) j (omega arith) (omega arith)
        (round_step n i k ∙ e))

-- One more byte is the one at the index behind the window.
pub window-suc :
    (buf : List ℕ) (n k i : ℕ)
    → i < n
    → window buf n i (suc k) ≡ window buf n i k ++ (get_or buf ((i + k) % n) 0 ∷ [])
window-suc buf n zero i h = rw (add-zero, mod-eq_of_lt h)
window-suc buf n (suc k) i h =
    ap (λ r. get_or buf i 0 ∷ r)
      (window-suc buf n k ((i + 1) % n) (omega arith)
        ∙ ap (λ j. window buf n ((i + 1) % n) k ++ (get_or buf j 0 ∷ [])) (round_step n i k))
