-- ===== src/Prelude/Exec.antt =====
-- Stateful code: a run ends with a value and a state, in `panic`, in a fault (an access through a
-- null or dangling pointer), or without enough fuel.
use Prim.Native.Nat.{ℕ}
use Prim.Native.String.{String}
use mathlib.Core.Path.{◌≡◌, refl}

pub data Run (S A : Type 0) : Type 0 where
  ok : A → S → Run S A
  panic : String → Run S A
  fault : Run S A
  out_of_fuel : Run S A

abbrev pub Cmd : Type 0 → Type 0 → Type 0
Cmd S A = S → Run S A

abbrev pub Ptr : Type 0
Ptr = ℕ

abbrev pub null : Ptr
null = 0

abbrev pub pure : {S A : Type 0} → A → Cmd S A
pure = ok

module _ {S A B : Type 0} where
  abbrev pub and_then : Run S A → (A → Cmd S B) → Run S B
  and_then (ok a s) k = k a s
  and_then (panic m) k = panic m
  and_then fault k = fault
  and_then out_of_fuel k = out_of_fuel

  infixl 5 ◌>>=◌ ◌>>◌
  abbrev pub ◌>>=◌ : Cmd S A → (A → Cmd S B) → Cmd S B
  m >>= k = λ s. and_then (m s) k

  abbrev pub ◌>>◌ : Cmd S A → Cmd S B → Cmd S B
  m >> n = m >>= λ _. n

-- A run on a part of the state, as one on the whole.
abbrev pub map_state : {S T A : Type 0} → (T → S) → Run T A → Run S A
map_state f (ok a t) = ok a (f t)
map_state f (panic m) = panic m
map_state f fault = fault
map_state f out_of_fuel = out_of_fuel

-- Total correctness of a run: it ends with a value and a state of which `P` holds.
pub data Returns {S A : Type 0} (P : A → S → Type 0) : Run S A → Type 0 where
  returns : {a : A} {s : S} → P a s → Returns P (ok a s)

module _ {S A : Type 0} {P : A → S → Type 0} where
  pub bind-Returns :
      {B : Type 0} {Q : B → S → Type 0} {r : Run S A} {k : A → Cmd S B}
      → Returns P r
      → ((a : A) (s : S) → P a s → Returns Q (k a s))
      → Returns Q (and_then r k)
  bind-Returns (returns p) next = next _ _ p

  pub weaken-Returns :
      {Q : A → S → Type 0} {r : Run S A}
      → Returns P r
      → ((a : A) (s : S) → P a s → Q a s)
      → Returns Q r
  weaken-Returns (returns p) weaken = returns (weaken _ _ p)

pub map_state-Returns :
    {S T A : Type 0} {P : A → T → Type 0} {r : Run T A} (f : T → S)
    → Returns P r
    → Returns (λ a s. (t : T) × P a t × (s ≡ f t)) (map_state f r)
map_state-Returns f (returns {s = t} p) = returns (t, p, refl)

-- A run on a part of the state, then one on the whole
pub part-Returns :
    {S T A B : Type 0} {P : A → T → Type 0} {Q : B → S → Type 0} {r : Run T A} (f : T → S)
    (k : A → Cmd S B)
    → Returns P r
    → ((a : A) (t : T) → P a t → Returns Q (k a (f t)))
    → Returns Q (and_then (map_state f r) k)
part-Returns f k (returns p) next = next _ _ p

-- A run on the whole state that follows one on a part of it, step by step
pub via-Returns :
    {S T A B C : Type 0} {P : B → S → Type 0} {Q : C → T → Type 0} {k : A → Cmd S B} (r : Run S A)
    (f : S → T) (k' : A → Cmd T C)
    → Returns P (and_then r k)
    → ((a : A) (s : S) → Returns P (k a s) → Returns Q (k' a (f s)))
    → Returns Q (and_then (map_state f r) k')
via-Returns (ok a s) f k' h next = next a s h
via-Returns (panic m) f k' h next = elim h [ ]
via-Returns fault f k' h next = elim h [ ]
via-Returns out_of_fuel f k' h next = elim h [ ]

-- As `Returns`, for a run that may also end in a panic whose message is allowed by `Q`: it does not
-- fault and has enough fuel.
pub data Ends {S A : Type 0} (P : A → S → Type 0) (Q : String → Type 0) : Run S A → Type 0 where
  returned : {a : A} {s : S} → P a s → Ends P Q (ok a s)
  panicked : {m : String} → Q m → Ends P Q (panic m)

module _ {S A : Type 0} {P : A → S → Type 0} {Q : String → Type 0} where
  pub bind-Ends :
      {B : Type 0} {P' : B → S → Type 0} {r : Run S A} {k : A → Cmd S B}
      → Ends P Q r
      → ((a : A) (s : S) → P a s → Ends P' Q (k a s))
      → Ends P' Q (and_then r k)
  bind-Ends (returned p) next = next _ _ p
  bind-Ends (panicked q) next = panicked q

  pub weaken-Ends :
      {P' : A → S → Type 0} {r : Run S A}
      → Ends P Q r
      → ((a : A) (s : S) → P a s → P' a s)
      → Ends P' Q r
  weaken-Ends (returned p) weaken = returned (weaken _ _ p)
  weaken-Ends (panicked q) weaken = panicked q

  pub Returns-Ends : {r : Run S A} → Returns P r → Ends P Q r
  Returns-Ends (returns p) = returned p

  pub Ends-Returns : {r : Run S A} → Ends P Q r → ((m : String) → Q m → ⊥) → Returns P r
  Ends-Returns (returned p) never = returns p
  Ends-Returns (panicked q) never = absurd (never _ q)

pub map_state-Ends :
    {S T A : Type 0} {P : A → T → Type 0} {Q : String → Type 0} {r : Run T A} (f : T → S)
    → Ends P Q r
    → Ends (λ a s. (t : T) × P a t × (s ≡ f t)) Q (map_state f r)
map_state-Ends f (returned {s = t} p) = returned (t, p, refl)
map_state-Ends f (panicked q) = panicked q
