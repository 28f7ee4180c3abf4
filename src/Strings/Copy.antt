-- ===== src/Strings/Copy.antt =====
-- `strncpy` and `safestrcpy` of string.c.
use guide_os.Prelude.{
  ℕ, zero, suc, ◌+◌, ◌-◌, ◌^◌, ◌≤◌, ◌<◌, ◌≡◌, refl, ◌≢◌, ◌⊎◌, ◌∙◌, inl, inr, false, ◌&&◌,
  Bool-cases, arith, ◌==◌, ==_of_ne, ==_refl, eq_of_==, if◌then◌else◌, ltb, leb, Ptr,
}
use guide_os.Strings.{Mem, poke, CopyState, strncpy_loop, strncpy}
use guide_os.Strings.Compare.{fill_lem}

-- A string of `k` bytes at `t`
pub record StringAt (m : Mem) (t k : ℕ) : Type 0 where
  pub bytes : (i : ℕ) → i < k → m (t + i) ≢ 0
  pub nul : m (t + k) ≡ 0

-- The loop stops behind the NUL of a string that is shorter than `n`.
record Stopped (n s t k : ℕ) (m : Mem) (st : CopyState) : Type 0 where
  left : st.n ≡ n - k - 1
  at : st.s ≡ s + k + 1
  stored :
      (a : Ptr)
      → st.mem a
        ≡ (if leb s a && ltb a (s + k) then m (t + (a - s)) else if a == s + k then 0 else m a)

shift : (n s t : ℕ) → (s + suc n ≤ t) ⊎ (t + suc n ≤ s) → (s + 1 + n ≤ t + 1) ⊎ (t + 1 + n ≤ s + 1)
shift n s t (inl x) = inl (omega arith)
shift n s t (inr x) = inr (omega arith)

-- The first byte and what is copied behind it
stored_step :
    (n s t k : ℕ) (m : Mem) (a : Ptr)
    → k < suc n
    → 0 < k
    → (s + suc n ≤ t) ⊎ (t + suc n ≤ s)
    → (if leb (s + 1) a && ltb a (s + 1 + (k - 1))
        then poke m s (m t) (t + 1 + (a - (s + 1)))
        else if a == s + 1 + (k - 1)
        then 0
        else poke m s (m t) a)
      ≡ (if leb s a && ltb a (s + k) then m (t + (a - s)) else if a == s + k then 0 else m a)
unfolding poke
stored_step n s t k m a lt pos apart = elim (Bool-cases (leb (s + 1) a && ltb a (s + k))) [
  | inl e ↦
      let source : t + 1 + (a - (s + 1)) ≡ t + (a - s) = ground arith in
      let other : (t + (a - s) == s) ≡ false =
        ==_of_ne (t + (a - s)) s
          (λ q. elim apart [ inl x ↦ ground arith | inr x ↦ ground arith ]) in
      rw (source, other) (ground arith)
  | inr e ↦ elim (Bool-cases (a == s)) [
    | inl i ↦
        let i' = eq_of_== a s i in
        let t0 : t + (s - s) ≡ t = omega arith in rw (i', t0, ==_refl s) (ground arith)
    | inr i ↦ rw i (ground arith)
  ]
]

strncpy_loop-Stopped :
    (n s t k : ℕ) (m : Mem)
    → k < n
    → (s + n ≤ t) ⊎ (t + n ≤ s)
    → StringAt m t k
    → Stopped n s t k m (strncpy_loop n s t m)
unfolding strncpy_loop poke
strncpy_loop-Stopped zero s t k m lt apart str = absurd (omega arith)
strncpy_loop-Stopped (suc n) s t k m lt apart str = elim (Bool-cases (m t == 0)) [
  | inl e ↦
      let k0 : k ≡ 0 = elim (Bool-cases (k == 0)) [
        | inl z ↦ eq_of_== k 0 z
        | inr z ↦ absurd (str.bytes 0 (ground arith) (ground arith))
      ] in
      rw (e, k0) (record { left = omega arith; at = omega arith; stored = λ a. ground arith })
  | inr e ↦
      let pos : 0 < k = elim (Bool-cases (k == 0)) [
        | inl z ↦ let nul = str.nul in absurd (grind arith)
        | inr z ↦ ground arith
      ] in
      let later : StringAt (poke m s (m t)) (t + 1) (k - 1) = record {
        bytes = λ i lt z.
            str.bytes (suc i) (omega arith)
              (elim apart [ inl x ↦ grind arith | inr x ↦ grind arith ]);
        nul = let nul = str.nul in elim apart [ inl x ↦ grind arith | inr x ↦ grind arith ];
      } in
      let st =
        strncpy_loop-Stopped n (s + 1) (t + 1) (k - 1) (poke m s (m t)) (omega arith)
          (shift n s t apart) later in
      rw e (record {
        left = omega (arith, st.left);
        at = omega (arith, st.at);
        stored = λ a. st.stored a ∙ stored_step n s t k m a lt pos apart;
      })
]

-- Without a NUL among the `n` bytes, `n` wraps around.
strncpy_loop-wraps :
    (n s t : ℕ) (m : Mem)
    → (s + n ≤ t) ⊎ (t + n ≤ s)
    → ((i : ℕ) → i < n → m (t + i) ≢ 0)
    → ((strncpy_loop n s t m).n ≡ 2 ^ 64 - 1) × ((strncpy_loop n s t m).s ≡ s + n)
unfolding strncpy_loop poke
strncpy_loop-wraps zero s t m apart full = (refl, omega arith)
strncpy_loop-wraps (suc n) s t m apart full =
    let first : (m t == 0) ≡ false = ==_of_ne (m t) 0 (λ z. full 0 (omega arith) (grind arith)) in
    let (left, at) =
      strncpy_loop-wraps n (s + 1) (t + 1) (poke m s (m t)) (shift n s t apart) (λ i lt z.
        full (suc i) (omega arith) (elim apart [ inl x ↦ grind arith | inr x ↦ grind arith ])) in
    rw first (left, omega (arith, at))

-- `strncpy` of a string of `k < n` bytes that does not overlap with the destination copies it, fills
-- the rest of the `n` bytes with NULs, and changes no other byte.
pub strncpy-pads :
    (n s t k : ℕ) (m : Mem)
    → k < n
    → (s + n ≤ t) ⊎ (t + n ≤ s)
    → StringAt m t k
    → (a : Ptr)
    → strncpy s t n m a ≡ (
        if leb s a && ltb a (s + k)
        then m (t + (a - s))
        else if leb s a && ltb a (s + n)
        then 0
        else m a)
unfolding strncpy
strncpy-pads n s t k m lt apart str a =
    let st = strncpy_loop-Stopped n s t k m lt apart str in
    fill_lem (strncpy_loop n s t m).n (strncpy_loop n s t m).s 0 (strncpy_loop n s t m).mem a
    ∙ rw (st.left, st.at, st.stored a) (ground arith)

-- Of a source that has no NUL among its first `n` bytes, `strncpy` goes on to clear the `2 ^ 64 - 1`
-- bytes behind the destination.
pub strncpy-overruns :
    (n s t : ℕ) (m : Mem)
    → (s + n ≤ t) ⊎ (t + n ≤ s)
    → ((i : ℕ) → i < n → m (t + i) ≢ 0)
    → (a : Ptr) → s + n ≤ a
    → a < s + n + (2 ^ 64 - 1)
    → strncpy s t n m a ≡ 0
unfolding strncpy
strncpy-overruns n s t m apart full a ge lt =
    let (wrapped, at) = strncpy_loop-wraps n s t m apart full in
    fill_lem (strncpy_loop n s t m).n (strncpy_loop n s t m).s 0 (strncpy_loop n s t m).mem a
    ∙ rw (wrapped, at) (ground arith)
