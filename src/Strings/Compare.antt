-- ===== src/Strings/Compare.antt =====
-- `memset`, `memcmp`, `strnlen` and `strcmp` of string.c.
use guide_os.Prelude.{
  ℕ, zero, suc, ◌+◌, ◌-◌, ◌≤◌, ◌<◌, ◌≡◌, refl, ◌≢◌, ◌↔◌, ◌∙◌, inl, inr, ◌&&◌, Bool-cases, arith,
  ◌==◌, eq_of_==, ==_of_ne, false, some, if◌then◌else◌, ltb, leb, Ptr,
}
use guide_os.Strings.{Mem, poke, fill, memcmp, strnlen, int_sub, strcmp}

pub fill_lem :
    (n d v : ℕ) (m : Mem) (a : Ptr) → fill n d v m a ≡ (if leb d a && ltb a (d + n) then v else m a)
unfolding fill poke
fill_lem zero d v m a = ground arith
fill_lem (suc n) d v m a = fill_lem n (d + 1) v (poke m d v) a ∙ ground arith

-- `memcmp` answers 0 exactly if the two regions hold the same bytes.
pub memcmp_lem :
    (n v1 v2 : ℕ) (m : Mem)
    → ((a : Ptr) → m a < 256)
    → (memcmp v1 v2 n m ≡ 0) ↔ ((i : ℕ) → i < n → m (v1 + i) ≡ m (v2 + i))
unfolding memcmp
memcmp_lem zero v1 v2 m byte = (λ e i lt. absurd (omega arith), λ same. refl)
memcmp_lem (suc n) v1 v2 m byte = elim (Bool-cases (m v1 == m v2)) [
  | inl e ↦
      let rest = memcmp_lem n (v1 + 1) (v2 + 1) m byte in
      rw e (
        λ z i lt. elim (Bool-cases (i == 0)) [
          | inl i0 ↦ let i0' = eq_of_== i 0 i0 in let e' = eq_of_== (m v1) (m v2) e in grind arith
          | inr i1 ↦ let r = rest.0 z (i - 1) (ground arith) in grind arith
        ],
        λ same. rest.1 λ i lt. let r = same (suc i) (omega arith) in grind arith,
      )
  | inr e ↦
      let b1 = byte v1 in
      let b2 = byte v2 in
      rw e (
        λ z i lt. absurd (ground arith),
        λ same. absurd (let r = same 0 (omega arith) in grind arith),
      )
]

-- `strnlen` stops at the first NUL, or after `size` bytes.
pub strnlen_lem :
    (size s : ℕ) (m : Mem)
    → (strnlen s size m ≤ size)
      × ((i : ℕ) → i < strnlen s size m → m (s + i) ≢ 0)
      × (strnlen s size m < size → m (s + strnlen s size m) ≡ 0)
unfolding strnlen
strnlen_lem zero s m = (omega arith, λ i lt. absurd (omega arith), λ lt. absurd (omega arith))
strnlen_lem (suc size) s m = elim (Bool-cases (m s == 0)) [
  | inl e ↦
      let e' = eq_of_== (m s) 0 e in
      rw e (omega arith, λ i lt. absurd (omega arith), λ lt. grind arith)
  | inr e ↦
      let (short, before, at) = strnlen_lem size (s + 1) m in
      rw e (
        omega arith,
        λ i lt z. elim (Bool-cases (i == 0)) [
          | inl i0 ↦ let i0' = eq_of_== i 0 i0 in absurd (grind arith)
          | inr i1 ↦ before (i - 1) (ground arith) (grind arith)
        ],
        λ lt. let r = at (omega arith) in grind arith,
      )
]

-- `strcmp` of a string of `k` characters, with more fuel than those, ends, and answers 0 exactly if the
-- other string is the same, its NUL included.
pub strcmp_lem :
    (fuel k p q : ℕ) (m : Mem)
    → ((a : Ptr) → m a < 256)
    → ((i : ℕ) → i < k → m (p + i) ≢ 0)
    → m (p + k) ≡ 0
    → k < fuel
    → (c : ℕ) × (strcmp fuel p q m ≡ some c) × ((c ≡ 0) ↔ ((i : ℕ) → i ≤ k → m (p + i) ≡ m (q + i)))
unfolding strcmp
strcmp_lem zero k p q m byte text nul enough = absurd (omega arith)
strcmp_lem (suc fuel) zero p q m byte text nul enough =
    let here : m p ≡ 0 = grind (arith, nul) in
    let b = byte q in
    (
      int_sub (m p) (m q),
      rw here refl,
      (
        λ z i le.
            let i0 : i ≡ 0 = omega arith in let e : m q ≡ 0 = omega (arith, here, z) in grind arith,
        λ same.
            let e : m q ≡ 0 = (let r = same 0 (omega arith) in grind arith) in
            omega (arith, here, e),
      ),
    )
strcmp_lem (suc fuel) (suc k) p q m byte text nul enough =
    let char : (m p == 0) ≡ false = ==_of_ne (m p) 0 (λ z. text 0 (omega arith) (grind arith)) in
    elim (Bool-cases (m p == m q)) [
      | inl e ↦
          let (c, run, zero_iff) =
            strcmp_lem fuel k (p + 1) (q + 1) m byte
              (λ i lt z. text (suc i) (omega arith) (grind arith)) (grind (arith, nul))
              (omega arith) in
          (
            c,
            rw (char, e) run,
            (
              λ z i le. elim (Bool-cases (i == 0)) [
                | inl i0 ↦
                    let i0' = eq_of_== i 0 i0 in let e' = eq_of_== (m p) (m q) e in grind arith
                | inr i1 ↦ let r = zero_iff.0 z (i - 1) (ground arith) in grind arith
              ],
              λ same. zero_iff.1 λ i le. let r = same (suc i) (omega arith) in grind arith,
            ),
          )
      | inr e ↦
          let b1 = byte p in
          let b2 = byte q in
          (
            int_sub (m p) (m q),
            rw (char, e) refl,
            (
              λ z i le. absurd (ground arith),
              λ same. absurd (let r = same 0 (omega arith) in grind arith),
            ),
          )
    ]
