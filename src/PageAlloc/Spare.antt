-- ===== src/PageAlloc/Spare.antt =====
-- That pages are left for the calls of `pgalloc_allocate` to come.
use guide_os.Prelude.{
  ℕ, ◌<◌, ◌≡◌, ◌≢◌, inl, inr, ◌∙◌, sym, false, ne_of_==, Bool-cases, none, arith, ◌==◌, eq_of_==,
  ==_of_ne, shr,
}
use guide_os.PageAlloc.{Pages}
use guide_os.PageAlloc.Invariant.{free_count, free_count-nil}
use guide_os.PageAlloc.Bins.{Taken}
use guide_os.PageAlloc.Allocate.{Allocated}

-- One, two and three pages are free.
abbrev pub OneFree : Pages → Type 0
OneFree s = (q : ℕ) × (0 < free_count s q)

abbrev pub TwoFree : Pages → Type 0
TwoFree s = (a : ℕ) × (b : ℕ) × (a ≢ b) × (0 < free_count s a) × (0 < free_count s b)

abbrev pub ThreeFree : Pages → Type 0
ThreeFree s =
    (a : ℕ) × (b : ℕ) × (c : ℕ) × (a ≢ b)
    × (b ≢ c)
    × (a ≢ c)
    × (0 < free_count s a)
    × (0 < free_count s b)
    × (0 < free_count s c)

-- A page that is not the one taken stays free.
still_free :
    (n p q : ℕ) (s s' : Pages) → Taken n s p 0 s' → q ≢ p → 0 < free_count s q → 0 < free_count s' q
unfolding shr
still_free n p q s s' taken ne free =
    let c = taken.count q in
    let other : (p == q) ≡ false = ==_of_ne p q (λ e. ne (sym e)) in ground arith

pub TwoFree-Taken : (n p : ℕ) (s s' : Pages) → Taken n s p 0 s' → TwoFree s → OneFree s'
TwoFree-Taken n p s s' taken (a, b, ne, fa, fb) = elim (Bool-cases (a == p)) [
  | inr other ↦ (a, still_free n p a s s' taken (ne_of_== a p other) fa)
  | inl e ↦ (b, still_free n p b s s' taken (λ q. ne (eq_of_== a p e ∙ sym q)) fb)
]

pub ThreeFree-Taken : (n p : ℕ) (s s' : Pages) → Taken n s p 0 s' → ThreeFree s → TwoFree s'
ThreeFree-Taken n p s s' taken (a, b, c, ab, bc, ac, fa, fb, fc) = elim (Bool-cases (a == p)) [
  | inl e ↦
      let at = eq_of_== a p e in
      (
        b,
        c,
        bc,
        still_free n p b s s' taken (λ q. ab (at ∙ sym q)) fb,
        still_free n p c s s' taken (λ q. ac (at ∙ sym q)) fc,
      )
  | inr other ↦
      let stays = still_free n p a s s' taken (ne_of_== a p other) fa in
      elim (Bool-cases (b == p)) [
        | inl e ↦
            let at = eq_of_== b p e in
            (a, c, ac, stays, still_free n p c s s' taken (λ q. bc (at ∙ sym q)) fc)
        | inr other' ↦ (a, b, ab, stays, still_free n p b s s' taken (ne_of_== b p other') fb)
      ]
]

-- With a page free, one is got.
pub OneFree-some : (n : ℕ) (s s' : Pages) → OneFree s → Allocated n s 0 none s' → ⊥
unfolding Allocated
OneFree-some n s s' (q, free) (same, empty) =
    let z = free_count-nil s (λ o lt. empty o (omega arith) lt) q in absurd (omega (arith, z, free))

pub TwoFree-OneFree : (s : Pages) → TwoFree s → OneFree s
TwoFree-OneFree s (a, b, ne, fa, fb) = (a, fa)

pub ThreeFree-OneFree : (s : Pages) → ThreeFree s → OneFree s
ThreeFree-OneFree s (a, b, c, ab, bc, ac, fa, fb, fc) = (a, fa)

-- One page is free, and three others.
abbrev pub FourFree : Pages → Type 0
FourFree s =
    (d : ℕ) × (0 < free_count s d)
    × (a : ℕ) × (b : ℕ) × (c : ℕ) × (a ≢ d)
    × (b ≢ d)
    × (c ≢ d)
    × (a ≢ b)
    × (b ≢ c)
    × (a ≢ c)
    × (0 < free_count s a)
    × (0 < free_count s b)
    × (0 < free_count s c)

pub FourFree-ThreeFree : (s : Pages) → FourFree s → ThreeFree s
FourFree-ThreeFree s (d, fd, a, b, c, ad, bd, cd, ab, bc, ac, fa, fb, fc) =
    (a, b, c, ab, bc, ac, fa, fb, fc)

pub FourFree-Taken : (n p : ℕ) (s s' : Pages) → Taken n s p 0 s' → FourFree s → ThreeFree s'
FourFree-Taken n p s s' taken (d, fd, a, b, c, ad, bd, cd, ab, bc, ac, fa, fb, fc) =
    elim (Bool-cases (d == p)) [
      | inl e ↦
          let at = eq_of_== d p e in
          (
            a,
            b,
            c,
            ab,
            bc,
            ac,
            stays a (λ q. ad (q ∙ sym at)) fa,
            stays b (λ q. bd (q ∙ sym at)) fb,
            stays c (λ q. cd (q ∙ sym at)) fc,
          )
      | inr dn ↦
          let sd = stays d (ne_of_== d p dn) fd in
          let da : d ≢ a = λ q. ad (sym q) in
          let db : d ≢ b = λ q. bd (sym q) in
          let dc : d ≢ c = λ q. cd (sym q) in
          elim (Bool-cases (a == p)) [
            | inl e ↦
                let at = eq_of_== a p e in
                (
                  d,
                  b,
                  c,
                  db,
                  bc,
                  dc,
                  sd,
                  stays b (λ q. ab (at ∙ sym q)) fb,
                  stays c (λ q. ac (at ∙ sym q)) fc,
                )
            | inr an ↦
                let sa = stays a (ne_of_== a p an) fa in
                elim (Bool-cases (b == p)) [
                  | inl e ↦
                      let at = eq_of_== b p e in
                      (d, a, c, da, ac, dc, sd, sa, stays c (λ q. bc (at ∙ sym q)) fc)
                  | inr bn ↦ (d, a, b, da, ab, db, sd, sa, stays b (ne_of_== b p bn) fb)
                ]
          ]
    ]
  where
    stays : (q : ℕ) → q ≢ p → 0 < free_count s q → 0 < free_count s' q
    stays q = still_free n p q s s' taken
