-- ===== src/Strings/Move.antt =====
-- `memmove` of string.c.
use guide_os.Prelude.{
  ℕ, zero, suc, ◌+◌, ◌-◌, ◌≤◌, ◌<◌, ◌≡◌, ◌∙◌, ◌⊎◌, inl, inr, false, ◌&&◌, Bool-cases, arith,
  if◌then◌else◌, ltb, leb, Ptr,
}
use guide_os.Strings.{Mem, poke, copy_up, copy_down, memmove}

-- A memory after `n` bytes at `dst` have got the values that `m` has from `src` on
abbrev pub moved : Ptr → Ptr → ℕ → Mem → Mem
moved dst src n m a = if leb dst a && ltb a (dst + n) then m (src + (a - dst)) else m a

copy_up_lem :
    (n d s : ℕ) (m : Mem) (a : Ptr) → (d ≤ s) ⊎ (s + n ≤ d) → copy_up n d s m a ≡ moved d s n m a
unfolding copy_up poke
copy_up_lem zero d s m a h = ground arith
copy_up_lem (suc n) d s m a h = copy_up_lem n (d + 1) (s + 1) (poke m d (m s)) a later ∙ step
  where
    later : (d + 1 ≤ s + 1) ⊎ (s + 1 + n ≤ d + 1)
    later = elim h [ inl x ↦ inl (omega arith) | inr x ↦ inr (omega arith) ]

    step : moved (d + 1) (s + 1) n (poke m d (m s)) a ≡ moved d s (suc n) m a
    step = elim h [ inl x ↦ grind arith | inr x ↦ grind arith ]

copy_down_lem :
    (n d s : ℕ) (m : Mem) (a : Ptr) → s < d → copy_down n (d + n) (s + n) m a ≡ moved d s n m a
unfolding copy_down poke
copy_down_lem zero d s m a h = ground arith
copy_down_lem (suc n) d s m a h =
    let d' : d + suc n - 1 ≡ d + n = omega arith in
    let s' : s + suc n - 1 ≡ s + n = omega arith in
    rw (d', s') (copy_down_lem n d s (poke m (d + n) (m (s + n))) a h ∙ step)
  where
    step : moved d s n (poke m (d + n) (m (s + n))) a ≡ moved d s (suc n) m a
    step = grind arith

-- `memmove` copies the `n` bytes that were at `src`, whether or not the two regions overlap, and
-- changes no other byte.
pub memmove_lem :
    (dst src n : ℕ) (m : Mem) (a : Ptr)
    → memmove dst src n m a ≡ (if leb dst a && ltb a (dst + n) then m (src + (a - dst)) else m a)
unfolding memmove
memmove_lem dst src n m a = elim (Bool-cases (ltb src dst && ltb dst (src + n))) [
  | inl e ↦ rw e (copy_down_lem n dst src m a (ground arith))
  | inr e ↦ rw e (copy_up_lem n dst src m a (apart e))
]
  where
    apart : (ltb src dst && ltb dst (src + n)) ≡ false → (dst ≤ src) ⊎ (src + n ≤ dst)
    apart e = elim (Bool-cases (ltb src dst)) [
      | inl i ↦ inr (ground arith)
      | inr i ↦ inl (ground arith)
    ]
