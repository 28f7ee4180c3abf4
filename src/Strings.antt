-- ===== src/Strings.antt =====
-- kernel/src/util/string.c on a byte-addressed memory. Pointers are addresses that do not wrap
-- around, `size_t` is 64 bits wide, and an `int` is its two's complement in 32 bits. A loop without a
-- bound of its own runs on fuel.
pub mod Move
pub mod Compare
pub mod Copy
pub mod Token
mod Tests
use guide_os.Prelude.{
  ℕ, zero, suc, ◌+◌, ◌-◌, ◌*◌, ◌/◌, ◌%◌, ◌^◌, Bool, true, false, not, ◌&&◌, ◌||◌, Option, none,
  some, ◌==◌, if◌then◌else◌, ltb, Ptr, null,
}

abbrev pub Mem : Type 0
Mem = Ptr → ℕ

unfoldable pub poke : Mem → Ptr → ℕ → Mem
poke m p v a = if a == p then v else m a

-- `n` times `*d++ = v`: the bytes that `stosb` writes, and `stosl` with four equal bytes
unfoldable pub fill : ℕ → Ptr → ℕ → Mem → Mem
fill zero d v m = m
fill (suc n) d v m = fill n (d + 1) v (poke m d v)

unfoldable pub memset : Ptr → ℕ → ℕ → Mem → Mem
memset dst c n = fill n dst (c % 256)

-- `a - b` for an `int`
abbrev pub int_sub : ℕ → ℕ → ℕ
int_sub a b = (a + 2 ^ 32 - b) % 2 ^ 32

unfoldable pub memcmp : Ptr → Ptr → ℕ → Mem → ℕ
memcmp v1 v2 zero m = 0
memcmp v1 v2 (suc n) m =
    if m v1 == m v2 then memcmp (v1 + 1) (v2 + 1) n m else int_sub (m v1) (m v2)

-- The two loops of `memmove`: `*d++ = *s++`, and `*--d = *--s` from the ends down
unfoldable pub copy_up : ℕ → Ptr → Ptr → Mem → Mem
copy_up zero d s m = m
copy_up (suc n) d s m = copy_up n (d + 1) (s + 1) (poke m d (m s))

unfoldable pub copy_down : ℕ → Ptr → Ptr → Mem → Mem
copy_down zero d s m = m
copy_down (suc n) d s m = copy_down n (d - 1) (s - 1) (poke m (d - 1) (m (s - 1)))

unfoldable pub memmove : Ptr → Ptr → ℕ → Mem → Mem
memmove dst src n =
    if ltb src dst && ltb dst (src + n) then copy_down n (dst + n) (src + n) else copy_up n dst src

unfoldable pub memcpy : Ptr → Ptr → ℕ → Mem → Mem
memcpy = memmove

-- A `char` that is converted to `size_t` keeps its sign.
abbrev pub sign_extend : ℕ → ℕ
sign_extend c = if ltb c 128 then c else c + (2 ^ 64 - 256)

unfoldable pub strncmp : Ptr → Ptr → ℕ → Mem → ℕ
strncmp p q zero m = 0
strncmp p q (suc n) m =
    if not (m p == 0) && (m p == m q)
    then strncmp (p + 1) (q + 1) n m
    else (sign_extend (m p) + 2 ^ 64 - sign_extend (m q)) % 2 ^ 32

-- What the first loop of `strncpy` leaves: the memory, `s` and `n`. Its last test of `n-- > 0`
-- decrements `n` also where the test fails.
pub record CopyState : Type 0 where
  pub mem : Mem
  pub s : Ptr
  pub n : ℕ

unfoldable pub strncpy_loop : ℕ → Ptr → Ptr → Mem → CopyState
strncpy_loop zero s t m = record { mem = m; s = s; n = 2 ^ 64 - 1 }
strncpy_loop (suc n) s t m =
    if m t == 0
    then record { mem = poke m s 0; s = s + 1; n = n }
    else strncpy_loop n (s + 1) (t + 1) (poke m s (m t))

unfoldable pub strncpy : Ptr → Ptr → ℕ → Mem → Mem
strncpy s t n m = let st = strncpy_loop n s t m in fill st.n st.s 0 st.mem

unfoldable pub strnlen : Ptr → ℕ → Mem → ℕ
strnlen s zero m = 0
strnlen s (suc size) m = if m s == 0 then 0 else suc (strnlen (s + 1) size m)

-- The loop of `safestrcpy`, with `n` copies left, and the NUL behind what it wrote
unfoldable pub safestrcpy_loop : ℕ → Ptr → Ptr → Mem → Mem
safestrcpy_loop zero s t m = poke m s 0
safestrcpy_loop (suc n) s t m =
    if m t == 0
    then poke (poke m s 0) (s + 1) 0
    else safestrcpy_loop n (s + 1) (t + 1) (poke m s (m t))

unfoldable pub safestrcpy : Ptr → Ptr → ℕ → Mem → Mem
safestrcpy s t zero m = m
safestrcpy s t (suc n) m = safestrcpy_loop n s t m

unfoldable pub strlen : ℕ → Ptr → Mem → Option ℕ
strlen zero s m = none
strlen (suc fuel) s m = if m s == 0 then some 0 else count_on (strlen fuel (s + 1) m)
  where
    count_on : Option ℕ → Option ℕ
    count_on none = none
    count_on (some k) = some (suc k)

unfoldable pub strcmp : ℕ → Ptr → Ptr → Mem → Option ℕ
strcmp zero p q m = none
strcmp (suc fuel) p q m =
    if not (m p == 0) && (m p == m q)
    then strcmp fuel (p + 1) (q + 1) m
    else some (int_sub (m p) (m q))

-- `strfind` stops at the end of the string, where `strchr` answers NULL.
unfoldable pub strfind : ℕ → Ptr → ℕ → Mem → Option Ptr
strfind zero s c m = none
strfind (suc fuel) s c m =
    if m s == 0 then some s else if m s == c then some s else strfind fuel (s + 1) c m

unfoldable pub strchr : ℕ → Ptr → ℕ → Mem → Option Ptr
strchr zero s c m = none
strchr (suc fuel) s c m =
    if m s == 0 then some null else if m s == c then some s else strchr fuel (s + 1) c m
