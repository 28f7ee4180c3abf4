-- ===== src/Kmalloc/Add.antt =====
-- `add_block` of kmalloc.c.
use guide_os.Prelude.{
  ℕ, ◌+◌, ◌-◌, ◌≤◌, ◌<◌, ◌≡◌, ◌∙◌, refl, inl, inr, false, ◌&&◌, Bool-cases, List, [], ◌∷◌, arith,
  ◌==◌, eq_of_==, if◌then◌else◌, ltb, leb, Ptr,
}
use guide_os.Kmalloc.{Block, metadata_size, merge_loop, insert_behind, insert_block, add_block}

-- 1 if the byte `q` is among the `n` bytes at `a`, and 0 otherwise
abbrev pub within : Ptr → ℕ → Ptr → ℕ
within a n q = if leb a q && ltb q (a + n) then 1 else 0

-- How many blocks of a list contain the byte `q`, headers included.
unfoldable pub cover : List Block → Ptr → ℕ
cover [] q = 0
cover (b ∷ bs) q = within b.addr (b.size + metadata_size) q + cover bs q

insert_behind-cover :
    (m : Block) (bs : List Block) (q : Ptr)
    → cover (insert_behind m bs) q ≡ within m.addr (m.size + metadata_size) q + cover bs q
unfolding cover insert_behind
insert_behind-cover m [] q = refl
insert_behind-cover m (b ∷ bs) q = elim (Bool-cases (leb m.size b.size)) [
  | inl e ↦ rw e refl
  | inr e ↦ rw e (omega (arith, insert_behind-cover m bs q))
]

pub insert_block-cover :
    (m : Block) (bs : List Block) (q : Ptr)
    → cover (insert_block m bs) q ≡ within m.addr (m.size + metadata_size) q + cover bs q
unfolding cover insert_block
insert_block-cover m [] q = refl
insert_block-cover m (b ∷ bs) q = elim (Bool-cases (ltb b.size m.size)) [
  | inl e ↦ rw e (omega (arith, insert_behind-cover m bs q))
  | inr e ↦ rw e refl
]

-- A block in front of `start` that is not merged yet shows that nothing has been merged there before,
-- and likewise behind `end`.
front_apart :
    (a n b k c start : ℕ)
    → a ≤ start
    → start < a + n
    → b + k + 16 ≡ start
    → within a n (start - 1) + (within b (k + 16) (start - 1) + c) ≤ 1
    → a ≡ start
front_apart a n b k c start le lt at once = ground arith

back_apart :
    (a n b k c end : ℕ)
    → a < end
    → end ≤ a + n
    → end ≡ b
    → within a n end + (within b (k + 16) end + c) ≤ 1
    → a + n ≡ end
back_apart a n b k c end lt le at once = ground arith

-- Merging keeps every byte covered as often as before, if no two of the blocks overlap.
merge_loop-cover :
    (start end : Ptr) (m : Block) (bs : List Block)
    → m.addr ≤ start
    → start < end
    → end ≤ m.addr + (m.size + metadata_size)
    → ((q : Ptr) → within m.addr (m.size + metadata_size) q + cover bs q ≤ 1)
    → (q : Ptr)
    → within
          (merge_loop start end m bs).1.addr
          ((merge_loop start end m bs).1.size + metadata_size)
          q
        + cover (merge_loop start end m bs).0 q
      ≡ within m.addr (m.size + metadata_size) q + cover bs q
unfolding cover merge_loop
merge_loop-cover start end m [] lo ne hi apart q = refl
merge_loop-cover start end m (b ∷ bs) lo ne hi apart q =
    elim (Bool-cases (b.addr + b.size + metadata_size == start)) [
      | inl e ↦
          let end_ : b.addr + b.size + 16 ≡ start =
            eq_of_== (b.addr + b.size + metadata_size) start e in
          let here : m.addr ≡ start =
            front_apart m.addr (m.size + metadata_size) b.addr b.size (cover bs (start - 1)) start
              lo (omega (arith, hi)) end_ (apart (start - 1)) in
          let join : (r : Ptr)
              → within b.addr (b.size + (m.size + metadata_size) + metadata_size) r
                ≡ within m.addr (m.size + metadata_size) r
                  + within b.addr (b.size + metadata_size) r =
            λ r. ground arith in
          rw e (
            merge_loop-cover start end
              (record { addr = b.addr; size = b.size + (m.size + metadata_size) }) bs (omega arith)
              ne (omega (arith, hi)) (λ r. omega (arith, join r, apart r)) q
            ∙ omega (arith, join q))
      | inr e ↦ elim (Bool-cases (end == b.addr)) [
        | inl i ↦
            let at : end ≡ b.addr = eq_of_== end b.addr i in
            let here : m.addr + (m.size + metadata_size) ≡ end =
              back_apart m.addr (m.size + metadata_size) b.addr b.size (cover bs end) end
                (omega arith) hi at (apart end) in
            let join : (r : Ptr)
                → within m.addr (m.size + (b.size + metadata_size) + metadata_size) r
                  ≡ within m.addr (m.size + metadata_size) r
                    + within b.addr (b.size + metadata_size) r =
              λ r. ground arith in
            rw (e, i)
              (merge_loop-cover start end
                  (record { addr = m.addr; size = m.size + (b.size + metadata_size) }) bs lo ne
                  (omega (arith, hi)) (λ r. omega (arith, join r, apart r)) q
                ∙ omega (arith, join q))
        | inr i ↦
            rw (e, i)
              (omega
                (arith, merge_loop-cover start end m bs lo ne hi (λ r. omega (arith, apart r)) q))
      ]
    ]

-- `add_block` of a block that is free nowhere makes its bytes free, and no other byte.
pub add_block-cover :
    (block raw_size : ℕ) (bs : List Block)
    → 24 ≤ raw_size
    → ((q : Ptr) → within block raw_size q + cover bs q ≤ 1)
    → (q : Ptr) → cover (add_block block raw_size bs) q ≡ within block raw_size q + cover bs q
unfolding add_block
add_block-cover block raw_size bs big apart q =
    let small : ltb raw_size 24 ≡ false = ground arith in
    let raw : raw_size - 16 + 16 ≡ raw_size = omega arith in
    rw small (
      insert_block-cover _ _ q
      ∙ merge_loop-cover block (block + raw_size) _ bs (omega arith) (omega arith) (omega arith)
          (λ r. rw raw (apart r)) q
      ∙ rw raw refl)
