-- ===== src/Kmalloc/Fit.antt =====
-- `find_fit_block` of kmalloc.c.
use guide_os.Prelude.{
  ℕ, ◌+◌, ◌-◌, ◌≤◌, ◌≡◌, ◌∙◌, ◌≢◌, refl, sym, ◌⊎◌, inl, inr, Bool, true, false, not, ◌&&◌,
  Bool-cases, Option, none, some, List, [], ◌∷◌, arith, ◌==◌, ==_refl, ==_of_ne, eq_of_==, Ptr,
  null, Returns, returns,
}
use guide_os.Cpu.{update}
use guide_os.Kmalloc.{
  Block, Kmem, metadata_size, fits, find_fit, find_fit_block, behind, remove_block,
}
use guide_os.Kmalloc.Add.{within, cover, add_block-cover}

unfoldable pub none_fits : ℕ → List Block → Bool
none_fits n [] = true
none_fits n (b ∷ bs) = not (fits n b) && none_fits n bs

-- The result of the search: nothing if nothing fits, and otherwise a block that fits, and the others.
Found : ℕ → List Block → Option (Block × List Block) → Type 0
Found n bs none = none_fits n bs ≡ true
Found n bs (some (b, rest)) =
    (fits n b ≡ true)
    × ((q : Ptr) → within b.addr (b.size + metadata_size) q + cover rest q ≡ cover bs q)

find_fit-Found : (n : ℕ) (bs : List Block) → Found n bs (find_fit n bs)
unfolding find_fit Found none_fits cover
find_fit-Found n [] = refl
find_fit-Found n (c ∷ cs) = elim (Bool-cases (fits n c)) [
  | inl e ↦ rw e (e, λ q. refl)
  | inr e ↦ rw e (by_rest (find_fit n cs) (find_fit-Found n cs) e)
]
  where
    by_rest :
        (r : Option (Block × List Block))
        → Found n cs r
        → fits n c ≡ false
        → Found n (c ∷ cs) (behind c r)
    by_rest none f e = rw (e, f) refl
    by_rest (some (b, rest)) (fit, same) e = (fit, λ q. omega (arith, same q))

-- What `remove_block` hands out is a block of the wanted size, and the rest of the old one stays free.
remove_block-cover :
    (n : ℕ) (b : Block) (rest : List Block)
    → fits n b ≡ true
    → ((q : Ptr) → within b.addr (b.size + metadata_size) q + cover rest q ≤ 1)
    → (q : Ptr)
    → within (remove_block n b rest).0 (n + metadata_size) q + cover (remove_block n b rest).1 q
      ≡ within b.addr (b.size + metadata_size) q + cover rest q
unfolding remove_block
remove_block-cover n b rest fit apart q = elim (Bool-cases (b.size == n)) [
  | inl e ↦ rw (e, eq_of_== b.size n e) refl
  | inr e ↦
      let big : n + 24 ≤ b.size = ground arith in
      let left : b.size - (n + 16) + 16 ≡ b.size - n = omega arith in
      let parts : (r : Ptr)
          → within (b.addr + 16 + (b.size - (n + 16))) (n + 16) r + within b.addr (b.size - n) r
            ≡ within b.addr (b.size + 16) r =
        λ r. ground arith in
      rw e (
        rw left (
          omega (
            arith,
            parts q,
            add_block-cover b.addr (b.size - n) rest (omega arith)
                (λ r. omega (arith, parts r, apart r)) q,
          )))
]

-- No two free blocks overlap.
unfoldable pub Apart : Kmem → Type 0
Apart s = (q : Ptr) → cover s.size_list q ≤ 1

-- A block of `n` bytes at `p` has been handed out: the bytes of the block and of its header were free
-- and are so no more, no other byte changes, and the header says `n`.
pub record Handed (n : ℕ) (s : Kmem) (p : Ptr) (s' : Kmem) : Type 0 where
  pub behind_header : metadata_size ≤ p
  pub header : s'.size_at (p - metadata_size) ≡ n
  pub bytes :
      (q : Ptr)
      → within (p - metadata_size) (n + metadata_size) q + cover s'.size_list q
        ≡ cover s.size_list q
  pub headers : (a : Ptr) → a ≢ p - metadata_size → s'.size_at a ≡ s.size_at a
  pub others : (s'.machine ≡ s.machine) × (s'.pages ≡ s.pages) × (s'.bytes ≡ s.bytes)

update_other : {i a : ℕ} (f : ℕ → ℕ) (v : ℕ) → a ≢ i → update f i v a ≡ f a
update_other {i} {a} f v ne = rw (==_of_ne a i ne) refl

-- `find_fit_block` hands out a block if one fits, and otherwise answers NULL and changes nothing.
pub find_fit_block-Handed :
    (n : ℕ) (s : Kmem)
    → Apart s
    → Returns
        (λ p s'. ((p ≡ null) × (s' ≡ s) × (none_fits n s.size_list ≡ true)) ⊎ Handed n s p s')
        (find_fit_block n s)
unfolding find_fit_block Found Apart
find_fit_block-Handed n s apart =
    by_search (find_fit n s.size_list) refl (find_fit-Found n s.size_list)
  where
    by_search :
        (r : Option (Block × List Block))
        → find_fit n s.size_list ≡ r
        → Found n s.size_list r
        → Returns
            (λ p s'. ((p ≡ null) × (s' ≡ s) × (none_fits n s.size_list ≡ true)) ⊎ Handed n s p s')
            (find_fit_block n s)
    by_search none e f = rw (find_fit_block, e) (returns (inl (refl, refl, f)))
    by_search (some (b, rest)) e (fit, same) =
        let header : (remove_block n b rest).0 + 16 - 16 ≡ (remove_block n b rest).0 =
          omega arith in
        let parts = remove_block-cover n b rest fit (λ q. omega (arith, same q, apart q)) in
        rw (find_fit_block, e)
          (returns (
            inr (record {
              behind_header = omega arith;
              header = rw (header, ==_refl (remove_block n b rest).0) refl;
              bytes = λ q. rw header (omega (arith, parts q, same q));
              headers = λ a other. update_other s.size_at n (λ e. other (e ∙ sym header));
              others = (refl, refl, refl);
            })))
