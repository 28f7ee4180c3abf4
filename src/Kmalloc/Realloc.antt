-- ===== src/Kmalloc/Realloc.antt =====
-- `krealloc` of kmalloc.c.
use guide_os.Prelude.{
  pure, ◌>>◌, ℕ, suc, ◌+◌, ◌-◌, ◌≤◌, ◌<◌, ◌≡◌, ◌≢◌, ◌∙◌, ap, inl, inr, true, ==_of_ne, ltb, leb,
  min, ◌&&◌, if◌then◌else◌, arith, Ptr, null, Ends, returned, bind-Ends, Returns-Ends,
}
use guide_os.Strings.{memcpy}
use guide_os.Strings.Move.{memmove_lem}
use guide_os.Kmalloc.{Kmem, metadata_size, kfree, krealloc, copy_block}
use guide_os.Kmalloc.Add.{within}
use guide_os.Kmalloc.Bytes.{free_bytes, Sound, Granted}
use guide_os.Kmalloc.Allocate.{Answer, OutOfMemory}
use guide_os.Kmalloc.Locking.{Calm, Calm-Restored}
use guide_os.Kmalloc.Calls.{kmalloc_lem, kfree_lem}

-- A block of `size` bytes at `p` is in use: its header says so, and its bytes are free nowhere.
pub record InUse (size : ℕ) (p : Ptr) (s : Kmem) : Type 0 where
  pub behind_header : metadata_size ≤ p
  pub header : s.size_at (p - metadata_size) ≡ size
  pub apart : (q : Ptr) → within (p - metadata_size) (size + metadata_size) q + free_bytes s q ≤ 1

-- The two blocks changed places: the new one is in use, and holds what fits of the old one.
pub record Moved (size old : ℕ) (ptr : Ptr) (s : Kmem) (p : Ptr) (s' : Kmem) : Type 0 where
  pub contents : (k : ℕ) → k < min size old → s'.bytes (p + k) ≡ s.bytes (ptr + k)
  pub bytes :
      (q : Ptr)
      → within (p - metadata_size) (size + metadata_size) q + free_bytes s' q
        ≡ within (ptr - metadata_size) (old + metadata_size) q + free_bytes s q

-- A block that is in use is not where `kmalloc` finds another.
InUse-Granted :
    (size old : ℕ) (ptr p : Ptr) (s s₁ : Kmem)
    → InUse old ptr s
    → Granted size s p s₁
    → InUse old ptr s₁
InUse-Granted size old ptr p s s₁ u g = record {
  behind_header = u.behind_header;
  header = g.headers (ptr - metadata_size) other ∙ u.header;
  apart = λ q. omega (arith, u.apart q, g.bytes q);
}
  where
    other : ptr - metadata_size ≢ p - metadata_size
    other e =
        let a = u.apart (ptr - metadata_size) in
        let b = g.bytes (ptr - metadata_size) in ground arith

-- `krealloc` of a block of at least 8 bytes in use to a size of 1 to 4056 hands out a block that holds
-- as many of its bytes as fit, and frees the old one; no other byte changes hands. It panics only if
-- no free block fits and no page is free.
pub krealloc_lem :
    (spins i n size old : ℕ) (s : Kmem) (ptr : Ptr)
    → Calm i s.machine
    → Sound n s
    → InUse old ptr s
    → 8 ≤ old
    → 0 < size
    → size ≤ 4056
    → Ends
        (λ p s'. Calm i s'.machine × Sound n s' × Moved size old ptr s p s')
        (OutOfMemory size s)
        (krealloc (suc spins) ptr size s)
unfolding krealloc Answer OutOfMemory memcpy
krealloc_lem spins i n size old s ptr calm sound used big pos small =
    rw (==_of_ne ptr null (omega (arith, used.behind_header)), ==_of_ne size 0 (omega arith))
      (bind-Ends (kmalloc_lem spins i n size s calm sound) λ p s₁ (back, snd, ans).
        by_answer p s₁ (Calm-Restored i s.machine s₁.machine calm back) snd ans)
  where
    by_answer :
        (p : Ptr) (s₁ : Kmem)
        → Calm i s₁.machine
        → Sound n s₁
        → Answer n size s p s₁
        → Ends
            (λ p s'. Calm i s'.machine × Sound n s' × Moved size old ptr s p s')
            (OutOfMemory size s)
            ((do
              (λ s. copy_block p ptr (min size (s.size_at (ptr - metadata_size))) s)
              kfree (suc spins) ptr
              pure p)
              s₁)
    by_answer p s₁ calm₁ snd (inl (null_, same, inl z, out, out')) = absurd (omega arith)
    by_answer p s₁ calm₁ snd (inl (null_, same, inr z, out, out')) = absurd (omega arith)
    by_answer p s₁ calm₁ snd (inr (pos', le', took, g)) =
        let u : InUse old ptr s₁ = InUse-Granted size old ptr p s s₁ used g in
        rw (==_of_ne p null (omega (arith, g.behind_header)), u.header)
          (bind-Ends
            (Returns-Ends (
              kfree_lem spins i n old (record s₁ { bytes = memcpy p ptr (min size old) s₁.bytes })
                ptr calm₁ (record { valid = snd.valid; once = snd.once }) u.behind_header u.header
                u.apart))
            λ r s₂ (back, snd₂, now, held). returned (
              Calm-Restored i s₁.machine s₂.machine calm₁ back,
              snd₂,
              record {
                contents = λ k lt.
                    ap (λ b. b (p + k)) held
                    ∙ memmove_lem p ptr (min size old) s₁.bytes (p + k)
                    ∙ copied p s₁ k lt g;
                bytes = λ q. let a = now q in let c = g.bytes q in ground arith;
              },
            ))
      where
        copied :
            (p : Ptr) (s₁ : Kmem) (k : ℕ)
            → k < min size old
            → Granted size s p s₁
            → (if leb p (p + k) && ltb (p + k) (p + min size old)
                then s₁.bytes (ptr + (p + k - p))
                else s₁.bytes (p + k))
              ≡ s.bytes (ptr + k)
        copied p s₁ k lt g =
            let here : (leb p (p + k) && ltb (p + k) (p + min size old)) ≡ true = ground arith in
            let off : p + k - p ≡ k = omega arith in
            rw (here, off) (ap (λ b. b (ptr + k)) g.contents)
