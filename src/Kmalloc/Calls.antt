-- ===== src/Kmalloc/Calls.antt =====
-- `kmalloc` and `kfree` of kmalloc.c, as their callers see them.
use guide_os.Prelude.{
  ℕ, suc, ◌+◌, ◌-◌, ◌≤◌, ◌<◌, ◌≡◌, refl, inl, inr, true, ==_of_ne, ==_refl, ltb, leb, if◌then◌else◌,
  Bool-cases, arith, Ptr, null, List, ◌>>=◌, Returns, weaken-Returns, Ends, returned, bind-Ends,
  weaken-Ends, Returns-Ends, Ends-Returns,
}
use guide_os.Cpu.{Machine}
use guide_os.Spinlock.Laws.{Inside-acquired, Restored, acquired}
use guide_os.Kmalloc.{
  Block, Kmem, metadata_size, add_block, kmalloc_lock, kmalloc, put_block, kfree,
}
use guide_os.Kmalloc.Add.{within, add_block-cover}
use guide_os.Kmalloc.Bytes.{free_bytes, Sound}
use guide_os.Kmalloc.Allocate.{Answer, OutOfMemory, Got, get_block-Got}
use guide_os.Kmalloc.Locking.{Calm, Calm-Ready, Calm-Restored, under_lock-Ends}

-- The lock does not count for the answer.
Answer-machine :
    (n size : ℕ) (s s' : Kmem) (p : Ptr) (m m' : Machine)
    → Answer n size (record s { machine = m }) p (record s' { machine = m' })
    → Answer n size s p s'
unfolding Answer
Answer-machine n size s s' p m m' (inl same) = inl same
Answer-machine n size s s' p m m' (inr (pos, le, took, g)) = inr (
  pos,
  le,
  took,
  record {
    behind_header = g.behind_header;
    header = g.header;
    bytes = g.bytes;
    headers = g.headers;
    contents = g.contents;
  },
)

-- With its locks free, `kmalloc` returns with them free again, or panics because no free block fits
-- and no page is free. For a size of 0 or of more than 4080 it answers NULL, for one of 1 to 4056 it hands
-- out a block, and for those between it does either. With NULL the same bytes are free; a block consists
-- of bytes that were free in the free list or in the page allocator, and no other byte changes. For a block
-- the page allocator gives away one page at most.
pub kmalloc_lem :
    (spins i n size : ℕ) (s : Kmem)
    → Calm i s.machine
    → Sound n s
    → Ends
        (λ p s'. Restored kmalloc_lock i s.machine s'.machine × Sound n s' × Answer n size s p s')
        (OutOfMemory size s)
        (kmalloc (suc spins) size s)
unfolding kmalloc Answer OutOfMemory Got
kmalloc_lem spins i n size s calm sound =
    let held : Kmem = record s { machine = acquired i kmalloc_lock s.machine } in
    let in_ = Inside-acquired i kmalloc_lock s.machine (Calm-Ready i s.machine calm) in
    let ended =
      get_block-Got spins i n size held in_ (rw (==_refl i) (omega (arith, calm.bounded)))
        calm.pgalloc_free (record { valid = sound.valid; once = sound.once }) in
    weaken-Ends
      (under_lock-Ends {P = λ p s'. Sound n s' × Answer n size held p s'} spins i s _ calm
        (weaken-Ends ended λ p s₁ (snd, e, ans). (e, (snd, ans))))
      λ p s' (r, (snd, ans)).
        (r, record { valid = snd.valid; once = snd.once }, Answer-machine n size s s' p _ _ ans)

too_small : (a size : ℕ) (bs : List Block) → size < 8 → add_block a (size + 16) bs ≡ bs
unfolding add_block
too_small a size bs lt = let low : ltb (size + 16) 24 ≡ true = ground arith in rw low refl

-- `kfree` of a block of at least 8 bytes that is free nowhere returns with the lock free again, and
-- exactly its bytes and those of its header are free as well. A smaller block is lost: the same bytes
-- are free as before. What the blocks hold does not change.
pub kfree_lem :
    (spins i n size : ℕ) (s : Kmem) (p : Ptr)
    → Calm i s.machine
    → Sound n s
    → metadata_size ≤ p
    → s.size_at (p - metadata_size) ≡ size
    → ((q : Ptr) → within (p - metadata_size) (size + metadata_size) q + free_bytes s q ≤ 1)
    → Returns
        (λ r s'.
          Restored kmalloc_lock i s.machine s'.machine
          × Sound n s'
          × ((q : Ptr)
              → free_bytes s' q
                ≡ (if leb 8 size then within (p - metadata_size) (size + metadata_size) q else 0)
                  + free_bytes s q)
          × (s'.bytes ≡ s.bytes))
        (kfree (suc spins) p s)
unfolding kfree put_block
kfree_lem spins i n size s p calm sound behind_header header apart =
    rw (==_of_ne p null (omega (arith, behind_header))) (
      Ends-Returns
        (weaken-Ends
          (under_lock-Ends
            {P = λ r s'.
              (s'.pages ≡ s.pages)
              × (s'.size_list ≡ add_block block (size + 16) s.size_list)
              × (s'.bytes ≡ s.bytes)}
            {Q = λ m. ⊥} spins i s (put_block block) calm
            (rw header (returned (refl, (refl, refl, refl)))))
          λ r s' (back, (e, l, b)).
            let now : (q : Ptr)
                → free_bytes s' q
                  ≡ (if leb 8 size then within block (size + 16) q else 0) + free_bytes s q =
              λ q.
                rw (e, l)
                  (elim (Bool-cases (leb 8 size)) [
                    | inl big ↦
                        let c =
                          add_block-cover block (size + 16) s.size_list (ground arith)
                            (λ r. omega (arith, apart r)) q in
                        rw big (omega (arith, c))
                    | inr small ↦
                        let c = too_small block size s.size_list (ground arith) in
                        rw (small, c) (omega arith)
                  ]) in
            (
              back,
              record {
                valid = rw e sound.valid;
                once =
                    λ q. let w = now q in let a = apart q in let o = sound.once q in ground arith;
              },
              now,
              b,
            ))
        λ m none_. none_)
  where
    block : Ptr
    block = p - metadata_size

-- A block of 8 to 4056 bytes that `kmalloc` hands out and `kfree` then gets back leaves the bytes free
-- that were so; `kmalloc` panics only if no free block fits and no page is free.
pub kfree-kmalloc :
    (spins i n size : ℕ) (s : Kmem)
    → Calm i s.machine
    → Sound n s
    → 8 ≤ size
    → size ≤ 4056
    → Ends
        (λ r s'. Sound n s' × ((q : Ptr) → free_bytes s' q ≡ free_bytes s q))
        (OutOfMemory size s)
        ((kmalloc (suc spins) size >>= kfree (suc spins)) s)
unfolding Answer OutOfMemory
kfree-kmalloc spins i n size s calm sound big small =
    bind-Ends (kmalloc_lem spins i n size s calm sound) λ p s₁ (back, snd, ans).
      by_answer p s₁ (Calm-Restored i s.machine s₁.machine calm back) snd ans
  where
    by_answer :
        (p : Ptr) (s₁ : Kmem)
        → Calm i s₁.machine
        → Sound n s₁
        → Answer n size s p s₁
        → Ends
            (λ r s'. Sound n s' × ((q : Ptr) → free_bytes s' q ≡ free_bytes s q))
            (OutOfMemory size s)
            (kfree (suc spins) p s₁)
    by_answer p s₁ calm₁ snd (inl (null_, same, inl z, out, out')) = absurd (omega arith)
    by_answer p s₁ calm₁ snd (inl (null_, same, inr z, out, out')) = absurd (omega arith)
    by_answer p s₁ calm₁ snd (inr (pos, le, took, g)) = Returns-Ends (
        weaken-Returns
          (kfree_lem spins i n size s₁ p calm₁ snd g.behind_header g.header
            λ q. omega (arith, g.bytes q, sound.once q))
          λ r s' (back, snd', now, b).
            (snd', λ q. let a = now q in let c = g.bytes q in ground arith))
