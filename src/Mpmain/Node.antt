-- ===== src/Mpmain/Node.antt =====
-- The block for the node of the first process.
use guide_os.Prelude.{
  ℕ, suc, ◌-◌, ◌/◌, ◌≡◌, ◌≢◌, refl, sym, subst, inl, inr, ◌∷◌, arith, ==_of_ne, bind-Returns,
  Ends-Returns, map_state-Returns, Returns, returns, Ptr, null,
}
use guide_os.Memlayout.{kernbase}
use guide_os.Cpu.{Machine}
use guide_os.Spinlock.Settled.{Settled, Restored-Settled}
use guide_os.PageAlloc.{Pages}
use guide_os.PageAlloc.Bins.{Taken}
use guide_os.PageAlloc.Spare.{OneFree, TwoFree, TwoFree-OneFree, TwoFree-Taken}
use guide_os.Kmalloc.{Kmem, kmalloc_lock}
use guide_os.Kmalloc.Bytes.{Sound}
use guide_os.Kmalloc.Allocate.{Answer, TookPage, OutOfMemory}
use guide_os.Kmalloc.Locking.{Calm}
use guide_os.Kmalloc.Calls.{kmalloc_lem}
use guide_os.Mpmain.{Boot, kmem, with_kmem, stock, take_node}

-- A page that is taken from the page allocator is free nowhere else.
pub Sound-Taken :
    (n p : ℕ) (s : Kmem) (ps : Pages) (m : Machine)
    → Sound n s
    → Taken n s.pages p 0 ps
    → Sound n (record s { machine = m; pages = ps })
Sound-Taken n p s ps m sound taken = record {
  valid = taken.valid;
  once = λ q. let o = sound.once q in let c = taken.count ((q - kernbase) / 4096) in ground arith;
}

-- The heap of nodes has a block, which `kmalloc` handed out; a page may have gone for it.
pub record Stocked (j n : ℕ) (b b' : Boot) : Type 0 where
  pub block : Ptr
  pub some_block : block ≢ null
  pub settled : Settled j b.kernel.machine b'.kernel.machine
  pub sound : Sound n (kmem b')
  pub took : TookPage n b.pages b'.pages
  pub rest : b' ≡ record (with_kmem b (kmem b')) {
    kernel = record (b.kernel) {
      machine = b'.kernel.machine;
      heap = record (b.kernel.heap) { pool = block ∷ b.kernel.heap.pool };
    };
  }

pub TookPage-OneFree : (n : ℕ) (s s' : Pages) → TookPage n s s' → TwoFree s → OneFree s'
TookPage-OneFree n s s' (inl same) two = subst OneFree (sym same) (TwoFree-OneFree s two)
TookPage-OneFree n s s' (inr (p, taken)) two = TwoFree-Taken n p s s' taken two

pub take_node-Stocked :
    (spins j n : ℕ) (b : Boot)
    → Calm j b.kernel.machine
    → Sound n (kmem b)
    → OneFree b.pages
    → Returns (λ u b'. Stocked j n b b') (take_node (suc spins) b)
unfolding take_node OutOfMemory Answer
take_node-Stocked spins j n b calm sound (q, spare) =
    bind-Returns
      (map_state-Returns (with_kmem b) (
        Ends-Returns (kmalloc_lem spins j n 24 (kmem b) calm sound)
          λ m (said, fits, none_free). (let z = none_free q in omega (arith, z, spare))))
      λ p b₁ (k, (back, snd, ans), e).
        rw e (by_answer p k (Restored-Settled kmalloc_lock j _ _ back) snd ans)
  where
    by_answer :
        (p : Ptr) (k : Kmem)
        → Settled j b.kernel.machine k.machine
        → Sound n k
        → Answer n 24 (kmem b) p k
        → Returns (λ u b'. Stocked j n b b') (stock p (with_kmem b k))
    by_answer p k settled snd (inl (null_, same, inl z, out, out')) = absurd (omega arith)
    by_answer p k settled snd (inl (null_, same, inr z, out, out')) = absurd (omega arith)
    by_answer p k settled snd (inr (pos, le, took, g)) =
        let some_block : p ≢ null = omega (arith, g.behind_header) in
        rw (==_of_ne p null some_block) (
          returns (record {
            block = p;
            some_block = some_block;
            settled = settled;
            sound = record { valid = snd.valid; once = snd.once };
            took = took;
            rest = refl;
          }))
