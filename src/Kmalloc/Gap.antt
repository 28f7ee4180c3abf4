-- ===== src/Kmalloc/Gap.antt =====
-- The sizes that kmalloc.c cannot serve.
use guide_os.Prelude.{
  ℕ, suc, ◌+◌, ◌<◌, ◌≡◌, refl, ap, ◌∙◌, ==_refl, bind-Ends, Returns-Ends, false, none, some, [],
  arith, ◌==◌, ltb, leb, Ptr, null, ok, Returns, returns, map_state-Returns, returned, weaken-Ends,
  Ends-Returns,
}
use guide_os.Cpu.{Machine}
use guide_os.Spinlock.Laws.{Inside-acquired, acquired}
use guide_os.PageAlloc.{Pages, s_alloc_block}
use guide_os.PageAlloc.Locked.{pgalloc_allocate}
use guide_os.PageAlloc.Locking.{locked-Inside}
use guide_os.Kmalloc.{
  Kmem, add_block, merge_loop, insert_block, find_fit, find_fit_block, page_address, add_page,
  get_block, kmalloc,
}
use guide_os.Kmalloc.Add.{within, cover}
use guide_os.Kmalloc.Locking.{Calm, Calm-Ready, under_lock-Ends}

page_misfit : (n a : ℕ) → 4056 < n → n < 4080 → find_fit n (add_block a 4096 []) ≡ none
unfolding find_fit add_block merge_loop insert_block
page_misfit n a lo hi =
    let exact : (4080 == n) ≡ false = ground arith in
    let room : leb (n + 24) 4080 ≡ false = ground arith in rw (exact, room) refl

page_block : (a : Ptr) (q : Ptr) → cover (add_block a 4096 []) q ≡ within a 4096 q
unfolding cover add_block merge_loop insert_block
page_block a q = omega arith

missed : (n : ℕ) (s : Kmem) → find_fit n s.size_list ≡ none → find_fit_block n s ≡ ok null s
unfolding find_fit_block
missed n s e = rw (find_fit_block, e) refl

nothing : (n : ℕ) → find_fit n [] ≡ none
unfolding find_fit
nothing n = refl

-- `kmalloc` with an empty free list and a free page takes the page, and still answers NULL for the
-- sizes 4057 to 4079: the page is neither of exactly that size nor large enough to be split.
pub kmalloc-gap :
    (spins i n p : ℕ) (s : Kmem) (pages' : Pages)
    → Calm i s.machine
    → 4056 < n
    → n < 4080
    → s.size_list ≡ []
    → s_alloc_block 0 s.pages ≡ ok (some p) pages'
    → Returns
        (λ r s'.
          (r ≡ null)
          × (s'.pages ≡ pages')
          × ((q : Ptr) → cover s'.size_list q ≡ within (page_address p) 4096 q))
        (kmalloc (suc spins) n s)
unfolding kmalloc get_block add_page pgalloc_allocate
kmalloc-gap spins i n p s pages' calm lo hi empty got =
    let n0 : (n == 0) ≡ false = ground arith in
    let n1 : ltb 4080 n ≡ false = ground arith in
    let m : Machine = acquired i 2 s.machine in
    let held : Kmem = record s { machine = m } in
    let none_yet = missed n held (ap (find_fit n) empty ∙ nothing n) in
    let in_ = Inside-acquired i 2 s.machine (Calm-Ready i s.machine calm) in
    let page =
      locked-Inside {P = λ r ps. (r ≡ some p) × (ps ≡ pages')} spins i
        (record { machine = m; pages = s.pages }) _ in_
        (rw (==_refl i) (omega (arith, calm.bounded))) calm.pgalloc_free
        (rw got (returns (refl, refl))) in
    Ends-Returns
      (weaken-Ends
        (under_lock-Ends
          {P = λ r s'.
            (r ≡ null)
            × (s'.pages ≡ pages')
            × ((q : Ptr) → cover s'.size_list q ≡ within (page_address p) 4096 q)}
          {Q = λ m. ⊥} spins i s _ calm
          (rw (n0, n1)
            (rw none_yet (
              bind-Ends
                (Returns-Ends (
                  map_state-Returns (λ l. record held { machine = l.machine; pages = l.pages })
                    page))
                λ r s₁ (l, ((got_p, now), same), e).
                  rw (e, got_p, now, same, empty)
                    (rw
                      (missed n
                        (record held {
                          pages = pages';
                          size_list = add_block (page_address p) 4096 [];
                        })
                        (page_misfit n (page_address p) lo hi))
                      (returned (refl, (refl, refl, page_block (page_address p)))))))))
        λ r s' (back, out). out)
      λ m none_. none_
