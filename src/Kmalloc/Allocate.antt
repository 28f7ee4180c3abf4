-- ===== src/Kmalloc/Allocate.antt =====
-- `kmalloc` of kmalloc.c, with its lock and its calls of the page allocator.
use guide_os.Prelude.{
  ℕ, suc, String, ◌+◌, ◌^◌, ◌≤◌, ◌<◌, ◌≡◌, ◌∙◌, refl, ◌⊎◌, inl, inr, true, false, ◌||◌, Bool-cases,
  Option, none, some, List, [], ◌∷◌, arith, ◌==◌, ==_of_ne, eq_of_==, if◌then◌else◌, ltb, Ptr, null,
  pure, ◌>>=◌, ◌>>◌, Returns, weaken-Returns, map_state-Returns, Ends, returned, panicked,
  bind-Ends, Returns-Ends,
}
use guide_os.Spinlock.Laws.{Inside}
use guide_os.Spinlock.Section.{free_lock}
use guide_os.PageAlloc.{Pages}
use guide_os.PageAlloc.Locked.{Locked, pgalloc_lock, pgalloc_allocate}
use guide_os.PageAlloc.Locking.{locked-Inside}
use guide_os.PageAlloc.Bins.{Taken}
use guide_os.PageAlloc.Invariant.{free_count, free_count-nil}
use guide_os.PageAlloc.Allocate.{Allocated, s_alloc_block-Allocated}
use guide_os.Kmalloc.{
  Block, Kmem, metadata_size, fits, page_address, add_block, merge_loop, insert_behind,
  insert_block, find_fit_block, add_page, get_block, on_locked,
}
use guide_os.Kmalloc.Fit.{Handed, none_fits, find_fit_block-Handed}
use guide_os.Kmalloc.Bytes.{
  free_bytes, Sound, Granted, Sound-Apart, with_page, with_page-bytes, with_page-Sound,
}

-- A block that is large enough to be split is found wherever it is in the list.
insert_behind-fits :
    (n : ℕ) (m : Block) (bs : List Block)
    → fits n m ≡ true
    → none_fits n (insert_behind m bs) ≡ false
unfolding none_fits insert_behind
insert_behind-fits n m [] f = rw f refl
insert_behind-fits n m (b ∷ bs) f = ground (arith, insert_behind-fits n m bs f)

insert_block-fits :
    (n : ℕ) (m : Block) (bs : List Block)
    → fits n m ≡ true
    → none_fits n (insert_block m bs) ≡ false
unfolding none_fits insert_block
insert_block-fits n m [] f = rw f refl
insert_block-fits n m (b ∷ bs) f = ground (arith, insert_behind-fits n m bs f)

merge_loop-grows :
    (start end : Ptr) (m : Block) (bs : List Block) → m.size ≤ (merge_loop start end m bs).1.size
unfolding merge_loop
merge_loop-grows start end m [] = omega arith
merge_loop-grows start end m (b ∷ bs) = ground (
  arith,
  merge_loop-grows start end (record { addr = b.addr; size = b.size + (m.size + metadata_size) })
      bs,
  merge_loop-grows start end (record { addr = m.addr; size = m.size + (b.size + metadata_size) })
      bs,
  merge_loop-grows start end m bs,
)

page-fits : (n a : ℕ) (bs : List Block) → n ≤ 4056 → none_fits n (add_block a 4096 bs) ≡ false
unfolding add_block
page-fits n a bs le =
    let big = merge_loop-grows a (a + 4096) (record { addr = a; size = 4080 }) bs in
    insert_block-fits n _ _ (ground (arith, big))

-- The page allocator has given away no page, or one.
abbrev pub TookPage : ℕ → Pages → Pages → Type 0
TookPage n s s' = (s' ≡ s) ⊎ ((p : ℕ) × Taken n s p 0 s')

-- What `kmalloc` answers: NULL only for a size of 0 or of more than 4056, with the same bytes free and
-- the memory unchanged, or a block only for a size of 1 to 4080.
unfoldable pub Answer : ℕ → ℕ → Kmem → Ptr → Kmem → Type 0
Answer n size s p s' =
    ((p ≡ null)
      × ((q : Ptr) → free_bytes s' q ≡ free_bytes s q)
      × ((size ≡ 0) ⊎ (4056 < size))
      × (s'.size_at ≡ s.size_at)
      × (s'.bytes ≡ s.bytes))
    ⊎ ((0 < size) × (size ≤ 4080) × TookPage n s.pages s'.pages × Granted size s p s')

-- It panics only if no free block fits and no page is free.
unfoldable pub OutOfMemory : ℕ → Kmem → String → Type 0
OutOfMemory size s m =
    (m ≡ "malloc: OOM") × (none_fits size s.size_list ≡ true) × ((q : ℕ) → free_count s.pages q ≡ 0)

Granted-Handed : (size : ℕ) (s s' : Kmem) (p : Ptr) → Handed size s p s' → Granted size s p s'
Granted-Handed size s s' p h = record {
  behind_header = h.behind_header;
  header = h.header;
  bytes = λ q. rw (h.others.1) (omega (arith, h.bytes q));
  headers = h.headers;
  contents = h.others.2;
}

Sound-Handed : (n size : ℕ) (s s' : Kmem) (p : Ptr) → Sound n s → Handed size s p s' → Sound n s'
Sound-Handed n size s s' p sound h = record {
  valid = rw (h.others.1) sound.valid;
  once = λ q. omega (arith, (Granted-Handed size s s' p h).bytes q, sound.once q);
}

-- What the section of `kmalloc` leaves
unfoldable pub Got : ℕ → ℕ → Kmem → Ptr → Kmem → Type 0
Got n size s p s' = Sound n s' × (s'.machine ≡ s.machine) × Answer n size s p s'

-- The second search, when the page `p` is in the free list
search_again :
    (n size p : ℕ) (ps : Pages) (s : Kmem)
    → 0 < size
    → size ≤ 4080
    → Taken n s.pages p 0 ps
    → Sound n (with_page p ps s)
    → ((q : Ptr) → free_bytes (with_page p ps s) q ≡ free_bytes s q)
    → Returns (Got n size s) (find_fit_block size (with_page p ps s))
unfolding Got Answer
search_again n size p ps s pos le taken sound same =
    weaken-Returns (find_fit_block-Handed size (with_page p ps s) (Sound-Apart n _ sound))
      λ r s'. by_result r s'
  where
    by_result :
        (r : Ptr) (s' : Kmem)
        → ((r ≡ null)
            × (s' ≡ with_page p ps s)
            × (none_fits size (with_page p ps s).size_list ≡ true))
          ⊎ Handed size (with_page p ps s) r s'
        → Got n size s r s'
    by_result r s' (inl (null_, e, none_)) = rw e (
      sound,
      refl,
      inl (
        null_,
        same,
        inr (elim (Bool-cases (ltb 4056 size)) [
          | inl big ↦ ground arith
          | inr small ↦
              let fit = page-fits size (page_address p) s.size_list (ground arith) in
              ground (arith, none_, fit)
        ]),
        refl,
        refl,
      ),
    )
    by_result r s' (inr h) =
        let g = Granted-Handed size (with_page p ps s) s' r h in
        (
          Sound-Handed n size (with_page p ps s) s' r sound h,
          h.others.0,
          inr (
            pos,
            le,
            inr (p, rw (h.others.1) taken),
            record {
              behind_header = g.behind_header;
              header = g.header;
              bytes = λ q. g.bytes q ∙ same q;
              headers = g.headers;
              contents = g.contents;
            },
          ),
        )

-- The search that `find_fit_block` makes first, and then, if nothing fits, the page
pub get_block-Got :
    (spins i n size : ℕ) (s : Kmem)
    → Inside i s.machine
    → (s.machine.cpus i).int_disable_layer + 2 < 2 ^ 32
    → s.machine.lock pgalloc_lock ≡ free_lock
    → Sound n s
    → Ends (Got n size s) (OutOfMemory size s) (get_block (suc spins) size s)
unfolding get_block Got Answer Allocated OutOfMemory add_page pgalloc_allocate
get_block-Got spins i n size s in_ room free sound =
    elim (Bool-cases ((size == 0) || ltb 4080 size)) [
      | inl e ↦ rw e (
          returned (
            sound,
            refl,
            inl (
              refl,
              λ q. refl,
              elim (Bool-cases (size == 0)) [
                | inl z ↦ inl (eq_of_== size 0 z)
                | inr z ↦ inr (ground arith)
              ],
              refl,
              refl,
            ),
          ))
      | inr e ↦ rw e (
          bind-Ends (Returns-Ends (find_fit_block-Handed size s (Sound-Apart n s sound)))
            λ r s₁ h. first (ground arith) (ground arith) r s₁ h)
    ]
  where
    with_new :
        0 < size
        → size ≤ 4080
        → none_fits size s.size_list ≡ true
        → (r : Option ℕ) (l : Locked) → Allocated n s.pages 0 r l.pages × (l.machine ≡ s.machine)
        → Ends (Got n size s) (OutOfMemory size s) (
            (add_page r >> find_fit_block size) (record s { machine = l.machine; pages = l.pages }))
    with_new pos le none_ none l ((same, empty), e) =
        panicked (refl, none_, free_count-nil s.pages (λ o lt. empty o (omega arith) lt))
    with_new pos le none_ (some p) l ((al, taken), e) = rw e (
        Returns-Ends (
          search_again n size p l.pages s pos le taken (with_page-Sound n p l.pages s sound taken)
            (with_page-bytes n p l.pages s sound taken)))

    first :
        0 < size
        → size ≤ 4080
        → (r : Ptr) (s₁ : Kmem)
        → ((r ≡ null) × (s₁ ≡ s) × (none_fits size s.size_list ≡ true)) ⊎ Handed size s r s₁
        → Ends (Got n size s) (OutOfMemory size s) (
            (if r == null
                then (do
                  page ← on_locked (pgalloc_allocate (suc spins) 0)
                  add_page page
                  find_fit_block size)
                else pure r)
              s₁)
    first pos le r s₁ (inl (null_, e, none_)) =
        rw (null_, e)
          (bind-Ends
            (Returns-Ends (
              map_state-Returns (λ l. record s { machine = l.machine; pages = l.pages })
                (locked-Inside spins i (record { machine = s.machine; pages = s.pages }) _ in_ room
                  free (s_alloc_block-Allocated n s.pages 0 sound.valid (omega arith)))))
            λ r' s₂ (l, al, e'). rw e' (with_new pos le none_ r' l al))
    first pos le r s₁ (inr h) = rw (==_of_ne r 0 (omega (arith, h.behind_header))) (
        returned (
          Sound-Handed n size s s₁ r sound h,
          h.others.0,
          inr (pos, le, inl h.others.1, Granted-Handed size s s₁ r h),
        ))
