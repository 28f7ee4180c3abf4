-- ===== src/Proc/Alloc.antt =====
-- `proc_alloc` takes an unused entry.
use guide_os.Prelude.{
  ℕ, zero, suc, ◌+◌, ◌%◌, ◌^◌, ◌≡◌, ◌≢◌, ◌<◌, ◌∙◌, refl, ap, subst, arith, ==_refl, ==_of_ne, ◌⊎◌,
  sym, Run, and_then, map_state, fault, ok, low_bits, Returns, returns, inl, inr, true, false,
  Bool-cases, Option, none, some, List, [], ◌∷◌, get_elem?, count_if,
}
use guide_os.Spinlock.Laws.{
  Ready, Restored, acquired, released, acquire-free, release-acquired, Restored-released,
}
use guide_os.Spinlock.Settled.{Settled, Restored-Settled, Settled-trans}
use guide_os.PageAlloc.Locked.{Locked, pgalloc_lock, pgalloc_allocate}
use guide_os.PageAlloc.Locking.{locked-Returns}
use guide_os.PageAlloc.Invariant.{Valid, free_count, free_count-nil}
use guide_os.PageAlloc.Spare.{OneFree}
use guide_os.PageAlloc.Bins.{Taken as PageTaken}
use guide_os.PageAlloc.Allocate
use guide_os.PageAlloc.Allocate.{s_alloc_block-Allocated}
use guide_os.Sched.{creation}
use guide_os.Proc.{
  is_unused, Entry, Table, later, take_unused, counted, select_entry, Procs, kern_stack, page_kva,
  ptable_lock, stack_on, proc_kern_init, init_selected, proc_alloc,
}

-- Entry `i` was unused and is in creation with the pid `n`; every other entry is as it was.
pub record Taken (n i : ℕ) (es es' : List Entry) : Type 0 where
  pub old : (e : Entry) × (get_elem? es i ≡ some e) × (is_unused e.state ≡ true)
  pub new : get_elem? es' i ≡ some (record { state = creation; pid = n % 2 ^ 16 })
  pub others : (j : ℕ) → j ≢ i → get_elem? es' j ≡ get_elem? es j

-- The result of the search
pub Result : ℕ → List Entry → Option (ℕ × List Entry) → Type 0
Result n es none = count_if (λ e. is_unused e.state) es ≡ 0
Result n es (some (i, es')) = Taken n i es es'

Result-later :
    (n : ℕ) (e : Entry) (es : List Entry) (r : Option (ℕ × List Entry))
    → is_unused e.state ≡ false
    → Result n es r
    → Result n (e ∷ es) (later e r)
unfolding Result
Result-later n e es none busy h = rw busy h
Result-later n e es (some (i, es')) busy h = record {
  old = h.old;
  new = h.new;
  others = λ j ne. by_index j ne;
}
  where
    by_index : (j : ℕ) → j ≢ suc i → get_elem? (e ∷ es') j ≡ get_elem? (e ∷ es) j
    by_index zero ne = refl
    by_index (suc j) ne = h.others j (λ q. ne (ap suc q))

take_unused-Result : (n : ℕ) (es : List Entry) → Result n es (take_unused n es)
unfolding Result take_unused
take_unused-Result n [] = refl
take_unused-Result n (e ∷ es) = elim (Bool-cases (is_unused e.state)) [
  | inl free ↦
      rw free (record { old = (e, refl, free); new = refl; others = λ j ne. by_index j ne })
  | inr busy ↦ rw busy (Result-later n e es (take_unused n es) busy (take_unused-Result n es))
]
  where
    by_index :
        (j : ℕ)
        → j ≢ 0
        → get_elem? (record { state = creation; pid = n % 2 ^ 16 } ∷ es) j ≡ get_elem? (e ∷ es) j
    by_index zero ne = absurd (ne refl)
    by_index (suc j) ne = refl

-- What the search answers: NULL with no entry unused and the table as it was, or an entry that was
-- unused, with the next pid.
unfoldable pub Allocated : Table → Option ℕ × Table → Type 0
Allocated t (none, t') = (t' ≡ t) × (count_if (λ e. is_unused e.state) t.proc ≡ 0)
Allocated t (some i, t') = (t'.next_pid ≡ t.next_pid + 1) × Taken t.next_pid i t.proc t'.proc

counted-Allocated :
    (t : Table) (r : Option (ℕ × List Entry))
    → Result t.next_pid t.proc r
    → Allocated t (counted t r)
unfolding Result Allocated
counted-Allocated t none h = (refl, h)
counted-Allocated t (some (i, es)) h = (refl, h)

select_entry-Allocated : (t : Table) → Allocated t (select_entry t)
unfolding select_entry
select_entry-Allocated t =
    counted-Allocated t (take_unused t.next_pid t.proc) (take_unused-Result t.next_pid t.proc)

-- The stack of the new entry, on a page that was free
unfoldable pub Stacked : ℕ → Procs → Option ℕ → Procs → Type 0
Stacked n s none s' = s'.pages ≡ s.pages
Stacked n s (some i) s' =
    (p : ℕ) × Allocate.Allocated n s.pages 0 (some p) s'.pages
    × (s'.stack i ≡ kern_stack (page_kva p))
    × ((j : ℕ) → j ≢ i → s'.stack j ≡ s.stack j)

-- Entry `i` is selected, and no page is free.
abbrev pub NoPage : Procs → Option ℕ → Type 0
NoPage s r = ((i : ℕ) × (r ≡ some i)) × ((q : ℕ) → free_count s.pages q ≡ 0)

-- With the page that `pgalloc_allocate` returned
stack_on-Stacked :
    (j n i : ℕ) (s s₁ : Procs) (p : Option ℕ) (l : Locked)
    → s₁.pages ≡ s.pages
    → s₁.stack ≡ s.stack
    → Allocate.Allocated n s₁.pages 0 p l.pages
    → Restored pgalloc_lock j s₁.machine l.machine
    → Returns
        (λ u s'. Stacked n s (some i) s' × (s'.table ≡ s₁.table) × Settled j s₁.machine s'.machine)
        (stack_on i p (record s₁ { machine = l.machine; pages = l.pages }))
      ⊎ ((stack_on i p (record s₁ { machine = l.machine; pages = l.pages }) ≡ fault)
          × NoPage s (some i))
unfolding Stacked Allocate.Allocated
stack_on-Stacked j n i s s₁ none l same stacks (kept, empty) back = inr (
  refl,
  (
    (i, refl),
    λ q.
        ap (λ ps. free_count ps q) (sym same)
        ∙ free_count-nil s₁.pages (λ o lt. empty o (omega arith) lt) q,
  ),
)
stack_on-Stacked j n i s s₁ (some p) l same stacks got back = inl (
    returns (
      (
        p,
        subst (λ ps. (low_bits p 0 ≡ 0) × PageTaken n ps p 0 l.pages) same got,
        rw (==_refl i) refl,
        λ k ne. rw (==_of_ne k i ne) (ap (λ f. f k) stacks),
      ),
      refl,
      Restored-Settled pgalloc_lock j s₁.machine l.machine back,
    ))

init_selected-Stacked :
    (spins j n : ℕ) (s s₁ : Procs) (r : Option ℕ)
    → Ready j s₁.machine
    → (0 < (s₁.machine.cpus j).int_disable_layer → s₁.machine.if_flag ≡ false)
    → (s₁.machine.lock pgalloc_lock).locked ≡ false
    → Valid n s₁.pages
    → s₁.pages ≡ s.pages
    → s₁.stack ≡ s.stack
    → Returns
        (λ u s'. Stacked n s r s' × (s'.table ≡ s₁.table) × Settled j s₁.machine s'.machine)
        (init_selected (suc spins) r s₁)
      ⊎ ((init_selected (suc spins) r s₁ ≡ fault) × NoPage s r)
unfolding Stacked proc_kern_init pgalloc_allocate
init_selected-Stacked spins j n s s₁ none ready off free valid same stacks = inl (
    returns (
      same,
      refl,
      record { flag = refl; layer = refl; here = ready.here; locks = λ l h. h; exact = λ l h. h },
    ))
init_selected-Stacked spins j n s s₁ (some i) ready off free valid same stacks = with_page (
    locked-Returns spins j (record { machine = s₁.machine; pages = s₁.pages }) _ ready off free
      (s_alloc_block-Allocated n s₁.pages 0 valid (omega arith)))
  where
    with_page :
        {run : Run Locked (Option ℕ)}
        → Returns
            (λ p l.
              Allocate.Allocated n s₁.pages 0 p l.pages
              × Restored pgalloc_lock j s₁.machine l.machine)
            run
        → Returns
            (λ u s'.
              Stacked n s (some i) s' × (s'.table ≡ s₁.table) × Settled j s₁.machine s'.machine)
            (and_then
              (map_state (λ l. record s₁ { machine = l.machine; pages = l.pages }) run)
              (stack_on i))
          ⊎ ((and_then
                  (map_state (λ l. record s₁ { machine = l.machine; pages = l.pages }) run)
                  (stack_on i)
                ≡ fault)
              × NoPage s (some i))
    with_page (returns {a = p} {s = l} (got, back)) =
        stack_on-Stacked j n i s s₁ p l same stacks got back

-- `proc_alloc` takes an unused entry if there is one, gives it the next pid and a stack on a page that
-- was free, and changes no other entry and no other stack; without an unused entry it answers NULL and
-- changes nothing. The locks that were free are so again, and the interrupts are as they were. With an
-- unused entry and no free page it faults.
pub proc_alloc_lem :
    (spins j n : ℕ) (s : Procs)
    → Ready j s.machine
    → (0 < (s.machine.cpus j).int_disable_layer → s.machine.if_flag ≡ false)
    → (s.machine.lock ptable_lock).locked ≡ false
    → (s.machine.lock pgalloc_lock).locked ≡ false
    → Valid n s.pages
    → Returns
        (λ r s'.
          Allocated s.table (r, s'.table) × Stacked n s r s' × Settled j s.machine s'.machine)
        (proc_alloc (suc spins) s)
      ⊎ ((proc_alloc (suc spins) s ≡ fault) × NoPage s (select_entry s.table).0)
unfolding proc_alloc
proc_alloc_lem spins j n s ready off free pg_free valid =
    rw
      (
        acquire-free spins ptable_lock j s.machine ready free,
        release-acquired ptable_lock j s.machine ready,
      )
      (and_answer (
        init_selected-Stacked spins j n s after (select_entry s.table).0
          (record { here = back.here; bounded = omega (arith, back.layer, ready.bounded) })
          (λ pos. back.flag ∙ off (omega (arith, back.layer, pos)))
          (settled.locks pgalloc_lock pg_free) valid refl refl))
  where
    back :
        Restored ptable_lock j s.machine (released j ptable_lock (acquired j ptable_lock s.machine))
    back = Restored-released ptable_lock j s.machine ready off

    settled : Settled j s.machine (released j ptable_lock (acquired j ptable_lock s.machine))
    settled = Restored-Settled ptable_lock j _ _ back

    after : Procs
    after = record s {
      machine = released j ptable_lock (acquired j ptable_lock s.machine);
      table = (select_entry s.table).1;
    }

    and_answer :
        {run : Run Procs (Unit {0})}
        → Returns
            (λ u s'.
              Stacked n s (select_entry s.table).0 s'
              × (s'.table ≡ after.table)
              × Settled j after.machine s'.machine)
            run
          ⊎ ((run ≡ fault) × NoPage s (select_entry s.table).0)
        → Returns
            (λ r s'.
              Allocated s.table (r, s'.table) × Stacked n s r s' × Settled j s.machine s'.machine)
            (and_then run (λ u. ok (select_entry s.table).0))
          ⊎ ((and_then run (λ u. ok (select_entry s.table).0) ≡ fault)
              × NoPage s (select_entry s.table).0)
    and_answer (inl (returns (stacked, same, then_))) = inl (
        returns
          (rw same (select_entry-Allocated s.table), stacked, Settled-trans j _ _ _ settled then_))
    and_answer (inr (e, none_)) = inr (rw e refl, none_)

-- With a page free, `proc_alloc` does not fault.
pub proc_alloc-Returns :
    (spins j n : ℕ) (s : Procs)
    → Ready j s.machine
    → (0 < (s.machine.cpus j).int_disable_layer → s.machine.if_flag ≡ false)
    → (s.machine.lock ptable_lock).locked ≡ false
    → (s.machine.lock pgalloc_lock).locked ≡ false
    → Valid n s.pages
    → OneFree s.pages
    → Returns
        (λ r s'.
          Allocated s.table (r, s'.table) × Stacked n s r s' × Settled j s.machine s'.machine)
        (proc_alloc (suc spins) s)
proc_alloc-Returns spins j n s ready off free pg_free valid (q, spare) =
    elim (proc_alloc_lem spins j n s ready off free pg_free valid) [
      | inl h ↦ h
      | inr h ↦ absurd (let z = h.1.1 q in omega (arith, z, spare))
    ]
