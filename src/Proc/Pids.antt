-- ===== src/Proc/Pids.antt =====
-- The pids that `proc_alloc` gives.
use guide_os.Prelude.{
  ℕ, suc, ◌+◌, ◌%◌, ◌^◌, ◌⊎◌, fault, ◌≡◌, ◌≢◌, ◌<◌, ◌∙◌, sym, subst, arith, ◌==◌, eq_of_==,
  ne_of_==, Returns, weaken-Returns, inl, inr, false, Bool-cases, Option, none, some, get_elem?,
}
use guide_os.Spinlock.Laws.{Ready}
use guide_os.PageAlloc.Locked.{pgalloc_lock}
use guide_os.PageAlloc.Invariant.{Valid}
use guide_os.Proc.{is_unused, Entry, Table, Procs, ptable_lock, select_entry, proc_alloc}
use guide_os.Proc.Alloc.{Allocated, NoPage, Taken, proc_alloc_lem}

-- The entry `e` stands at place `i` and is in use.
abbrev pub InUse : Table → ℕ → Entry → Type 0
InUse t i e = (get_elem? t.proc i ≡ some e) × (is_unused e.state ≡ false)

-- The entries in use have pids below the next one, and no two have the same.
pub record UniquePids (t : Table) : Type 0 where
  pub below : (i : ℕ) (e : Entry) → InUse t i e → e.pid < t.next_pid
  pub distinct : (i k : ℕ) (e e' : Entry) → InUse t i e → InUse t k e' → e.pid ≡ e'.pid → i ≡ k

module _ (i : ℕ) (t t' : Table) (unique : UniquePids t) (small : t.next_pid < 2 ^ 16)
    (next : t'.next_pid ≡ t.next_pid + 1) (taken : Taken t.next_pid i t.proc t'.proc) where
  -- The new entry has the next pid, and another one was there.
  new_pid : (e : Entry) → InUse t' i e → e.pid ≡ t.next_pid
  new_pid e (at, used) =
      let new = taken.new in let pid : e.pid ≡ t.next_pid % 2 ^ 16 = cc in omega (arith, pid, small)

  was : (k : ℕ) (e : Entry) → k ≢ i → InUse t' k e → InUse t k e
  was k e ne (at, used) = (sym (taken.others k ne) ∙ at, used)

  Taken-UniquePids : UniquePids t'
  Taken-UniquePids = record {
    below = λ k e u. elim (Bool-cases (k == i)) [
      | inl same ↦
          let p = new_pid e (subst (λ x. InUse t' x e) (eq_of_== k i same) u) in
          omega (arith, p, next)
      | inr other ↦
          let b = unique.below k e (was k e (ne_of_== k i other) u) in omega (arith, b, next)
    ];
    distinct = λ k l e e' u u' same. elim (Bool-cases (k == i)) [
      | inl k_new ↦ elim (Bool-cases (l == i)) [
        | inl l_new ↦ eq_of_== k i k_new ∙ sym (eq_of_== l i l_new)
        | inr l_old ↦
            let p = new_pid e (subst (λ x. InUse t' x e) (eq_of_== k i k_new) u) in
            let b = unique.below l e' (was l e' (ne_of_== l i l_old) u') in
            absurd (omega (arith, p, b, same))
      ]
      | inr k_old ↦ elim (Bool-cases (l == i)) [
        | inl l_new ↦
            let p = new_pid e' (subst (λ x. InUse t' x e') (eq_of_== l i l_new) u') in
            let b = unique.below k e (was k e (ne_of_== k i k_old) u) in
            absurd (omega (arith, p, b, same))
        | inr l_old ↦
            unique.distinct k l e e' (was k e (ne_of_== k i k_old) u)
              (was l e' (ne_of_== l i l_old) u') same
      ]
    ];
  }

Allocated-UniquePids :
    (t t' : Table) (r : Option ℕ)
    → UniquePids t
    → t.next_pid < 2 ^ 16
    → Allocated t (r, t')
    → UniquePids t'
unfolding Allocated
Allocated-UniquePids t t' none unique small (same, full) = subst UniquePids (sym same) unique
Allocated-UniquePids t t' (some i) unique small (next, taken) =
    Taken-UniquePids i t t' unique small next taken

-- While the next pid fits 16 bits, `proc_alloc` keeps the pids of the entries in use distinct and below
-- the next one; or it faults, with an entry that is unused and no page that is free.
pub proc_alloc-UniquePids :
    (spins j n : ℕ) (s : Procs)
    → Ready j s.machine
    → (0 < (s.machine.cpus j).int_disable_layer → s.machine.if_flag ≡ false)
    → (s.machine.lock ptable_lock).locked ≡ false
    → (s.machine.lock pgalloc_lock).locked ≡ false
    → Valid n s.pages
    → UniquePids s.table
    → s.table.next_pid < 2 ^ 16
    → Returns (λ r s'. UniquePids s'.table) (proc_alloc (suc spins) s)
      ⊎ ((proc_alloc (suc spins) s ≡ fault) × NoPage s (select_entry s.table).0)
proc_alloc-UniquePids spins j n s ready off free pg_free valid unique small =
    elim (proc_alloc_lem spins j n s ready off free pg_free valid) [
      | inl h ↦ inl (
          weaken-Returns h λ r s' (allocated, stacked, settled).
            Allocated-UniquePids s.table s'.table r unique small allocated)
      | inr none_ ↦ inr none_
    ]
