-- ===== src/Spinlock/Settled.antt =====
-- What calls that take and free locks leave of the machine, one after the other.
use guide_os.Prelude.{
  ℕ, ◌≡◌, ◌∙◌, ap, false, inl, inr, Bool-cases, ◌==◌, eq_of_==, ne_of_==, subst, sym,
}
use guide_os.Cpu.{Machine, LockId}
use guide_os.Cpu.Nesting.{RunsOn}
use guide_os.Spinlock.Section.{free_lock}
use guide_os.Spinlock.Laws.{Restored}

-- The CPU is as deep in critical sections as it was, with interrupts as they were, and every lock that
-- was free is so again.
pub record Settled (i : ℕ) (m m' : Machine) : Type 0 where
  pub flag : m'.if_flag ≡ m.if_flag
  pub layer : (m'.cpus i).int_disable_layer ≡ (m.cpus i).int_disable_layer
  pub here : RunsOn i m'
  pub locks : (l : LockId) → (m.lock l).locked ≡ false → (m'.lock l).locked ≡ false
  pub exact : (l : LockId) → m.lock l ≡ free_lock → m'.lock l ≡ free_lock

pub Restored-Settled : (l : LockId) (i : ℕ) (m m' : Machine) → Restored l i m m' → Settled i m m'
Restored-Settled l i m m' r = record {
  flag = r.flag;
  layer = r.layer;
  here = r.here;
  locks = λ k free. elim (Bool-cases (k == l)) [
    | inl e ↦
        subst (λ x. (m'.lock x).locked ≡ false) (sym (eq_of_== k l e)) (ap (λ x. x.locked) r.lock)
    | inr e ↦ ap (λ x. x.locked) (r.others k (ne_of_== k l e)) ∙ free
  ];
  exact = λ k free. elim (Bool-cases (k == l)) [
    | inl e ↦ subst (λ x. m'.lock x ≡ free_lock) (sym (eq_of_== k l e)) r.lock
    | inr e ↦ r.others k (ne_of_== k l e) ∙ free
  ];
}

pub Settled-trans : (i : ℕ) (m m₁ m₂ : Machine) → Settled i m m₁ → Settled i m₁ m₂ → Settled i m m₂
Settled-trans i m m₁ m₂ s t = record {
  flag = t.flag ∙ s.flag;
  layer = t.layer ∙ s.layer;
  here = t.here;
  locks = λ l free. t.locks l (s.locks l free);
  exact = λ l free. t.exact l (s.exact l free);
}
