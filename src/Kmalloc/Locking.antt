-- ===== src/Kmalloc/Locking.antt =====
-- The lock of kmalloc.c.
use guide_os.Prelude.{
  ℕ, suc, String, ◌+◌, ◌^◌, ◌<◌, ◌≡◌, ◌∙◌, ap, subst, false, arith, Cmd, Ends, returned, bind-Ends,
}
use guide_os.Cpu.{Machine}
use guide_os.Cpu.Nesting.{RunsOn}
use guide_os.Spinlock.Laws.{
  Ready, Restored, acquired, acquire-free, release-acquired, Restored-released,
}
use guide_os.Spinlock.Section.{free_lock}
use guide_os.PageAlloc.Locked.{pgalloc_lock}
use guide_os.Kmalloc.{Kmem, kmalloc_lock, under_lock}

-- A CPU that can take the two locks: it is known, its depth does not overflow, its interrupts are off
-- within sections, and the locks are free.
pub record Calm (i : ℕ) (m : Machine) : Type 0 where
  pub here : RunsOn i m
  pub bounded : (m.cpus i).int_disable_layer + 3 < 2 ^ 32
  pub off : 0 < (m.cpus i).int_disable_layer → m.if_flag ≡ false
  pub kmalloc_free : m.lock kmalloc_lock ≡ free_lock
  pub pgalloc_free : m.lock pgalloc_lock ≡ free_lock

pub Calm-Ready : (i : ℕ) (m : Machine) → Calm i m → Ready i m
Calm-Ready i m c = record { here = c.here; bounded = omega (arith, c.bounded) }

pub Calm-Restored : (i : ℕ) (m m' : Machine) → Calm i m → Restored kmalloc_lock i m m' → Calm i m'
Calm-Restored i m m' c r = record {
  here = r.here;
  bounded = omega (arith, r.layer, c.bounded);
  off = λ pos. r.flag ∙ c.off (omega (arith, r.layer, pos));
  kmalloc_free = r.lock;
  pgalloc_free = r.others pgalloc_lock (omega arith) ∙ c.pgalloc_free;
}

-- A command that leaves the machine as it is does so under the lock, and leaves the lock free.
pub under_lock-Ends :
    {A : Type 0} {P : A → Kmem → Type 0} {Q : String → Type 0} (spins i : ℕ) (s : Kmem)
    (c : Cmd Kmem A)
    → Calm i s.machine
    → Ends
        (λ a s₁. (s₁.machine ≡ acquired i kmalloc_lock s.machine) × P a s₁)
        Q
        (c (record s { machine = acquired i kmalloc_lock s.machine }))
    → Ends
        (λ a s'.
          Restored kmalloc_lock i s.machine s'.machine
          × P a (record s' { machine = acquired i kmalloc_lock s.machine }))
        Q
        (under_lock (suc spins) c s)
under_lock-Ends {P = P} spins i s c calm run =
    let ready : Ready i s.machine = Calm-Ready i s.machine calm in
    rw (acquire-free spins kmalloc_lock i s.machine ready (ap (λ l. l.locked) calm.kmalloc_free)) (
      bind-Ends run λ a s₁ (e, p).
        rw (e, release-acquired kmalloc_lock i s.machine ready)
          (returned (
            Restored-released kmalloc_lock i s.machine ready calm.off,
            subst (λ m. P a (record s₁ { machine = m })) e p,
          )))
