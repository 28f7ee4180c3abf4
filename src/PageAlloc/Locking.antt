-- ===== src/PageAlloc/Locking.antt =====
-- What the lock of page_alloc.c adds to a theorem about its functions.
use guide_os.Prelude.{
  ℕ, suc, ◌+◌, ◌^◌, ◌<◌, ap, ◌≡◌, refl, false, Cmd, Returns, returns, bind-Returns,
  map_state-Returns,
}
use guide_os.Spinlock.Laws.{
  Inside, Ready, Restored, acquired, acquire-free, release-acquired, Restored-released,
}
use guide_os.Spinlock.Section.{free_lock, release-section}
use guide_os.PageAlloc.{Pages}
use guide_os.PageAlloc.Locked.{Locked, pgalloc_lock, locked}

-- A command on the pages that returns does so under the lock, and leaves the lock free.
pub locked-Returns :
    {A : Type 0} {P : A → Pages → Type 0} (spins i : ℕ) (s : Locked) (c : Cmd Pages A)
    → Ready i s.machine
    → (0 < (s.machine.cpus i).int_disable_layer → s.machine.if_flag ≡ false)
    → (s.machine.lock pgalloc_lock).locked ≡ false
    → Returns P (c s.pages)
    → Returns
        (λ a s'. P a s'.pages × Restored pgalloc_lock i s.machine s'.machine)
        (locked (suc spins) c s)
locked-Returns spins i s c ready off free run =
    rw (acquire-free spins pgalloc_lock i s.machine ready free) (
      bind-Returns
        (map_state-Returns (λ p. record { machine = acquired i pgalloc_lock s.machine; pages = p })
          run)
        λ a s₁ (p, holds, e).
          rw (e, release-acquired pgalloc_lock i s.machine ready)
            (returns (holds, Restored-released pgalloc_lock i s.machine ready off)))

-- Within a critical section the machine is as it was before.
pub locked-Inside :
    {A : Type 0} {P : A → Pages → Type 0} (spins i : ℕ) (s : Locked) (c : Cmd Pages A)
    → Inside i s.machine
    → (s.machine.cpus i).int_disable_layer + 2 < 2 ^ 32
    → s.machine.lock pgalloc_lock ≡ free_lock
    → Returns P (c s.pages)
    → Returns (λ a s'. P a s'.pages × (s'.machine ≡ s.machine)) (locked (suc spins) c s)
locked-Inside spins i s c in_ room free run =
    rw
      (acquire-free spins pgalloc_lock i s.machine (record { here = in_.here; bounded = room })
        (ap (λ l. l.locked) free))
      (bind-Returns
        (map_state-Returns (λ p. record { machine = acquired i pgalloc_lock s.machine; pages = p })
          run)
        λ a s₁ (p, holds, e).
          rw (e, release-section pgalloc_lock i s.machine in_ room free) (returns (holds, refl)))
