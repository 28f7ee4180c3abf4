-- ===== src/Spinlock/Section.antt =====
-- A lock taken and given back within a critical section of another.
use guide_os.Prelude.{ℕ, ◌+◌, ◌^◌, ◌<◌, ◌≡◌, sym, ap, ◌∙◌, true, false, some, none, ok}
use guide_os.Cpu.{Machine, Spinlock}
use guide_os.Cpu.Nesting.{popped, pushed}
use guide_os.Spinlock.{release}
use guide_os.Spinlock.Laws.{Inside, acquired, release-acquired, update_back, popped-pushed}

abbrev pub free_lock : Spinlock
free_lock = record { locked = false; cpu = none }

pub release-section :
    (l i : ℕ) (m : Machine)
    → Inside i m
    → (m.cpus i).int_disable_layer + 2 < 2 ^ 32
    → m.lock l ≡ free_lock
    → release l (acquired i l m) ≡ ok tt m
release-section l i m in_ room free =
    release-acquired l i m (record { here = in_.here; bounded = room })
    ∙ ap (ok tt) (
        ap (λ locks. popped i (record (pushed i m) { lock = locks }))
          (update_back m.lock l (record { locked = true; cpu = some i }) free_lock (sym free))
        ∙ popped-pushed i m in_)
