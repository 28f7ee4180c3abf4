-- ===== src/Spinlock.antt =====
-- kernel/src/spinlock.c, as one CPU executes it. The wait for a taken lock runs on fuel: on this
-- CPU alone nothing changes while it waits. Other CPUs are in Spinlock.Mutex.
pub mod Laws
pub mod Section
pub mod Settled
pub mod Mutex
mod Tests
pub mod Fixture
use guide_os.Prelude.{
  ℕ, zero, suc, Bool, true, false, ◌&&◌, Option, none, some, ◌==◌, if◌then◌else◌, Cmd, ok, panic,
  out_of_fuel, pure, ◌>>=◌, ◌>>◌,
}
use guide_os.Cpu.{Spinlock, LockId, Machine, update, cur_cpu, push_int_disable, pop_int_disable}

unfoldable pub set_lock : LockId → Spinlock → Cmd Machine (Unit {0})
set_lock l s m = ok tt (record m { lock = update m.lock l s })

-- `init_lock`; the name is not read by the code
unfoldable pub init_lock : LockId → Cmd Machine (Unit {0})
unfolding set_lock
init_lock l = set_lock l (record { locked = false; cpu = none })

abbrev pub is_cpu : Option ℕ → ℕ → Bool
is_cpu none i = false
is_cpu (some j) i = j == i

unfoldable pub holding : LockId → Cmd Machine Bool
holding l = do
  push_int_disable
  s ← (λ m. ok (m.lock l) m)
  r ← if s.locked then (do i ← cur_cpu; pure (is_cpu s.cpu i)) else pure false
  pop_int_disable
  pure r

-- `atomic_exchange(&lk->locked, 1)`
unfoldable pub exchange : LockId → Cmd Machine Bool
exchange l m =
    ok (m.lock l).locked (record m { lock = update m.lock l (record (m.lock l) { locked = true }) })

unfoldable pub spin : ℕ → LockId → Cmd Machine (Unit {0})
spin zero l = λ m. out_of_fuel
spin (suc fuel) l = do old ← exchange l; let again = spin fuel l; if old then again else pure tt

unfoldable pub acquire : ℕ → LockId → Cmd Machine (Unit {0})
unfolding set_lock
acquire fuel l = do
  push_int_disable
  held ← holding l
  if held
      then (λ m. panic "acquire")
      else (do spin fuel l; i ← cur_cpu; (λ m. set_lock l (record (m.lock l) { cpu = some i }) m))

unfoldable pub release : LockId → Cmd Machine (Unit {0})
unfolding set_lock
release l = do
  held ← holding l
  if held
      then (do
        (λ m. set_lock l (record (m.lock l) { cpu = none }) m)
        (λ m. set_lock l (record (m.lock l) { locked = false }) m)
        pop_int_disable)
      else (λ m. panic "release")
