-- ===== src/Spinlock/Laws.antt =====
-- `acquire` and `release` of spinlock.c on one CPU.
use guide_os.Prelude.{
  ℕ, suc, ◌+◌, ◌-◌, ◌%◌, ◌^◌, ◌<◌, ◌≡◌, refl, ◌≢◌, sym, ap, ap₂, Bool-cases, inl, inr, eq_of_==,
  ◌∙◌, true, false, ◌&&◌, none, some, arith, ◌==◌, ==_refl, ==_of_ne, ok, fun_ext,
}
use guide_os.Cpu.{Machine, LockId, update, cur_cpu, pop_int_disable}
use guide_os.Cpu.Nesting.{
  RunsOn, entered, pushed, popped, push_int_disable-ok, pop_int_disable-ok, RunsOn-pushed,
  RunsOn-popped, flag_back,
}
use guide_os.Spinlock.{is_cpu, holding, exchange, spin, acquire, release}

-- A CPU within a critical section.
pub record Inside (i : ℕ) (m : Machine) : Type 0 where
  pub here : RunsOn i m
  pub off : m.if_flag ≡ false
  pub deep : 0 < (m.cpus i).int_disable_layer
  pub bounded : (m.cpus i).int_disable_layer + 1 < 2 ^ 32

pub update_back {ℓ} :
    {A : Type ℓ} (f : ℕ → A) (i : ℕ) (a b : A) → b ≡ f i → update (update f i a) i b ≡ f
update_back f i a b e = fun_ext λ j. elim (Bool-cases (j == i)) [
  | inl same ↦ rw same (e ∙ ap f (sym (eq_of_== j i same)))
  | inr other ↦ rw other refl
]

-- One more section, begun and ended, changes nothing.
pub popped-pushed : (i : ℕ) (m : Machine) → Inside i m → popped i (pushed i m) ≡ m
popped-pushed i m in_ =
    ap₂ (λ c f. record m { cpus = c; if_flag = f }) (update_back m.cpus i (entered i m) _ same) flag
  where
    layer : ((m.cpus i).int_disable_layer + 1) % 2 ^ 32 - 1 ≡ (m.cpus i).int_disable_layer
    layer = omega (arith, in_.bounded)

    same :
        record ((pushed i m).cpus i) {
          int_disable_layer = ((pushed i m).cpus i).int_disable_layer - 1;
        }
        ≡ m.cpus i
    same =
        rw (==_refl i, layer, ==_of_ne (m.cpus i).int_disable_layer 0 (omega (arith, in_.deep)))
          refl

    flag : (popped i (pushed i m)).if_flag ≡ m.if_flag
    flag =
        rw (==_refl i, layer, ==_of_ne (m.cpus i).int_disable_layer 0 (omega (arith, in_.deep)))
          (sym in_.off)

pub cur_cpu-ok : (i : ℕ) (m : Machine) → RunsOn i m → m.if_flag ≡ false → cur_cpu m ≡ ok i m
unfolding cur_cpu
cur_cpu-ok i m here off = rw (off, here) (ap (λ f. ok i (record m { if_flag = f })) off)

pub pop-pushed : (i : ℕ) (m : Machine) → Inside i m → pop_int_disable (pushed i m) ≡ ok tt m
pop-pushed i m in_ =
    pop_int_disable-ok (pushed i m) i (RunsOn-pushed i m in_.here) refl
      (rw (==_refl i) (omega (arith, in_.bounded))) (rw (==_refl i) (omega (arith, in_.bounded)))
    ∙ ap (ok tt) (popped-pushed i m in_)

pub holding-ok :
    (l : LockId) (i : ℕ) (m : Machine)
    → Inside i m
    → holding l m ≡ ok ((m.lock l).locked && is_cpu (m.lock l).cpu i) m
unfolding holding
holding-ok l i m in_ = rw (push_int_disable-ok m i in_.here) (elim (Bool-cases (m.lock l).locked) [
  | inl e ↦
      rw (e, cur_cpu-ok i (pushed i m) (RunsOn-pushed i m in_.here) refl, pop-pushed i m in_) refl
  | inr e ↦ rw (e, pop-pushed i m in_) refl
])

-- The state after `acquire` of a free lock, and after `release` of a held one.
abbrev pub acquired : ℕ → LockId → Machine → Machine
acquired i l m = record (pushed i m) {
  lock = update m.lock l (record { locked = true; cpu = some i });
}

abbrev pub released : ℕ → LockId → Machine → Machine
released i l m =
    popped i (record m { lock = update m.lock l (record { locked = false; cpu = none }) })

-- What `acquire` needs: the CPU is known, and its depth does not overflow.
pub record Ready (i : ℕ) (m : Machine) : Type 0 where
  pub here : RunsOn i m
  pub bounded : (m.cpus i).int_disable_layer + 2 < 2 ^ 32

Inside-pushed : (i : ℕ) (m : Machine) → Ready i m → Inside i (pushed i m)
Inside-pushed i m r = record {
  here = RunsOn-pushed i m r.here;
  off = refl;
  deep = rw (==_refl i) (omega (arith, r.bounded));
  bounded = rw (==_refl i) (omega (arith, r.bounded));
}

pub update-update {ℓ} :
    {A : Type ℓ} (f : ℕ → A) (i : ℕ) (a b : A) → update (update f i a) i b ≡ update f i b
update-update f i a b =
    fun_ext λ j. elim (Bool-cases (j == i)) [ inl same ↦ rw same refl | inr other ↦ rw other refl ]

spin-free :
    (fuel : ℕ) (l : LockId) (m : Machine)
    → (m.lock l).locked ≡ false
    → spin (suc fuel) l m
      ≡ ok tt (record m { lock = update m.lock l (record (m.lock l) { locked = true }) })
unfolding spin exchange
spin-free fuel l m free = rw free refl

-- `acquire` of a free lock takes it for this CPU and enters one more section with interrupts off.
pub acquire-free :
    (fuel : ℕ) (l : LockId) (i : ℕ) (m : Machine)
    → Ready i m
    → (m.lock l).locked ≡ false
    → acquire (suc fuel) l m ≡ ok tt (acquired i l m)
unfolding acquire
acquire-free fuel l i m r free =
    let taken : Machine = record (pushed i m) {
      lock = update m.lock l (record (m.lock l) { locked = true });
    } in
    rw
      (
        push_int_disable-ok m i r.here,
        holding-ok l i (pushed i m) (Inside-pushed i m r),
        free,
        spin-free fuel l (pushed i m) free,
        cur_cpu-ok i taken (RunsOn-pushed i m r.here) refl,
        ==_refl l,
        update-update m.lock l (record (m.lock l) { locked = true })
            (record { locked = true; cpu = some i }),
      )
      refl

-- `release` by the holder frees the lock and leaves the section.
pub release-held :
    (l : LockId) (i : ℕ) (m : Machine)
    → Inside i m
    → m.lock l ≡ record { locked = true; cpu = some i }
    → release l m ≡ ok tt (released i l m)
unfolding release
release-held l i m in_ mine =
    let unlocked : Machine = record m {
      lock = update m.lock l (record { locked = false; cpu = none });
    } in
    rw
      (
        holding-ok l i m in_,
        mine,
        ==_refl i,
        ==_refl l,
        update-update m.lock l,
        pop_int_disable-ok unlocked i in_.here in_.off in_.deep (omega (arith, in_.bounded)),
      )
      refl

pub Inside-acquired : (i : ℕ) (l : LockId) (m : Machine) → Ready i m → Inside i (acquired i l m)
Inside-acquired i l m r =
    let inside = Inside-pushed i m r in
    record { here = inside.here; off = refl; deep = inside.deep; bounded = inside.bounded }

-- What a section under a lock leaves of the machine.
pub record Restored (l : LockId) (i : ℕ) (m m' : Machine) : Type 0 where
  pub lock : m'.lock l ≡ record { locked = false; cpu = none }
  pub others : (k : LockId) → k ≢ l → m'.lock k ≡ m.lock k
  pub flag : m'.if_flag ≡ m.if_flag
  pub layer : (m'.cpus i).int_disable_layer ≡ (m.cpus i).int_disable_layer
  pub here : RunsOn i m'

module _ (l : LockId) (i : ℕ) (m : Machine) (r : Ready i m) where
  pub release-acquired : release l (acquired i l m) ≡ ok tt (released i l (acquired i l m))
  release-acquired =
      release-held l i (acquired i l m) (Inside-acquired i l m r) (rw (==_refl l) refl)

  pub Restored-released :
      (0 < (m.cpus i).int_disable_layer → m.if_flag ≡ false)
      → Restored l i m (released i l (acquired i l m))
  Restored-released off = record {
    lock = rw (==_refl l) refl;
    others = λ k other. rw (==_of_ne k l other) refl;
    flag =
        rw (==_refl i, layer)
          (flag_back (m.cpus i).int_disable_layer m.if_flag (m.cpus i).int_enabled off);
    layer = rw (==_refl i) layer;
    here = RunsOn-popped i (record (acquired i l m) { lock = m.lock }) (RunsOn-pushed i m r.here);
  }
    where
      layer : ((m.cpus i).int_disable_layer + 1) % 2 ^ 32 - 1 ≡ (m.cpus i).int_disable_layer
      layer = omega (arith, r.bounded)
