-- ===== src/Cpu/Nesting.antt =====
-- How `push_int_disable` and `pop_int_disable` of cpu.c nest.
use guide_os.Prelude.{
  ℕ, zero, suc, ◌+◌, ◌-◌, ◌%◌, ◌^◌, ◌<◌, ◌≡◌, refl, subst, ap, ◌∙◌, Bool, true, false, some, arith,
  ◌==◌, ◌&&◌, ltb, ltb_of_le, ==_refl, ==_of_ne, Bool-cases, inl, inr, if◌then◌else◌, Returns,
  returns, bind-Returns, weaken-Returns, Cmd, pure, ◌>>◌, ok,
}
use guide_os.Cpu.{
  Cpu, Machine, update, find_cpu, cur_cpu, disable_interrupt, enable_interrupt, push_int_disable,
  pop_int_disable,
}

-- The executing CPU is `cpus[i]`.
abbrev pub RunsOn : ℕ → Machine → Type 0
RunsOn i m = find_cpu m.cpus m.lapic_id m.ncpu 0 ≡ some i

find_cpu-same :
    (f g : ℕ → Cpu) (id n i : ℕ)
    → ((j : ℕ) → (g j).apicid ≡ (f j).apicid)
    → find_cpu g id n i ≡ find_cpu f id n i
unfolding find_cpu
find_cpu-same f g id zero i same = refl
find_cpu-same f g id (suc n) i same = rw (same i, find_cpu-same f g id n (i + 1) same)

pub find_cpu-update :
    (f : ℕ → Cpu) (k : ℕ) (c : Cpu) (id n i : ℕ)
    → c.apicid ≡ (f k).apicid
    → find_cpu (update f k c) id n i ≡ find_cpu f id n i
find_cpu-update f k c id n i e = find_cpu-same f (update f k c) id n i (λ j. ground arith)

-- The state after `push_int_disable` on CPU `i`, and after `pop_int_disable`.
abbrev pub entered : ℕ → Machine → Cpu
entered i m = record (m.cpus i) {
  int_enabled = if (m.cpus i).int_disable_layer == 0 then m.if_flag else (m.cpus i).int_enabled;
  int_disable_layer = ((m.cpus i).int_disable_layer + 1) % 2 ^ 32;
}

abbrev pub pushed : ℕ → Machine → Machine
pushed i m = record m { if_flag = false; cpus = update m.cpus i (entered i m) }

pub RunsOn-pushed : (i : ℕ) (m : Machine) → RunsOn i m → RunsOn i (pushed i m)
RunsOn-pushed i m here = find_cpu-update m.cpus i (entered i m) m.lapic_id m.ncpu 0 refl ∙ here

pub push_int_disable-ok :
    (m : Machine) (i : ℕ) → RunsOn i m → push_int_disable m ≡ ok tt (pushed i m)
unfolding push_int_disable disable_interrupt cur_cpu
push_int_disable-ok m i here = rw here refl

abbrev pub popped : ℕ → Machine → Machine
popped i m = record m {
  if_flag =
      if (m.cpus i).int_disable_layer - 1 == 0 && (m.cpus i).int_enabled then true else m.if_flag;
  cpus =
      update m.cpus i (record (m.cpus i) { int_disable_layer = (m.cpus i).int_disable_layer - 1 });
}

pub RunsOn-popped : (i : ℕ) (m : Machine) → RunsOn i m → RunsOn i (popped i m)
RunsOn-popped i m here = find_cpu-update m.cpus i _ m.lapic_id m.ncpu 0 refl ∙ here

pub pop_int_disable-ok :
    (m : Machine) (i : ℕ)
    → RunsOn i m
    → m.if_flag ≡ false
    → 0 < (m.cpus i).int_disable_layer
    → (m.cpus i).int_disable_layer < 2 ^ 32
    → pop_int_disable m ≡ ok tt (popped i m)
unfolding pop_int_disable enable_interrupt cur_cpu
pop_int_disable-ok m i here off pos small =
    let layer : ((m.cpus i).int_disable_layer + 2 ^ 32 - 1) % 2 ^ 32
        ≡ (m.cpus i).int_disable_layer - 1 =
      omega arith in
    let no_panic : ltb ((m.cpus i).int_disable_layer - 1) 0 ≡ false = ltb_of_le _ _ (omega arith) in
    rw (off, here, layer, no_panic)
      (elim (Bool-cases ((m.cpus i).int_disable_layer - 1 == 0 && (m.cpus i).int_enabled)) [
        | inl e ↦ rw e refl
        | inr e ↦ rw e (ap (λ b. ok tt (record m { if_flag = b; cpus = (popped i m).cpus })) off)
      ])

-- At layer 0 `pop_int_disable` does not panic: the layer wraps to 2^32 - 1, and the interrupt flag
-- stays as it is.
pub pop_int_disable-zero :
    (m : Machine) (i : ℕ)
    → RunsOn i m
    → m.if_flag ≡ false
    → (m.cpus i).int_disable_layer ≡ 0
    → Returns
        (λ r m'. ((m'.cpus i).int_disable_layer ≡ 2 ^ 32 - 1) × (m'.if_flag ≡ false))
        (pop_int_disable m)
unfolding pop_int_disable enable_interrupt cur_cpu
pop_int_disable-zero m i here off zero_layer =
    rw (off, here, zero_layer) (returns (rw ==_refl refl, off))

-- `depth` critical sections, one in the other.
unfoldable pub nest : ℕ → Cmd Machine (Unit {0})
nest zero = pure tt
nest (suc depth) = do push_int_disable; nest depth; pop_int_disable

-- The executing CPU is `cpus[i]`, at depth `layer`, with interrupt flag `flag`; `enabled` is what
-- the outermost section has saved.
record At (i : ℕ) (m : Machine) (layer : ℕ) (flag enabled : Bool) : Type 0 where
  here : RunsOn i m
  layer_is : (m.cpus i).int_disable_layer ≡ layer
  flag_is : m.if_flag ≡ flag
  enabled_is : (m.cpus i).int_enabled ≡ enabled

At-pushed :
    (i : ℕ) (m : Machine) (layer : ℕ) (flag enabled : Bool)
    → At i m layer flag enabled
    → layer + 1 < 2 ^ 32
    → At i (pushed i m) (layer + 1) false (if layer == 0 then flag else enabled)
At-pushed i m layer flag enabled at small = record {
  here = RunsOn-pushed i m at.here;
  layer_is = rw (==_refl i) (omega (arith, at.layer_is));
  flag_is = refl;
  enabled_is = rw (==_refl i, at.layer_is, at.flag_is, at.enabled_is) refl;
}

At-popped :
    (i : ℕ) (m : Machine) (layer : ℕ) (enabled : Bool)
    → At i m (layer + 1) false enabled
    → At i (popped i m) layer (if layer == 0 && enabled then true else false) enabled
At-popped i m layer enabled at = record {
  here = RunsOn-popped i m at.here;
  layer_is = rw (==_refl i) (omega (arith, at.layer_is));
  flag_is =
      let down : (m.cpus i).int_disable_layer - 1 ≡ layer = omega (arith, at.layer_is) in
      rw (down, at.flag_is, at.enabled_is) refl;
  enabled_is = rw (==_refl i) at.enabled_is;
}

-- What `pop_int_disable` sets the flag to, at the end of the section that saved it.
pub flag_back :
    (layer : ℕ) (flag enabled : Bool)
    → (0 < layer → flag ≡ false)
    → (if layer == 0 && (if layer == 0 then flag else enabled) then true else false) ≡ flag
flag_back layer flag enabled off = ground arith

saved_back :
    (layer : ℕ) (flag enabled : Bool) → 0 < layer → (if layer == 0 then flag else enabled) ≡ enabled
saved_back layer flag enabled pos = rw (==_of_ne layer 0 (omega arith))

nest-At :
    (depth i : ℕ) (m : Machine) (layer : ℕ) (flag enabled : Bool)
    → At i m layer flag enabled
    → (0 < layer → flag ≡ false)
    → layer + depth < 2 ^ 32
    → Returns (λ r m'. (e : Bool) × At i m' layer flag e × (0 < layer → e ≡ enabled)) (nest depth m)
unfolding nest
nest-At zero i m layer flag enabled at off small = returns (enabled, at, λ pos. refl)
nest-At (suc depth) i m layer flag enabled at off small =
    let saved : Bool = if layer == 0 then flag else enabled in
    rw (push_int_disable-ok m i at.here) (
      bind-Returns
        (nest-At depth i (pushed i m) (layer + 1) false saved
          (At-pushed i m layer flag enabled at (omega arith)) (λ pos. refl) (omega arith))
        λ r m' (e, at', kept).
          let back : e ≡ saved = kept (omega arith) in
          rw
            (pop_int_disable-ok m' i at'.here at'.flag_is (omega (arith, at'.layer_is))
              (omega (arith, at'.layer_is)))
            (returns (
              e,
              subst (λ b. At i (popped i m') layer b e)
                  (ap (λ b. if layer == 0 && b then true else false) back
                    ∙ flag_back layer flag enabled off)
                  (At-popped i m' layer e at'),
              λ pos. back ∙ saved_back layer flag enabled pos,
            )))

-- From depth 0, any number of nested `push_int_disable` and `pop_int_disable` below 2^32 ends with
-- the interrupt flag and the depth as they were.
pub nest-restores :
    (depth i : ℕ) (m : Machine)
    → RunsOn i m
    → (m.cpus i).int_disable_layer ≡ 0
    → depth < 2 ^ 32
    → Returns
        (λ r m'. (m'.if_flag ≡ m.if_flag) × ((m'.cpus i).int_disable_layer ≡ 0) × RunsOn i m')
        (nest depth m)
nest-restores depth i m here zero_layer small =
    weaken-Returns
      (nest-At depth i m 0 m.if_flag (m.cpus i).int_enabled
        (record { here = here; layer_is = zero_layer; flag_is = refl; enabled_is = refl })
        (λ pos. absurd (omega arith)) (omega arith))
      λ r m' (e, at, _). (at.flag_is, at.layer_is, at.here)
