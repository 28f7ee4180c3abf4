-- ===== src/Spinlock/Mutex.antt =====
-- The lock word of spinlock.c under any number of CPUs that interleave at each access to it.
use guide_os.Prelude.{ℕ, ◌≡◌, refl, Bool, true, false, none, some, arith}
use guide_os.Cpu.{Spinlock, update}

-- Where a CPU stands between `acquire` and `release`: the exchange loop, the write of `cpu`, the
-- critical section, the write `cpu = NULL`, and the store of 0.
pub data Pc : Type 0 where
  outside spinning won inside cleared : Pc

pub record System : Type 0 where
  pub lock : Spinlock
  pub pc : ℕ → Pc

-- From the exchange that takes the lock to the store that frees it.
abbrev pub critical : Pc → Bool
critical outside = false
critical spinning = false
critical won = true
critical inside = true
critical cleared = true

pub data Step (s : System) : System → Type 0 where
  begin : (i : ℕ) → s.pc i ≡ outside → Step s (record s { pc = update s.pc i spinning })
  exchange_taken :
      (i : ℕ)
      → s.pc i ≡ spinning
      → s.lock.locked ≡ true
      → Step s (record s { lock = record (s.lock) { locked = true } })
  exchange_free :
      (i : ℕ)
      → s.pc i ≡ spinning
      → s.lock.locked ≡ false
      → Step s (record s { lock = record (s.lock) { locked = true }; pc = update s.pc i won })
  set_cpu :
      (i : ℕ)
      → s.pc i ≡ won
      → Step s (record s { lock = record (s.lock) { cpu = some i }; pc = update s.pc i inside })
  clear_cpu :
      (i : ℕ)
      → s.pc i ≡ inside
      → Step s (record s { lock = record (s.lock) { cpu = none }; pc = update s.pc i cleared })
  store_free :
      (i : ℕ)
      → s.pc i ≡ cleared
      → Step s (record s { lock = record (s.lock) { locked = false }; pc = update s.pc i outside })

-- after `init_lock`
abbrev pub initial : System
initial = record { lock = record { locked = false; cpu = none }; pc = λ i. outside }

pub data Reach : System → Type 0 where
  start : Reach initial
  later : {s t : System} → Reach s → Step s t → Reach t

record Inv (s : System) : Type 0 where
  unique : (i j : ℕ) → critical (s.pc i) ≡ true → critical (s.pc j) ≡ true → i ≡ j
  taken : (i : ℕ) → critical (s.pc i) ≡ true → s.lock.locked ≡ true
  named : (i : ℕ) → s.pc i ≡ inside → s.lock.cpu ≡ some i

Step-Inv : {s t : System} → Step s t → Inv s → Inv t
Step-Inv {s} (begin i e) v = record {
  unique = λ j k. ground (arith, v.unique j k);
  taken = λ j. ground (arith, v.taken j);
  named = λ j. ground (arith, v.named j);
}
Step-Inv (exchange_taken i e l) v = record {
  unique = v.unique;
  taken = λ j c. refl;
  named = v.named;
}
Step-Inv (exchange_free i e l) v = record {
  unique = λ j k. ground (arith, v.taken j, v.taken k);
  taken = λ j c. refl;
  named = λ j. ground (arith, v.taken j);
}
Step-Inv (set_cpu i e) v = record {
  unique = λ j k. ground (arith, v.unique j k, v.unique i j, v.unique i k);
  taken = λ j. ground (arith, v.taken j, v.taken i);
  named = λ j. ground (arith, v.unique i j);
}
Step-Inv (clear_cpu i e) v = record {
  unique = λ j k. ground (arith, v.unique j k, v.unique i j, v.unique i k);
  taken = λ j. ground (arith, v.taken j, v.taken i);
  named = λ j. ground (arith, v.unique i j);
}
Step-Inv (store_free i e) v = record {
  unique = λ j k. ground (arith, v.unique j k, v.unique i j, v.unique i k);
  taken = λ j. ground (arith, v.unique i j);
  named = λ j. ground (arith, v.named j);
}

Reach-Inv : {s : System} → Reach s → Inv s
Reach-Inv start = record { unique = λ i j a b. cc; taken = λ i a. cc; named = λ i a. cc }
Reach-Inv (later r step) = Step-Inv step (Reach-Inv r)

-- At most one CPU is between its successful exchange in `acquire` and its store of 0 in `release`. The
-- lock is taken while one is, and from the write of `cpu` to its reset it names that CPU.
pub mutual_exclusion :
    {s : System} (i j : ℕ)
    → Reach s
    → critical (s.pc i) ≡ true
    → critical (s.pc j) ≡ true
    → (i ≡ j) × (s.lock.locked ≡ true) × (s.pc j ≡ inside → s.lock.cpu ≡ some j)
mutual_exclusion {s} i j r a b = let v = Reach-Inv r in (v.unique i j a b, v.taken j b, v.named j)
