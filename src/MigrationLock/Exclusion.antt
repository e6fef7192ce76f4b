-- ===== src/MigrationLock/Exclusion.antt =====
-- core/migration_lock.py: who holds the lock, and who waits for it.
use fasti_kit.Base.{ℕ, Bool, false, true, some, ◌≡◌, arith, nat_eq}
use fasti_kit.MigrationLock.{
  migrating, System, Step, try_lock, try_fails, lock, commit_lock, unlock, commit_unlock, drop,
  Reach, start, later, critical,
}

-- The lock is held by exactly the process that is between its lock and its release.
record IsHeld (s : System) : Type 0 where
  holds : (i : ℕ) → critical (s.pc i) ≡ true → s.holder ≡ some i
  inside : (i : ℕ) → s.holder ≡ some i → critical (s.pc i) ≡ true

Step-IsHeld : {s t : System} → Step s t → IsHeld s → IsHeld t
Step-IsHeld {s} (try_lock i at free) h = record {
  holds = λ k inside. ground (arith, h.holds k);
  inside = λ k held. ground (arith, h.inside k);
}
Step-IsHeld {s} (try_fails i j at busy) h = record {
  holds = λ k inside. ground (arith, h.holds k);
  inside = λ k held. ground (arith, h.inside k);
}
Step-IsHeld {s} (lock i at free) h = record {
  holds = λ k inside. ground (arith, h.holds k);
  inside = λ k held. ground (arith, h.inside k);
}
Step-IsHeld {s} (commit_lock i at) h = record {
  holds = λ k inside. ground (arith, h.holds k);
  inside = λ k held. ground (arith, h.inside k, h.holds i);
}
Step-IsHeld {s} (unlock i at) h = record {
  holds = λ k inside. ground (arith, h.holds k, h.holds i);
  inside = λ k held. ground (arith, h.inside k);
}
Step-IsHeld {s} (commit_unlock i at) h = record {
  holds = λ k inside. ground (arith, h.holds k);
  inside = λ k held. ground (arith, h.inside k);
}
Step-IsHeld {s} (drop i) h = record {
  holds = λ k inside. ground (arith, h.holds k);
  inside = λ k held. ground (arith, h.inside k);
}

Reach-IsHeld : {s : System} → Reach s → IsHeld s
Reach-IsHeld start = record { holds = λ i h. cc; inside = λ i h. cc }
Reach-IsHeld (later r step) = Step-IsHeld step (Reach-IsHeld r)

-- In every state that any number of processes reach, whatever the order of their statements and
-- wherever one fails or dies: at most one is between its lock and its release, so at most one
-- migrates.
pub one_at_a_time :
    {s : System} (reached : Reach s) (first other : ℕ)
    → critical (s.pc first) ≡ true
    → critical (s.pc other) ≡ true
    → first ≡ other
one_at_a_time reached first other in_first in_other =
    let held = Reach-IsHeld reached in
    ground (arith, held.holds first in_first, held.holds other in_other)

-- a statement of the context manager, and neither an exception nor the end of a process
unfoldable pub is_own : {s t : System} → Step s t → Bool
is_own (try_lock i at free) = true
is_own (try_fails i j at busy) = true
is_own (lock i at free) = true
is_own (commit_lock i at) = true
is_own (unlock i at) = true
is_own (commit_unlock i at) = true
is_own (drop i) = false

-- the states that some statements lead to, where no process fails or ends before its last statement
pub data Leads (s : System) : System → Type 0 where
  here : Leads s s
  next : {t u : System} → Leads s t → (step : Step t u) → is_own step ≡ true → Leads s u

-- `i` gets to migrate
abbrev pub Migrates : ℕ → System → Type 0
Migrates i s = (t : System) × Leads s t × (t.pc i ≡ migrating)
