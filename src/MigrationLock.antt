-- ===== src/MigrationLock.antt =====
-- core/migration_lock.py and run_migrations of alembic/env.py, for any number of processes that start
-- at once. The advisory lock of Postgres has the session that holds it; it is given back by
-- `pg_advisory_unlock`, and when the connection of that session ends.
pub mod Exclusion
use fasti_kit.Base.{ℕ, Bool, true, false, Option, none, some, ◌≡◌, ◌≢◌, if◌then◌else◌, nat_eq, ◌==◌}

-- Where a process stands in `migration_lock`.
pub data Pc : Type 0 where
  started : Pc  -- before `_try_lock`
  waiting : Pc  -- in `SELECT pg_advisory_lock`
  locked : Pc  -- before the first commit
  migrating : Pc  -- at the `yield`
  unlocked : Pc  -- before the second commit
  ended : Pc  -- its connection is closed

-- the session that holds the lock, and every process
pub record System : Type 0 where
  pub holder : Option ℕ
  pub pc : ℕ → Pc

abbrev pub init : System
init = record { holder = none; pc = λ i. started }

abbrev pub goes : ℕ → Pc → (ℕ → Pc) → ℕ → Pc
goes i next pc j = if j == i then next else pc j

-- what `pg_advisory_unlock` and the end of a connection leave of the lock
abbrev pub without : ℕ → Option ℕ → Option ℕ
without i none = none
without i (some j) = if j == i then none else some j

-- A statement of one process. `drop` is an exception at any point, or the death of the process: the
-- context manager has no `finally`, and the connection ends.
pub data Step (s : System) : System → Type 0 where
  try_lock :
      (i : ℕ)
      → s.pc i ≡ started
      → s.holder ≡ none
      → Step s (record { holder = some i; pc = goes i locked s.pc })
  try_fails :
      (i j : ℕ)
      → s.pc i ≡ started
      → s.holder ≡ some j
      → Step s (record { holder = some j; pc = goes i waiting s.pc })
  lock :
      (i : ℕ)
      → s.pc i ≡ waiting
      → s.holder ≡ none
      → Step s (record { holder = some i; pc = goes i locked s.pc })
  commit_lock :
      (i : ℕ) → s.pc i ≡ locked → Step s (record { holder = s.holder; pc = goes i migrating s.pc })
  unlock :
      (i : ℕ)
      → s.pc i ≡ migrating
      → Step s (record { holder = without i s.holder; pc = goes i unlocked s.pc })
  commit_unlock :
      (i : ℕ)
      → s.pc i ≡ unlocked
      → Step s (record { holder = without i s.holder; pc = goes i ended s.pc })
  drop : (i : ℕ) → Step s (record { holder = without i s.holder; pc = goes i ended s.pc })

pub data Reach : System → Type 0 where
  start : Reach init
  later : {s t : System} → Reach s → Step s t → Reach t

-- between the lock and its release
abbrev pub critical : Pc → Bool
critical locked = true
critical migrating = true
critical pc = false
