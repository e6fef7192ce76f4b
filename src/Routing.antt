-- ===== src/Routing.antt =====
-- core/database.py: which engine a statement goes to, and the failover of a read to the primary. The
-- test override of the engine is left out.
pub mod Failover
use fasti_kit.Base.{
  Bool, ℕ, String, true, false, ◌||◌, List, [], ◌∷◌, ◌++◌, if◌then◌else◌, string_eq, nat_eq, ◌==◌,
}

-- What `get_bind` gets as its clause: a Core statement, a text, or none of these (a flush of the unit of
-- work, a commit, DDL). A text has its normalised form, and whether it changes data when Postgres runs
-- it, which `get_bind` does not know.
pub data Clause : Type 0 where
  insert_clause update_clause delete_clause select_clause : Clause
  text_clause : Bool → String → Clause
  unknown : Clause

pub data Engine : Type 0 where
  primary replica : Engine

-- `s.startswith(prefix)`
abbrev pub starts_with : String → String → Bool
starts_with s String.[] = true
starts_with String.[] (String.◌∷◌ c prefix) = false
starts_with (String.◌∷◌ d s) (String.◌∷◌ c prefix) =
    let rest = starts_with s prefix in
    if String.◌∷◌ d String.[] == String.◌∷◌ c String.[] then rest else false

-- `query_text.startswith(("insert", ...))`
abbrev pub writes_text : String → Bool
writes_text query =
    starts_with query "insert"
    || starts_with query "update"
    || starts_with query "delete"
    || starts_with query "create"
    || starts_with query "drop"
    || starts_with query "alter"

-- `RoutingSession.get_bind`: the engine, and the flag after it
unfoldable pub get_bind : Clause → Bool → Engine × Bool
get_bind clause true = (primary, true)
get_bind insert_clause false = (primary, true)
get_bind update_clause false = (primary, true)
get_bind delete_clause false = (primary, true)
get_bind select_clause false = (replica, false)
get_bind (text_clause changes query) false = (primary, writes_text query)
get_bind unknown false = (primary, false)

-- A session of the database: objects that were added and are not flushed (`new`, `dirty`, `deleted`),
-- writes that the open transaction has made, and the flag of the context.
pub record Session : Type 0 where
  pub pending : List ℕ
  pub written : List ℕ
  pub force_primary : Bool

abbrev pub is_empty : List ℕ → Bool
is_empty [] = true
is_empty (x ∷ xs) = false

-- `_can_fail_over`
unfoldable pub can_fail_over : Session → Bool
can_fail_over s = if s.force_primary then false else is_empty s.pending

-- `await self.rollback()`: what is pending is expunged, and the writes are undone.
abbrev pub rollback : Session → Session
rollback s = record s { pending = []; written = [] }

-- the effect of a clause that succeeded
abbrev pub effect : Clause → ℕ → Session → Session
effect insert_clause id s = record s { written = s.written ++ id ∷ [] }
effect update_clause id s = record s { written = s.written ++ id ∷ [] }
effect delete_clause id s = record s { written = s.written ++ id ∷ [] }
effect select_clause id s = s
effect (text_clause changes query) id s =
    if changes then record s { written = s.written ++ id ∷ [] } else s
effect unknown id s = s

-- `done` on an engine, or an `OperationalError`
pub data Outcome : Type 0 where
  done : Engine → Outcome
  failed : Outcome

abbrev served : Bool → Engine → Clause → ℕ → Session → Outcome × Session
served true engine clause id s = (failed, s)
served false engine clause id s = (done engine, effect clause id s)

-- one run of a statement; `down` tells the engines that are out of reach
unfoldable pub attempt : Clause → ℕ → (Engine → Bool) → Session → Outcome × Session
attempt clause id down s =
    let (engine, flag) = get_bind clause s.force_primary in
    served (down engine) engine clause id (record s { force_primary = flag })

abbrev pub fail_over : Clause → ℕ → (Engine → Bool) → Outcome × Session → Outcome × Session
fail_over clause id down (done engine, s) = (done engine, s)
fail_over clause id down (failed, s) =
    if can_fail_over s
    then attempt clause id down (rollback (record s { force_primary = true }))
    else (failed, s)

-- `_with_failover`, under which `execute`, `scalar` and `get` run; the second run may find other engines
-- out of reach than the first.
unfoldable pub execute :
    Clause → ℕ → (Engine → Bool) → (Engine → Bool) → Session → Outcome × Session
execute clause id down_first down_again s =
    fail_over clause id down_again (attempt clause id down_first s)

-- What a repository does with its session between two commits.
pub data Operation : Type 0 where
  add : ℕ → Operation
  flush : Operation
  statement : Clause → ℕ → (Engine → Bool) → (Engine → Bool) → Operation

-- A flush does nothing if nothing is pending; else `_pin_primary_on_flush` comes first.
unfoldable pub operate : Operation → Session → Session
operate (add id) s = record s { pending = s.pending ++ id ∷ [] }
operate flush s =
    if is_empty s.pending
    then s
    else record { pending = []; written = s.written ++ s.pending; force_primary = true }
operate (statement clause id down_first down_again) s =
    (execute clause id down_first down_again s).1

unfoldable pub operate_all : List Operation → Session → Session
operate_all [] s = s
operate_all (o ∷ os) s = operate_all os (operate o s)
