-- ===== src/Health.antt =====
-- core/health.py: the probes of the service. What a probe of PostgreSQL, Redis or SAQ gives is a
-- parameter: `none`, or the error that it raised, a timeout among them. The probe of the outbox is the
-- program's own.
pub mod Backlog
use fasti_kit.Outbox.{oldest_pending_age}
use fasti_kit.Base.{
  ℕ, String, ◌<>◌, Bool, true, false, ◌&&◌, Option, none, some, List, [], ◌∷◌, ltb, is_none,
  if◌then◌else◌, string_eq, nat_eq, ◌==◌,
}
use fasti_kit.Exceptions.{Error, Result, ok, err}
use fasti_kit.Model.{DateTime}
use fasti_kit.World.{World, db_session}

-- an exception by its text and the name of its type
pub record ProbeError : Type 0 where
  pub message : String
  pub type_name : String

abbrev pub told : Option ProbeError → String
told none = "ok"
told (some e) = "unhealthy: " <> (if e.message == "" then e.type_name else e.message)

pub record Report : Type 0 where
  pub status_code : ℕ
  pub status : String
  pub checks : List (String × String)

-- the loop over the names and the results: the report, and whether all is healthy
unfoldable pub report_of : List (String × Option ProbeError) → List (String × String) × Bool
report_of [] = ([], true)
report_of ((name, result) ∷ checks) =
    let (report, is_healthy) = report_of checks in
    ((name, told result) ∷ report, is_none result && is_healthy)

abbrev pub answer_of : List (String × String) × Bool → Report
answer_of (report, is_healthy) =
    if is_healthy
    then record { status_code = 200; status = "ok"; checks = report }
    else record { status_code = 503; status = "unhealthy"; checks = report }

-- `_run_checks`, on the results that `gather` collects
unfoldable pub run_checks : List (String × Option ProbeError) → Report
run_checks checks = answer_of (report_of checks)

unfoldable pub readiness : Option ProbeError → Option ProbeError → Option ProbeError → Report
readiness primary replica redis =
    run_checks
      (("database_primary", primary) ∷ ("database_replica", replica) ∷ ("redis", redis) ∷ [])

-- `describe` is the exception that an error is, and `lag_text` the text of an age in seconds.
module _ (describe : Error → ProbeError) (lag_text : ℕ → String) where
  abbrev pub too_old : ℕ → Result (Option ℕ) → Option ProbeError
  too_old max_lag (err e) = some (describe e)
  too_old max_lag (ok none) = none
  too_old max_lag (ok (some age)) =
      if ltb max_lag age
      then some (record {
        message = "oldest pending outbox row is " <> lag_text age <> "s old";
        type_name = "RuntimeError";
      })
      else none

  -- `wait_for`: the check may be cut short
  abbrev pub unless_cut : Option ProbeError → Option ProbeError → Option ProbeError
  unless_cut none result = result
  unless_cut (some e) result = some e

  -- `_check_outbox_backlog` in the session of the request; `max_lag` is in microseconds
  unfoldable pub check_outbox_backlog : ℕ → World → Option ProbeError × World
  check_outbox_backlog max_lag w =
      let (r, w') = db_session oldest_pending_age w in (too_old max_lag r, w')

  unfoldable pub workers :
      ℕ → Option ProbeError → Option ProbeError → Option ProbeError → World → Report × World
  workers max_lag worker heartbeat cut w =
      let (backlog, w') = check_outbox_backlog max_lag w in
      (
        run_checks (
            ("worker", worker)
            ∷ ("outbox_relay", heartbeat)
            ∷ ("outbox_backlog", unless_cut cut backlog)
            ∷ []),
        w',
      )
