-- ===== src/Startup.antt =====
-- core/startup_checks.py and the lifespan of main.py: what stands in the way of a start, and what the end
-- of the process releases. Whether PostgreSQL answers, and how each release ends, are parameters.
pub mod Released
use fasti_kit.Base.{
  ℕ, String, Bool, true, false, Option, none, some, List, [], ◌∷◌, ◌++◌, if◌then◌else◌, string_eq,
  nat_eq, ◌==◌,
}

-- the settings that the checks read
pub record Required : Type 0 where
  pub mail_from : String
  pub mail_port : ℕ
  pub mail_server : String
  pub jwt_secret_key : String
  pub jwt_algorithm : String

-- a `StartupCheckError`: of the primary, or with the names of the settings that are missing
pub data StartupCheckError : Type 0 where
  primary_unreachable : StartupCheckError
  missing_mail missing_jwt : List String → StartupCheckError

-- `[key for key, value in required.items() if not value]`, on keys with whether their value is empty
unfoldable pub missing : List (String × Bool) → List String
missing [] = []
missing ((key, is_empty) ∷ rest) =
    let later = missing rest in if is_empty then key ∷ later else later

abbrev pub failing : (List String → StartupCheckError) → List String → Option StartupCheckError
failing fail [] = none
failing fail (key ∷ keys) = some (fail (key ∷ keys))

unfoldable pub check_mail_config : Required → Option StartupCheckError
check_mail_config s = failing missing_mail (
    missing (
      ("MAIL_FROM", s.mail_from == "")
      ∷ ("MAIL_PORT", s.mail_port == 0)
      ∷ ("MAIL_SERVER", s.mail_server == "")
      ∷ []))

unfoldable pub check_jwt_config : Required → Option StartupCheckError
check_jwt_config s = failing missing_jwt (
    missing
      (("JWT_SECRET_KEY", s.jwt_secret_key == "") ∷ ("JWT_ALGORITHM", s.jwt_algorithm == "") ∷ []))

-- What the process does: the warning on the replica, the log of a failed check, the time in which it
-- serves, each call that closes something with whether it succeeded, and the log of a closer that
-- raised.
pub data Resource : Type 0 where
  primary_engine replica_engine redis : Resource

pub data Event : Type 0 where
  replica_unreachable : Event
  checks_failed : StartupCheckError → Event
  serving : Event
  closed : Resource → Bool → Event
  not_released : String → Event

-- the events of `check_database`, and its error
unfoldable pub check_database : Bool → Bool → List Event × Option StartupCheckError
check_database primary replica =
    if primary
    then (if replica then ([], none) else (replica_unreachable ∷ [], none))
    else ([], some primary_unreachable)

-- how the closing of each pool and of the client ends, `false` where it raises
pub record Closing : Type 0 where
  pub primary_closes : Bool
  pub replica_closes : Bool
  pub redis_closes : Bool

-- what a closer does, and whether it returns
abbrev pub Closer : Type 0
Closer = List Event × Bool

unfoldable pub dispose_engines : Closing → Closer
dispose_engines c =
    if c.primary_closes
    then (
      closed primary_engine true ∷ closed replica_engine c.replica_closes ∷ [],
      c.replica_closes,
    )
    else (closed primary_engine false ∷ [], false)

unfoldable pub close_redis : Closing → Closer
close_redis c = (closed redis c.redis_closes ∷ [], c.redis_closes)

-- the loop over the closers, with `logger.exception` where one raises
unfoldable pub release : List (String × Closer) → List Event
release [] = []
release ((label, (events, returns)) ∷ rest) =
    let later = release rest in events ++ (if returns then later else not_released label ∷ later)

-- the first error of two checks
abbrev pub or_else : Option StartupCheckError → Option StartupCheckError → Option StartupCheckError
or_else (some e) later = some e
or_else none later = later

-- where the checks have passed: the requests, and then `finally`
unfoldable pub run : Closing → List Event
run c = serving ∷ release (("database engines", dispose_engines c) ∷ ("redis", close_redis c) ∷ [])

abbrev pub run_unless : Option StartupCheckError → Closing → List Event
run_unless (some e) c = checks_failed e ∷ []
run_unless none c = run c

-- `lifespan`, whether or not the application raises at the `yield`
unfoldable pub lifespan : Required → Bool → Bool → Closing → List Event
lifespan settings primary replica c =
    let (warnings, error) = check_database primary replica in
    warnings
    ++ run_unless (or_else (or_else error (check_mail_config settings)) (check_jwt_config settings))
        c
