-- ===== src/Startup/Released.antt =====
-- core/startup_checks.py and the lifespan of main.py: when the process serves, and what it
-- releases.
use fasti_kit.Base.{
  ◌&&◌, ◌++◌, if◌then◌else◌, String, Bool, true, false, Option, none, some, List, [], ◌∷◌, ◌≡◌, ◌≢◌,
  refl, arith, string_eq, nat_eq, ◌==◌,
}
use fasti_kit.Startup.{
  Required, StartupCheckError, missing, check_mail_config, check_jwt_config, check_database,
  Resource, primary_engine, replica_engine, redis, Event, replica_unreachable, checks_failed,
  serving, closed, not_released, Closing, dispose_engines, close_redis, release, run, run_unless,
  or_else, lifespan,
}

unfoldable pub serves : List Event → Bool
serves [] = false
serves (serving ∷ events) = true
serves (replica_unreachable ∷ events) = serves events
serves (checks_failed e ∷ events) = serves events
serves (closed resource succeeds ∷ events) = serves events
serves (not_released label ∷ events) = serves events

-- what was to be closed, in order
unfoldable pub closings : List Event → List Resource
closings [] = []
closings (closed resource succeeds ∷ events) = resource ∷ closings events
closings (serving ∷ events) = closings events
closings (replica_unreachable ∷ events) = closings events
closings (checks_failed e ∷ events) = closings events
closings (not_released label ∷ events) = closings events

-- what the run logs as not released, in order
unfoldable pub unreleased : List Event → List String
unreleased [] = []
unreleased (not_released label ∷ events) = label ∷ unreleased events
unreleased (closed resource succeeds ∷ events) = unreleased events
unreleased (serving ∷ events) = unreleased events
unreleased (replica_unreachable ∷ events) = unreleased events
unreleased (checks_failed e ∷ events) = unreleased events

-- what a start needs
pub record IsReady (settings : Required) (primary : Bool) : Type 0 where
  pub primary_up : primary ≡ true
  pub mail_from : settings.mail_from ≢ ""
  pub mail_port : settings.mail_port ≢ 0
  pub mail_server : settings.mail_server ≢ ""
  pub jwt_secret_key : settings.jwt_secret_key ≢ ""
  pub jwt_algorithm : settings.jwt_algorithm ≢ ""

differs : (a b : String) → (a == b) ≡ false → a ≢ b
differs a b h same = ground (arith, (string_eq.decides a b).1 same)

-- what the end of the process closes, and what it logs of it
pub record IsReleased (c : Closing) (events : List Event) : Type 0 where
  pub closes :
      closings events
      ≡ primary_engine ∷ (if c.primary_closes then replica_engine ∷ redis ∷ [] else redis ∷ [])
  pub logs :
      unreleased events
      ≡ (if c.primary_closes && c.replica_closes then [] else "database engines" ∷ [])
        ++ (if c.redis_closes then [] else "redis" ∷ [])

run-IsReleased : (c : Closing) → IsReleased c (run c)
unfolding run release dispose_engines close_redis closings unreleased
run-IsReleased c = record { closes = ground arith; logs = ground arith }

run_serves :
    (error : Option StartupCheckError) (c : Closing)
    → serves (run_unless error c) ≡ true
    → error ≡ none
unfolding serves
run_serves none c h = refl
run_serves (some e) c h = cc

none_of_else :
    (first later : Option StartupCheckError)
    → or_else first later ≡ none
    → (first ≡ none) × (later ≡ none)
none_of_else none later h = (refl, h)
none_of_else (some e) later h = cc

mail_set :
    (settings : Required)
    → check_mail_config settings ≡ none
    → ((settings.mail_from == "") ≡ false)
      × ((settings.mail_port == 0) ≡ false)
      × ((settings.mail_server == "") ≡ false)
unfolding check_mail_config missing
mail_set settings h = ground (arith, h)

jwt_set :
    (settings : Required)
    → check_jwt_config settings ≡ none
    → ((settings.jwt_secret_key == "") ≡ false) × ((settings.jwt_algorithm == "") ≡ false)
unfolding check_jwt_config missing
jwt_set settings h = ground (arith, h)

module _ (settings : Required) (c : Closing) where
  -- the error of the checks, where the primary answers
  abbrev settings_error : Option StartupCheckError
  settings_error = or_else (check_mail_config settings) (check_jwt_config settings)

  set-IsReady : settings_error ≡ none → IsReady settings true
  set-IsReady e =
      let (mail, jwt) = none_of_else (check_mail_config settings) (check_jwt_config settings) e in
      let (from, port, server) = mail_set settings mail in
      let (secret, algorithm) = jwt_set settings jwt in
      record {
        primary_up = refl;
        mail_from = differs _ _ from;
        mail_port = λ zero_port. ground (arith, port);
        mail_server = differs _ _ server;
        jwt_secret_key = differs _ _ secret;
        jwt_algorithm = differs _ _ algorithm;
      }

  run_unless-IsReleased :
      (error : Option StartupCheckError) → error ≡ none → IsReleased c (run_unless error c)
  run_unless-IsReleased none h = run-IsReleased c
  run_unless-IsReleased (some e) h = cc

  of_run :
      serves (run_unless settings_error c) ≡ true
      → IsReady settings true × IsReleased c (run_unless settings_error c)
  of_run h =
      let passed = run_serves settings_error c h in
      (set-IsReady passed, run_unless-IsReleased settings_error passed)

  -- a warning in front changes neither
  warned-IsReleased :
      (events : List Event) → IsReleased c events → IsReleased c (replica_unreachable ∷ events)
  unfolding closings unreleased
  warned-IsReleased events h = record { closes = h.closes; logs = h.logs }

  -- If the process has served requests, the primary answered at the start and no setting of the mail and
  -- of the tokens was empty. At its end it closes the engine of the primary, that of the replica only if
  -- the former did not raise, and Redis in any case, and it logs the engines and Redis as not released
  -- exactly where their closer raised.
  pub served-IsReady :
      (primary replica : Bool)
      → serves (lifespan settings primary replica c) ≡ true
      → IsReady settings primary × IsReleased c (lifespan settings primary replica c)
  unfolding lifespan serves check_database
  served-IsReady false replica h = cc
  served-IsReady true true h = of_run h
  served-IsReady true false h = let (ready, ends) = of_run h in (ready, warned-IsReleased _ ends)
