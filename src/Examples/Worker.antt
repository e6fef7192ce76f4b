-- ===== src/Examples/Worker.antt =====
-- The worker and the probes on the example.
use fasti_kit.Health.{ProbeError, workers, run_checks, report_of, check_outbox_backlog}
use fasti_kit.Health.Backlog.{OnTime, workers-OnTime}
use fasti_kit.Outbox.{min_created_at, age, oldest_pending_age, is_pending}
use fasti_kit.Relay.{RelaySettings}
use fasti_kit.Worker.{
  CleanupTask, cleanup_revoked_tokens_task, cleanup_refresh_sessions_task, cleanup_outbox_task,
  cleanup_dead_letter_task, SaqJob, failed, record_dead_letter,
}
use fasti_kit.Worker.Retained.{is_unresolved, run_cleanups, cleanups_keep_work}
use fasti_kit.Worker.Recording.{row_of, dead_job_recorded}
use fasti_kit.Relay.Loop.{Loop, Round, relay_loop}
use fasti_kit.Relay.Loop.Accounts.{Accounted, relay_loop_accounts}
use fasti_kit.Examples.Data.{as_text, world, db, job}
use fasti_kit.Base.{ℕ, String, ◌≡◌, refl, true, false, Option, none, some, List, [], ◌∷◌}
use fasti_kit.Base.Table.{any, select}
use fasti_kit.Exceptions.{Error}
use fasti_kit.Json.{end}
use fasti_kit.World.{db_session, utc_now, ◌>>=◌}

abbrev describe : Error → ProbeError
describe e = record { message = ""; type_name = "Error" }

abbrev lag_text : ℕ → String
lag_text age = "many"

abbrev fine : Option ProbeError
fine = none

workers_well : (workers describe lag_text 200 fine fine fine (world false)).0.status_code ≡ 200
unfolding workers run_checks report_of check_outbox_backlog db_session oldest_pending_age age
    min_created_at select utc_now ◌>>=◌
workers_well = refl

workers-OnTime_example : (fine ≡ none) × (fine ≡ none) × OnTime 100 200 db.outbox_events
workers-OnTime_example =
    workers-OnTime describe lag_text 200 fine fine fine (world false) workers_well

abbrev settings : RelaySettings
settings = record {
  outbox_max_attempts = 3;
  outbox_retention = 50;
  task_max_retries = 3;
  task_retry_delay = 5000;
  task_retry_backoff = true;
}

abbrev tasks : List CleanupTask
tasks =
    cleanup_outbox_task ∷ cleanup_dead_letter_task ∷ cleanup_revoked_tokens_task
    ∷ cleanup_refresh_sessions_task ∷ []

cleanups_keep_work_example :
    let after = (run_cleanups settings 40 tasks (world false)).committed in
    (select is_pending after.outbox_events ≡ select is_pending db.outbox_events)
    × (select is_unresolved after.dead_letter_jobs ≡ select is_unresolved db.dead_letter_jobs)
cleanups_keep_work_example = cleanups_keep_work settings 40 tasks (world false) refl

abbrev dead_job : SaqJob
dead_job = record {
  key = "outbox:31";
  function = "send_email_task";
  queue_name = some "default";
  kwargs = some end;
  status = failed;
  error = some "timeout";
  attempts = 3;
}

dead_job_recorded_example :
    (record_dead_letter (some dead_job) (world false)).committed
    ≡ record db { dead_letter_jobs = job ∷ row_of dead_job "default" end (world false) ∷ [] }
unfolding any
dead_job_recorded_example = dead_job_recorded dead_job "default" end (world false) refl refl refl

abbrev started : Loop
started = record { world = world false; failures_in_a_row = 0; heartbeats = 0; log = []; sent = [] }

abbrev round : Round
round = record {
  raises = false;
  commit_fails = false;
  queue = λ job. none;
  locked = λ id. false;
  redis_answers = false;
}

-- a round that ends well, one that raises, and one whose commit fails
abbrev rounds : List Round
rounds =
    record round { redis_answers = true }
    ∷ record round { raises = true }
    ∷ record round { commit_fails = true; queue = λ job. some "full" }
    ∷ []

relay_loop_accounts_example : Accounted 3 (relay_loop settings as_text 2 rounds started)
relay_loop_accounts_example = relay_loop_accounts settings as_text 2 rounds started refl refl refl
