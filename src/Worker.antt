-- ===== src/Worker.antt =====
-- core/dead_letter/hook.py and core/worker/tasks.py: what the worker of the task queue does with the
-- database. A job comes from SAQ; what a task raises is left to SAQ.
pub mod Retained
pub mod Recording
use fasti_kit.DeadLetter
use fasti_kit.Sessions
use fasti_kit.Tokens
use fasti_kit.Relay.{RelaySettings, cleanup_dispatched}
use fasti_kit.DeadLetter.{Failure}
use fasti_kit.Base.{ℕ, ◌-◌, String, Bool, true, false, Option, none, some, if◌then◌else◌}
use fasti_kit.Json.{Dict, end}
use fasti_kit.Exceptions.{Result, ok}
use fasti_kit.World.{World, db_session, utc_now}

-- a status of SAQ; of the others only the text is kept
pub data Status : Type 0 where
  failed aborted : Status
  other_status : String → Status

-- `status.value`
abbrev pub value : Status → String
value failed = "failed"
value aborted = "aborted"
value (other_status text) = text

-- the fields of SAQ's `Job` that the hook reads, with the name of its queue
pub record SaqJob : Type 0 where
  pub key : String
  pub function : String
  pub queue_name : Option String
  pub kwargs : Option Dict
  pub status : Status
  pub error : Option String
  pub attempts : ℕ

-- `job.status in _DEAD_LETTER_STATUSES`
abbrev pub is_dead : Status → Bool
is_dead failed = true
is_dead aborted = true
is_dead (other_status text) = false

abbrev pub queue_or : Option String → String
queue_or none = "default"
queue_or (some name) = name

abbrev pub kwargs_or : Option Dict → Dict
kwargs_or none = end
kwargs_or (some kwargs) = kwargs

-- the arguments of `record` in `record_dead_letter_job`
abbrev pub failure_of : SaqJob → Failure
failure_of job = record {
  job_key = job.key;
  function = job.function;
  queue_name = queue_or job.queue_name;
  kwargs = kwargs_or job.kwargs;
  status = value job.status;
  error = job.error;
  attempts = job.attempts;
}

-- the hook, which lets no exception out
unfoldable pub record_dead_letter : Option SaqJob → World → World
record_dead_letter none w = w
record_dead_letter (some job) w =
    if is_dead job.status then (db_session (DeadLetter.record_failure (failure_of job)) w).1 else w

pub data CleanupTask : Type 0 where
  cleanup_revoked_tokens_task cleanup_refresh_sessions_task : CleanupTask
  cleanup_outbox_task cleanup_dead_letter_task : CleanupTask

-- `retention` is `dead_letter_retention_days`, in microseconds. A task returns what it deleted.
module _ (settings : RelaySettings) (retention : ℕ) where
  -- the clock is read before the session opens
  abbrev pub purge_before : World → Result ℕ × World
  purge_before w =
      let now = w.clock w.reads in
      db_session (DeadLetter.purge (some (now - retention)) true) (utc_now w).1

  unfoldable pub run_cleanup : CleanupTask → World → Result ℕ × World
  run_cleanup cleanup_revoked_tokens_task = db_session Tokens.purge_expired
  run_cleanup cleanup_refresh_sessions_task = db_session Sessions.purge_expired
  run_cleanup cleanup_outbox_task = db_session (cleanup_dispatched settings)
  run_cleanup cleanup_dead_letter_task = purge_before
