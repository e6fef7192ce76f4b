-- ===== src/DeadLetter.antt =====
-- core/dead_letter/repository.py: the jobs that failed for good, and their way back to the queue
-- through the outbox.
pub mod Sound
pub mod Retry
use fasti_kit.Outbox
use fasti_kit.Base.{
  ℕ, String, Bool, true, false, not, ◌&&◌, Option, none, some, List, [], ◌∷◌, ◌++◌, map, ltb,
  if◌then◌else◌, ◌==◌, nat_eq, string_eq, is_none,
}
use fasti_kit.Base.Lists.{length}
use fasti_kit.Base.Table.{find, select, update_where, delete_where, any}
use fasti_kit.Exceptions.{integrity_error, ok}
use fasti_kit.Json.{obj, Dict, end, field}
use fasti_kit.Model.{Uuid, DateTime, DeadLetterJobModel, DeadLetterJob, job_entity}
use fasti_kit.World.{
  Action, pure, throw, gets, ◌>>=◌, ◌>>◌, utc_now, uuid4, pin_primary, source, stage, transaction,
  one_or_none,
}

abbrev pub is_job : Uuid → DeadLetterJobModel → Bool
is_job job_id j = j.id == job_id

unfoldable pub insert_job : DeadLetterJobModel → Action Unit
insert_job model w =
    if any (is_job model.id) w.working.dead_letter_jobs
    then throw integrity_error w
    else stage (λ db. record db { dead_letter_jobs = db.dead_letter_jobs ++ model ∷ [] }) w

-- What the keyword arguments of `record` hold.
pub record Failure : Type 0 where
  pub job_key : String
  pub function : String
  pub queue_name : String
  pub kwargs : Dict
  pub status : String
  pub error : Option String
  pub attempts : ℕ

-- `DeadLetterJobRepository.record`
unfoldable pub record_failure : Failure → Action DeadLetterJob
record_failure f = do
  pin_primary
  transaction do
    id ← uuid4
    now ← utc_now
    let model : DeadLetterJobModel = record {
      id = id;
      job_key = f.job_key;
      function = f.function;
      queue_name = f.queue_name;
      kwargs = f.kwargs;
      status = f.status;
      error = f.error;
      attempts = f.attempts;
      failed_at = now;
      retried_at = none;
    }
    insert_job model
    pure (job_entity model)

abbrev pin_if : Bool → Action Unit
pin_if true = pin_primary
pin_if false = pure tt

abbrev pub to_entity : Option DeadLetterJobModel → Option DeadLetterJob
to_entity none = none
to_entity (some model) = some (job_entity model)

unfoldable pub get : Uuid → Bool → Action (Option DeadLetterJob)
get job_id consistent = do
  pin_if consistent
  gets (λ w. to_entity (find (is_job job_id) (source w).dead_letter_jobs))

abbrev pub is_retriable : Uuid → DeadLetterJobModel → Bool
is_retriable job_id j = is_job job_id j && is_none j.retried_at

abbrev pub mark_retried : DateTime → DeadLetterJobModel → DeadLetterJobModel
mark_retried now j = record j { retried_at = some now }

-- `UPDATE dead_letter_jobs ... RETURNING`
unfoldable pub claim : Uuid → DateTime → Action (List DeadLetterJobModel)
claim job_id now w = (
  ok (map (mark_retried now) (select (is_retriable job_id) w.working.dead_letter_jobs)),
  record w {
    working = record w.working {
      dead_letter_jobs =
          update_where (is_retriable job_id) (mark_retried now) w.working.dead_letter_jobs;
    };
  },
)

abbrev pub requeue : Option DeadLetterJobModel → Action (Option DeadLetterJob)
requeue none = pure none
requeue (some model) = do
  Outbox.stage_add model.function (field "kwargs" (obj model.kwargs) end)
  pure (some (job_entity model))

unfoldable pub retry : Uuid → Action (Option DeadLetterJob)
retry job_id = do
  pin_primary
  now ← utc_now
  transaction do rows ← claim job_id now; model ← one_or_none rows; requeue model

unfoldable pub erase : Uuid → Option DeadLetterJobModel → Action Bool
erase job_id none = pure false
erase job_id (some model) = do
  transaction (
      stage
        (λ db. record db { dead_letter_jobs = delete_where (is_job job_id) db.dead_letter_jobs }))
  pure true

unfoldable pub delete : Uuid → Action Bool
delete job_id = do
  pin_primary
  found ← gets (λ w. find (is_job job_id) (source w).dead_letter_jobs)
  erase job_id found

abbrev failed_before : Option DateTime → DeadLetterJobModel → Bool
failed_before none j = true
failed_before (some before) j = ltb j.failed_at before

-- the `WHERE` of the purge
abbrev pub is_purged : Option DateTime → Bool → DeadLetterJobModel → Bool
is_purged before only_retried j =
    failed_before before j && (if only_retried then not (is_none j.retried_at) else true)

unfoldable pub delete_purged : Option DateTime → Bool → Action ℕ
delete_purged before only_retried w = (
  ok (length (select (is_purged before only_retried) w.working.dead_letter_jobs)),
  record w {
    working = record w.working {
      dead_letter_jobs = delete_where (is_purged before only_retried) w.working.dead_letter_jobs;
    };
  },
)

unfoldable pub purge : Option DateTime → Bool → Action ℕ
purge before only_retried = do pin_primary; transaction (delete_purged before only_retried)
