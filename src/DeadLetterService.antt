-- ===== src/DeadLetterService.antt =====
-- core/dead_letter/service.py, but for the pages of `list_jobs`.
pub mod Sound
use fasti_kit.DeadLetter
use fasti_kit.Base.{
  ℕ, String, Bool, true, false, not, ◌&&◌, Option, none, some, if◌then◌else◌, is_none,
}
use fasti_kit.Exceptions.{entity_not_found_error, conflict_error, bad_request_error}
use fasti_kit.Model.{Uuid, DateTime, DeadLetterJob}
use fasti_kit.World.{Action, pure, raise, ◌>>=◌, ◌>>◌}

abbrev pub entity_name : String
entity_name = "Dead-letter job"

module _ (uuid_text : Uuid → String) where
  abbrev pub job_or_raise : Uuid → Option DeadLetterJob → Action DeadLetterJob
  job_or_raise job_id none = raise (entity_not_found_error entity_name (uuid_text job_id))
  job_or_raise job_id (some job) = pure job

  unfoldable pub get_job : Uuid → Action DeadLetterJob
  get_job job_id = do row ← DeadLetter.get job_id false; job_or_raise job_id row

  unfoldable pub delete_job : Uuid → Action Unit
  delete_job job_id = do
    deleted ← DeadLetter.delete job_id
    if deleted then pure tt else raise (entity_not_found_error entity_name (uuid_text job_id))

  -- what `retry_job` does after a claim that failed
  abbrev pub explain_refusal : Uuid → Option DeadLetterJob → Action DeadLetterJob
  explain_refusal job_id none = raise (entity_not_found_error entity_name (uuid_text job_id))
  explain_refusal job_id (some job) = raise (conflict_error "job already retried")

  abbrev pub after_retry : Uuid → Option DeadLetterJob → Action DeadLetterJob
  after_retry job_id (some retried) = pure retried
  after_retry job_id none = do current ← DeadLetter.get job_id true; explain_refusal job_id current

  unfoldable pub retry_job : Uuid → Action DeadLetterJob
  retry_job job_id = do retried ← DeadLetter.retry job_id; after_retry job_id retried

unfoldable pub purge : Option DateTime → Bool → Action ℕ
purge before only_retried =
    if is_none before && not only_retried
    then raise (bad_request_error "Specify 'before' or keep 'only_retried' true to bound the purge")
    else DeadLetter.purge before only_retried
