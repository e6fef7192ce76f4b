-- ===== src/DeadLetterService/Sound.antt =====
-- core/dead_letter/service.py: the validity of the database through each method.
use fasti_kit.DeadLetterService.{
  job_or_raise, get_job, delete_job, explain_refusal, after_retry, retry_job, purge,
}
use fasti_kit.DeadLetter.Sound.{
  get-IsSettled, delete-IsSettled, retry-IsSettled, purge-IsSettled as purged-IsSettled,
}
use fasti_kit.World.Keeps.{Keeps, keeps_rules}
use fasti_kit.World.Valid.{IsSettled}
use fasti_kit.Base.{String, Bool, Option, none, some}
use fasti_kit.Model.{Uuid, DateTime, DeadLetterJob}

module _ (uuid_text : Uuid → String) where
  job_or_raise-IsSettled :
      (job_id : Uuid) (job : Option DeadLetterJob)
      → Keeps IsSettled (job_or_raise uuid_text job_id job)
  job_or_raise-IsSettled job_id none = search keeps_rules
  job_or_raise-IsSettled job_id (some job) = search keeps_rules

  pub get_job-IsSettled : (job_id : Uuid) → Keeps IsSettled (get_job uuid_text job_id)
  unfolding get_job
  get_job-IsSettled job_id = search (keeps_rules, get-IsSettled, job_or_raise-IsSettled)

  pub delete_job-IsSettled : (job_id : Uuid) → Keeps IsSettled (delete_job uuid_text job_id)
  unfolding delete_job
  delete_job-IsSettled job_id = search (keeps_rules, delete-IsSettled)

  explain_refusal-IsSettled :
      (job_id : Uuid) (job : Option DeadLetterJob)
      → Keeps IsSettled (explain_refusal uuid_text job_id job)
  explain_refusal-IsSettled job_id none = search keeps_rules
  explain_refusal-IsSettled job_id (some job) = search keeps_rules

  after_retry-IsSettled :
      (job_id : Uuid) (job : Option DeadLetterJob)
      → Keeps IsSettled (after_retry uuid_text job_id job)
  after_retry-IsSettled job_id none = search (keeps_rules, get-IsSettled, explain_refusal-IsSettled)
  after_retry-IsSettled job_id (some job) = search keeps_rules

  pub retry_job-IsSettled : (job_id : Uuid) → Keeps IsSettled (retry_job uuid_text job_id)
  unfolding retry_job
  retry_job-IsSettled job_id = search (keeps_rules, retry-IsSettled, after_retry-IsSettled)

pub purge-IsSettled :
    (before : Option DateTime) (only_retried : Bool) → Keeps IsSettled (purge before only_retried)
unfolding purge
purge-IsSettled before only_retried = search (keeps_rules, purged-IsSettled)
