-- ===== src/Worker/Recording.antt =====
-- What the hook of the worker records.
use fasti_kit.Json.{Dict}
use fasti_kit.Worker.{
  SaqJob, Status, failed, aborted, other_status, value, is_dead, record_dead_letter,
}
use fasti_kit.DeadLetter.{is_job, insert_job, record_failure}
use fasti_kit.Base.{
  String, Bool, ◌≡◌, refl, true, false, not, ◌&&◌, none, [], ◌∷◌, ◌++◌, some, inl, inr, Bool-cases,
  if◌then◌else◌,
}
use fasti_kit.Base.Table.{any}
use fasti_kit.World.{
  World, db_session, transaction, utc_now, uuid4, pin_primary, stage, pure, ◌>>=◌,
}
use fasti_kit.Model.{DeadLetterJobModel}

abbrev pub status_text : Status → String
status_text failed = "failed"
status_text aborted = "aborted"
status_text (other_status text) = text

-- the row that the hook writes for a job of the name of a queue and with the arguments
abbrev pub row_of : SaqJob → String → Dict → World → DeadLetterJobModel
row_of job queue_name kwargs w = record {
  id = w.random w.draws;
  job_key = job.key;
  function = job.function;
  queue_name = queue_name;
  kwargs = kwargs;
  status = status_text job.status;
  error = job.error;
  attempts = job.attempts;
  failed_at = w.clock w.reads;
  retried_at = none;
}

-- a job that failed for good
abbrev pub has_died : Status → Bool
has_died failed = true
has_died aborted = true
has_died (other_status text) = false

same_end : (s : Status) → is_dead s ≡ has_died s
same_end failed = refl
same_end aborted = refl
same_end (other_status text) = refl

same_text : (s : Status) → value s ≡ status_text s
same_text failed = refl
same_text aborted = refl
same_text (other_status text) = refl

-- From a world with nothing staged, and whatever ended a job that has a queue and arguments: the hook
-- changes nothing that is committed but the table of dead letters. If the job failed or was aborted, the commit succeeds and the drawn key is
-- free, then the table has one row more, the last one, with the key, the function, the queue, the arguments,
-- the status, the error and the attempts of the job, which nobody has retried; else it is as before.
pub dead_job_recorded :
    (job : SaqJob) (queue_name : String) (kwargs : Dict) (w : World)
    → job.queue_name ≡ some queue_name
    → job.kwargs ≡ some kwargs
    → w.working ≡ w.committed
    → let taken = any (is_job (w.random w.draws)) w.committed.dead_letter_jobs in
      (record_dead_letter (some job) w).committed ≡ (
        if has_died job.status && (not w.commit_fails && not taken)
        then record w.committed {
          dead_letter_jobs = w.committed.dead_letter_jobs ++ row_of job queue_name kwargs w ∷ [];
        }
        else w.committed)
unfolding record_dead_letter db_session record_failure transaction insert_job utc_now uuid4
    pin_primary stage pure ◌>>=◌
dead_job_recorded job queue_name kwargs w queued given same =
    elim (Bool-cases (has_died job.status)) [
      | inl dead ↦ elim (Bool-cases w.commit_fails) [
        | inl down ↦
            elim (Bool-cases (any (is_job (w.random w.draws)) w.committed.dead_letter_jobs)) [
              | inl taken ↦ rw (same_end job.status, dead, same, down, taken) refl
              | inr free ↦ rw (same_end job.status, dead, same, down, free) refl
            ]
        | inr up ↦
            elim (Bool-cases (any (is_job (w.random w.draws)) w.committed.dead_letter_jobs)) [
              | inl taken ↦ rw (same_end job.status, dead, same, up, taken) refl
              | inr free ↦
                  rw
                    (same_end job.status, dead, same, up, free, queued, given, same_text job.status)
                    refl
            ]
      ]
      | inr lives ↦ rw (same_end job.status, lives) refl
    ]
