-- ===== src/DeadLetter/Sound.antt =====
-- core/dead_letter/repository.py: the validity of the database through each method.
use fasti_kit.DeadLetter.{
  is_job, Failure, insert_job, record_failure, pin_if, get, claim, requeue, retry, erase, delete,
  delete_purged, purge,
}
use fasti_kit.Outbox.Sound.{stage_add-IsSound}
use fasti_kit.World.Keeps.{Keeps, keeps_rules}
use fasti_kit.World.Valid.{
  IsValid, IsSound, IsSettled, IsSound-stable, IsSettled-stable, Keeps-stage, Keeps-transaction,
}
use fasti_kit.Base.Table.Keys.{
  Unique, Unique-insert, Unique-update_where, Unique-delete_where, Lacks-any,
}
use fasti_kit.Base.{
  refl, inl, inr, Bool, true, false, Option, none, some, List, Bool-cases, nat_eq, string_eq,
}
use fasti_kit.Base.Table.{delete_where, any}
use fasti_kit.Model.{Uuid, DateTime, DeadLetterJobModel}
use fasti_kit.World.{Db, throw, stage}

jobs-IsValid :
    (db : Db) (jobs : List DeadLetterJobModel)
    → IsValid db
    → Unique (λ j. j.id) jobs
    → IsValid (record db { dead_letter_jobs = jobs })
jobs-IsValid db jobs h ids = record {
  users = h.users;
  sessions = h.sessions;
  tokens = h.tokens;
  event_ids = h.event_ids;
  job_ids = ids;
}

insert_job-IsSound : (model : DeadLetterJobModel) → Keeps IsSound (insert_job model)
unfolding insert_job throw stage
insert_job-IsSound model = record {
  at = λ w h. elim (Bool-cases (any (is_job model.id) w.working.dead_letter_jobs)) [
    | inl taken ↦ rw taken h
    | inr free ↦ rw free (record {
      committed = h.committed;
      working =
          jobs-IsValid w.working _ h.working
            (Unique-insert (λ j. j.id) _ model h.working.job_ids (Lacks-any (λ j. j.id) _ _ free));
    })
  ];
}

claim-IsSound : (job_id : Uuid) (now : DateTime) → Keeps IsSound (claim job_id now)
unfolding claim
claim-IsSound job_id now = record {
  at = λ w h. record {
    committed = h.committed;
    working =
        jobs-IsValid w.working _ h.working
          (Unique-update_where (λ j. j.id) _ _ _ (λ j _. refl) h.working.job_ids);
  };
}

delete-IsValid :
    (p : DeadLetterJobModel → Bool) (db : Db)
    → IsValid db
    → IsValid (record db { dead_letter_jobs = delete_where p db.dead_letter_jobs })
delete-IsValid p db h = jobs-IsValid db _ h (Unique-delete_where (λ j. j.id) p _ h.job_ids)

delete_purged-IsSound :
    (before : Option DateTime) (only_retried : Bool)
    → Keeps IsSound (delete_purged before only_retried)
unfolding delete_purged
delete_purged-IsSound before only_retried = record {
  at = λ w h. record { committed = h.committed; working = delete-IsValid _ w.working h.working };
}

pub record_failure-IsSettled : (f : Failure) → Keeps IsSettled (record_failure f)
unfolding record_failure
record_failure-IsSettled f =
    search (keeps_rules, IsSettled-stable, IsSound-stable, Keeps-transaction, insert_job-IsSound)
      depth 9

pin_if-IsSettled : (b : Bool) → Keeps IsSettled (pin_if b)
pin_if-IsSettled true = search (keeps_rules, IsSettled-stable)
pin_if-IsSettled false = search keeps_rules

pub get-IsSettled : (job_id : Uuid) (consistent : Bool) → Keeps IsSettled (get job_id consistent)
unfolding get
get-IsSettled job_id consistent = search (keeps_rules, pin_if-IsSettled)

requeue-IsSound : (found : Option DeadLetterJobModel) → Keeps IsSound (requeue found)
requeue-IsSound none = search keeps_rules
requeue-IsSound (some model) = search (keeps_rules, stage_add-IsSound)

pub retry-IsSettled : (job_id : Uuid) → Keeps IsSettled (retry job_id)
unfolding retry
retry-IsSettled job_id =
    search (keeps_rules, IsSettled-stable, Keeps-transaction, claim-IsSound, requeue-IsSound) depth
      9

erase-IsSettled :
    (job_id : Uuid) (found : Option DeadLetterJobModel) → Keeps IsSettled (erase job_id found)
unfolding erase
erase-IsSettled job_id none = search keeps_rules
erase-IsSettled job_id (some model) =
    search (keeps_rules, Keeps-transaction, Keeps-stage, delete-IsValid)

pub delete-IsSettled : (job_id : Uuid) → Keeps IsSettled (delete job_id)
unfolding delete
delete-IsSettled job_id = search (keeps_rules, IsSettled-stable, erase-IsSettled)

pub purge-IsSettled :
    (before : Option DateTime) (only_retried : Bool) → Keeps IsSettled (purge before only_retried)
unfolding purge
purge-IsSettled before only_retried =
    search (keeps_rules, IsSettled-stable, Keeps-transaction, delete_purged-IsSound)
