-- ===== src/DeadLetter/Retry.antt =====
-- core/dead_letter/repository.py: what `retry` commits.
use fasti_kit.Outbox
use fasti_kit.Outbox.{insert_event, is_pending}
use fasti_kit.DeadLetter.{is_retriable, mark_retried, claim, requeue, retry}
use fasti_kit.World.Inversion.{bind_ok, transaction_ok}
use fasti_kit.Base.{
  String, ◌≡◌, refl, inl, inr, true, false, Option, none, some, List, [], ◌∷◌, ◌++◌, arith,
  Bool-cases, ◌∙◌, ap,
}
use fasti_kit.Base.Lists.{All}
use fasti_kit.Base.Table.{update_where}
use fasti_kit.Exceptions.{ok}
use fasti_kit.Json.{obj, Dict, end, field}
use fasti_kit.Model.{Uuid, DateTime, OutboxEvent, DeadLetterJobModel, DeadLetterJob, job_entity}
use fasti_kit.World.{Db, World, pure, one_or_none, ◌>>=◌, utc_now, pin_primary}

staged :
    (task_name : String) (payload : Dict) (w : World) (e : OutboxEvent)
    → (Outbox.stage_add task_name payload w).0 ≡ ok e
    → let w' = (Outbox.stage_add task_name payload w).1 in
      (w'.working.outbox_events ≡ w.working.outbox_events ++ e ∷ [])
      × (w'.working.dead_letter_jobs ≡ w.working.dead_letter_jobs)
      × (e.task_name ≡ task_name)
      × (e.payload ≡ payload)
      × (is_pending e ≡ true)
unfolding Outbox.stage_add insert_event ◌>>=◌
staged task_name payload w e h = ground arith

-- the job and its pending event
pub record IsRequeued (job_id : Uuid) (job : DeadLetterJob) (before after : Db) : Type 0 where
  pub event : OutboxEvent
  pub events : after.outbox_events ≡ before.outbox_events ++ event ∷ []
  pub function : event.task_name ≡ job.function
  pub payload : event.payload ≡ field "kwargs" (obj job.kwargs) end
  pub pending : is_pending event ≡ true
  pub retried : All (λ j. is_retriable job_id j ≡ false) after.dead_letter_jobs

claimed_away :
    (job_id : Uuid) (now : DateTime) (jobs : List DeadLetterJobModel)
    → All
        (λ j. is_retriable job_id j ≡ false)
        (update_where (is_retriable job_id) (mark_retried now) jobs)
unfolding update_where
claimed_away job_id now [] = tt
claimed_away job_id now (j ∷ jobs) = elim (Bool-cases (is_retriable job_id j)) [
  | inl e ↦ rw e (ground arith, claimed_away job_id now jobs)
  | inr e ↦ rw e (e, claimed_away job_id now jobs)
]

requeued :
    (job_id : Uuid) (before : Db) (model : Option DeadLetterJobModel) (w : World)
    (job : DeadLetterJob)
    → w.working.outbox_events ≡ before.outbox_events
    → All (λ j. is_retriable job_id j ≡ false) w.working.dead_letter_jobs
    → (requeue model w).0 ≡ ok (some job)
    → IsRequeued job_id job before (requeue model w).1.working
unfolding pure
requeued job_id before none w job same done h = cc
requeued job_id before (some model) w job same done h =
    let (e, made, h₁, q) =
      bind_ok (Outbox.stage_add model.function (field "kwargs" (obj model.kwargs) end)) _ w _ h in
    let (events, jobs, name, payload, pending) = staged _ _ w e made in
    let entity : job_entity model ≡ job = ground (arith, h₁) in
    record {
      event = e;
      events = rw (q, events, same) refl;
      function = name ∙ ap (λ j. j.function) entity;
      payload = payload ∙ ap (λ j. field "kwargs" (obj j.kwargs) end) entity;
      pending = pending;
      retried = rw (q, jobs) done;
    }

kept : (jobs : List DeadLetterJobModel) (w : World) → (one_or_none jobs w).1 ≡ w
unfolding one_or_none
kept [] w = refl
kept (j ∷ []) w = refl
kept (j ∷ k ∷ jobs) w = refl

-- the state that the claim hands on
claimed_state :
    (job_id : Uuid) (now : DateTime) (rows : List DeadLetterJobModel) (w : World)
    → let w' = (one_or_none rows (claim job_id now (utc_now (pin_primary w).1).1).1).1 in
      (w'.working.outbox_events ≡ w.working.outbox_events)
      × All (λ j. is_retriable job_id j ≡ false) w'.working.dead_letter_jobs
unfolding claim ◌>>=◌
claimed_state job_id now rows w =
    rw (kept rows (claim job_id now (utc_now (pin_primary w).1).1).1)
      (refl, claimed_away job_id now w.working.dead_letter_jobs)

-- If `retry` returns a job, it commits one outbox event more than the session saw, the last one, pending,
-- with the function of the job and its keyword arguments; and no job of the id can be retried again.
pub retry_requeues :
    (job_id : Uuid) (w : World) (job : DeadLetterJob)
    → (retry job_id w).0 ≡ ok (some job)
    → IsRequeued job_id job w.working (retry job_id w).1.committed
unfolding retry
retry_requeues job_id w job h =
    let (_, _, h₁, q₁) = bind_ok pin_primary _ w _ h in
    let (now, _, h₂, q₂) = bind_ok utc_now _ _ _ h₁ in
    let (ran, commits) = transaction_ok _ _ _ h₂ in
    let (rows, _, h₃, q₃) = bind_ok (claim job_id now) _ _ _ ran in
    let (model, _, h₄, q₄) = bind_ok (one_or_none rows) _ _ _ h₃ in
    let (same, away) = claimed_state job_id now rows w in
    rw (q₁, q₂, commits, q₃, q₄) (requeued job_id w.working model _ job same away h₄)
