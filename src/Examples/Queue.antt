-- ===== src/Examples/Queue.antt =====
-- A batch of the relay on the example.
use fasti_kit.Outbox
use fasti_kit.Outbox.{insert_event, is_pending}
use fasti_kit.DeadLetter.{retry, claim, mark_retried}
use fasti_kit.DeadLetter.Retry.{IsRequeued, retry_requeues}
use fasti_kit.Model.{job_entity, Uuid, DateTime, OutboxEvent, DeadLetterJob}
use mathlib.Core.List.{Perm}
use fasti_kit.Base.{
  ◌≤◌, String, ◌≡◌, refl, inl, Bool, true, false, not, ◌&&◌, Option, none, some, List, [], ◌∷◌,
  ◌++◌, arith, if◌then◌else◌, ◌==◌, nat_eq, string_eq,
}
use fasti_kit.Base.Lists.{length, All}
use fasti_kit.Base.Table.{select, any}
use fasti_kit.Exceptions.{ok}
use fasti_kit.Relay.Rows.{IsTracked, rounds, rounds_settle}
use fasti_kit.Relay.{Job, RelaySettings, order_by_created_at, batch, dispatch_pending}
use fasti_kit.Relay.Batch.{batch_oldest, dispatch_pending-IsTracked}
use fasti_kit.Examples.Data.{event, job, db, world, as_text}
use fasti_kit.World.{◌>>=◌, transaction}

abbrev settings : RelaySettings
settings = record {
  outbox_max_attempts = 3;
  outbox_retention = 1000;
  task_max_retries = 3;
  task_retry_delay = 1000;
  task_retry_backoff = true;
}

-- the queue refuses the event of id 1, as all others have one text
abbrev queue : Job → Option String
queue job = if job.key == "outbox:one" then some "refused" else none

abbrev unlocked : Uuid → Bool
unlocked id = false

event-IsTracked : (id : Uuid) (t : DateTime) → IsTracked 3 (event id t)
event-IsTracked id t = record {
  bounded = omega arith;
  open_below = λ _. refl;
  failed_at_limit = λ full. absurd (omega arith);
  exclusive = inl refl;
}

events-IsTracked : All (IsTracked 3) db.outbox_events
events-IsTracked = (event-IsTracked 30 7, (event-IsTracked 31 3, (event-IsTracked 32 5, tt)))

rounds_settle_example :
    let row = rounds settings (λ k. k) (λ k. some "refused") 3 (event 30 7) in
    (is_pending row ≡ false) × IsTracked 3 row
rounds_settle_example =
    rounds_settle settings (λ k. k) (λ k. some "refused") 3 (event 30 7) (event-IsTracked 30 7)
      (omega arith)

batch_oldest_example :
    let taken = batch unlocked 2 db.outbox_events in
    (length taken ≤ 2)
    × All (λ e. is_pending e && not (unlocked e.id) ≡ true) taken
    × ((left_out : List OutboxEvent) × Perm
          (taken ++ left_out)
          (select (λ e. is_pending e && not (unlocked e.id)) db.outbox_events)
        × All (λ t. All (λ l. t.created_at ≤ l.created_at) left_out) taken)
batch_oldest_example = batch_oldest unlocked 2 db.outbox_events

-- the two oldest of the three
two_oldest : batch unlocked 2 db.outbox_events ≡ event 31 3 ∷ event 32 5 ∷ []
unfolding batch order_by_created_at select
two_oldest = refl

dispatch_pending-IsTracked_example :
    let after = (dispatch_pending settings as_text queue unlocked 2 (world true)).0.1 in
    All (IsTracked 3) after.committed.outbox_events × All (IsTracked 3) after.working.outbox_events
dispatch_pending-IsTracked_example =
    dispatch_pending-IsTracked settings as_text queue unlocked 2 (world true) events-IsTracked
      events-IsTracked

abbrev retried_job : DeadLetterJob
retried_job = job_entity (mark_retried 100 job)

retry_runs : (retry 40 (world false)).0 ≡ ok (some retried_job)
unfolding retry claim Outbox.stage_add insert_event ◌>>=◌ transaction select any
retry_runs = refl

retry_requeues_example : IsRequeued 40 retried_job db (retry 40 (world false)).1.committed
retry_requeues_example = retry_requeues 40 (world false) retried_job retry_runs
