-- ===== src/Relay.antt =====
-- core/outbox/relay.py and core/queue.py: a batch of pending events goes to the task queue, oldest
-- first, and each event is marked by what the queue made of it.
pub mod Rows
pub mod Batch
pub mod Loop
use fasti_kit.Outbox.{is_pending}
use fasti_kit.Base.{
  ℕ, zero, suc, ◌+◌, ◌-◌, String, ◌<>◌, Bool, false, not, ◌&&◌, Option, none, some, List, [], ◌∷◌,
  ltb, leb, if◌then◌else◌, ◌==◌, nat_eq, string_eq, is_none,
}
use fasti_kit.Base.Lists.{length, take}
use fasti_kit.Base.Table.{select, update_where, delete_where}
use fasti_kit.Exceptions.{Result}
use fasti_kit.Json.{Dict}
use fasti_kit.Model.{Uuid, DateTime, OutboxEvent}
use fasti_kit.World.{
  World, Action, pure, gets, utc_now, pin_primary, stage, ◌>>=◌, ◌>>◌, commit_session,
}

-- What `enqueue_task` hands to SAQ.
pub record Job : Type 0 where
  pub function : String
  pub key : String
  pub retries : ℕ
  pub retry_delay : ℕ
  pub retry_backoff : Bool
  pub kwargs : Dict

-- the settings that the relay reads, with `retry_delay` in milliseconds and the retention in
-- microseconds
pub record RelaySettings : Type 0 where
  pub outbox_max_attempts : ℕ
  pub outbox_retention : ℕ
  pub task_max_retries : ℕ
  pub task_retry_delay : ℕ
  pub task_retry_backoff : Bool

-- `text[:n]`
clip : ℕ → String → String
clip zero s = ""
clip (suc n) String.[] = ""
clip (suc n) (String.◌∷◌ c s) = String.◌∷◌ c (clip n s)

-- the oldest first, and rows of one time in the order of the table
insert_by_age : OutboxEvent → List OutboxEvent → List OutboxEvent
insert_by_age e [] = e ∷ []
insert_by_age e (x ∷ xs) =
    if leb e.created_at x.created_at then e ∷ x ∷ xs else x ∷ insert_by_age e xs

unfoldable pub order_by_created_at : List OutboxEvent → List OutboxEvent
unfolding insert_by_age
order_by_created_at [] = []
order_by_created_at (e ∷ es) = insert_by_age e (order_by_created_at es)

-- The batch: `locked` tells the rows that another relay holds, which `SKIP LOCKED` passes over.
unfoldable pub batch : (Uuid → Bool) → ℕ → List OutboxEvent → List OutboxEvent
batch locked batch_size events =
    take batch_size (order_by_created_at (select (λ e. is_pending e && not (locked e.id)) events))

-- what the loop writes to a row, by what the queue made of its job: `none` if it took it, and else the
-- `repr` of what it raised
pub mark : RelaySettings → DateTime → OutboxEvent → Option String → OutboxEvent
unfolding clip
mark settings now row none = record row { dispatched_at = some now }
mark settings now row (some error) =
    let attempts = row.attempts + 1 in
    record row {
      attempts = attempts;
      last_error = some (clip 1000 error);
      failed_at = if leb settings.outbox_max_attempts attempts then some now else row.failed_at;
    }

-- the flush of the marked rows
pub write_back : List OutboxEvent → List OutboxEvent → List OutboxEvent
write_back [] events = events
write_back (row ∷ rows) events =
    write_back rows (update_where (λ e. e.id == row.id) (λ _. row) events)

-- `queue` is SAQ's `enqueue`.
module _ (settings : RelaySettings) (uuid_text : Uuid → String) (queue : Job → Option String) where
  -- `enqueue_task`
  abbrev pub job_of : OutboxEvent → Job
  job_of row = record {
    function = row.task_name;
    key = "outbox:" <> uuid_text row.id;
    retries = settings.task_max_retries;
    retry_delay = settings.task_retry_delay;
    retry_backoff = settings.task_retry_backoff;
    kwargs = row.payload;
  }

  -- the body of the loop at a time
  abbrev pub dispatch_row : DateTime → OutboxEvent → OutboxEvent
  dispatch_row now row = mark settings now row (queue (job_of row))

  -- the loop over the rows; `clock k` is the time at the k-th row
  pub dispatch_rows : (ℕ → DateTime) → ℕ → List OutboxEvent → List OutboxEvent
  dispatch_rows clock k [] = []
  dispatch_rows clock k (row ∷ rows) = dispatch_row (clock k) row ∷ dispatch_rows clock (k + 1) rows

  -- the jobs that the queue took
  pub sent : List OutboxEvent → List Job
  sent [] = []
  sent (row ∷ rows) =
      let rest = sent rows in if is_none (queue (job_of row)) then job_of row ∷ rest else rest

  pub count_dispatched : List OutboxEvent → ℕ
  count_dispatched [] = 0
  count_dispatched (row ∷ rows) =
      if is_none (queue (job_of row)) then count_dispatched rows + 1 else count_dispatched rows

  pub count_failed : List OutboxEvent → ℕ
  count_failed [] = 0
  count_failed (row ∷ rows) =
      if is_none (queue (job_of row)) then count_failed rows else count_failed rows + 1

  -- `dispatch_pending`: the counts, and the rows of the outbox; beside them the jobs of the queue, which
  -- a failed commit does not take back.
  pub dispatch_pending : (Uuid → Bool) → ℕ → World → (Result (ℕ × ℕ) × World) × List Job
  dispatch_pending locked batch_size w =
      let rows = batch locked batch_size w.working.outbox_events in
      let marked = dispatch_rows w.clock w.reads rows in
      (
        (do
          pin_primary
          stage (λ db. record db { outbox_events = write_back marked db.outbox_events })
          commit_session
          pure (count_dispatched rows, count_failed rows))
            (record w { reads = w.reads + length rows }),
        sent rows,
      )

abbrev pub is_past_retention : DateTime → OutboxEvent → Bool
is_past_retention cutoff e = elim e.dispatched_at [ none ↦ false | some t ↦ ltb t cutoff ]

unfoldable pub cleanup_dispatched : RelaySettings → Action ℕ
cleanup_dispatched settings = do
  pin_primary
  now ← utc_now
  deleted ← gets (λ w.
      length (select (is_past_retention (now - settings.outbox_retention)) w.working.outbox_events))
  stage (λ db. record db {
    outbox_events =
        delete_where (is_past_retention (now - settings.outbox_retention)) db.outbox_events;
  })
  commit_session
  pure deleted
