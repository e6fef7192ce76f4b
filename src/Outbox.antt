-- ===== src/Outbox.antt =====
-- core/outbox/repository.py: events are staged in the transaction of the write that they announce.
pub mod Sound
use fasti_kit.Base.{
  ◌-◌, Bool, Option, none, some, String, List, [], ◌∷◌, ◌++◌, ◌&&◌, ◌==◌, leb, is_none,
  if◌then◌else◌, nat_eq, string_eq,
}
use fasti_kit.Base.Table.{any, select}
use fasti_kit.Exceptions.{integrity_error}
use fasti_kit.Json.{Dict}
use fasti_kit.Model.{DateTime, OutboxEvent}
use fasti_kit.World.{
  Action, pure, throw, gets, ◌>>=◌, ◌>>◌, utc_now, uuid4, pin_primary, source, stage,
}

-- `self.db.add(event)` and `self.db.flush()`, with the primary key of the table
unfoldable pub insert_event : OutboxEvent → Action Unit
insert_event event w =
    if any (λ e. e.id == event.id) w.working.outbox_events
    then throw integrity_error w
    else stage (λ db. record db { outbox_events = db.outbox_events ++ event ∷ [] }) w

-- `OutboxRepository.stage_add`
unfoldable pub stage_add : String → Dict → Action OutboxEvent
stage_add task_name payload = do
  pin_primary
  id ← uuid4
  created_at ← utc_now
  let event : OutboxEvent = record {
    id = id;
    task_name = task_name;
    payload = payload;
    created_at = created_at;
    dispatched_at = none;
    failed_at = none;
    attempts = 0;
    last_error = none;
  }
  insert_event event
  pure event

-- `dispatched_at IS NULL AND failed_at IS NULL`
abbrev pub is_pending : OutboxEvent → Bool
is_pending event = is_none event.dispatched_at && is_none event.failed_at

abbrev pub earlier : DateTime → Option DateTime → Option DateTime
earlier t none = some t
earlier t (some u) = if leb t u then some t else some u

-- `SELECT min(created_at)`
unfoldable pub min_created_at : List OutboxEvent → Option DateTime
min_created_at [] = none
min_created_at (e ∷ es) = earlier e.created_at (min_created_at es)

unfoldable pub age : Option DateTime → Action (Option DateTime)
age none = pure none
age (some oldest) = do now ← utc_now; pure (some (now - oldest))

-- `OutboxRepository.oldest_pending_age`, in microseconds: an event from the future has age 0 here and
-- a negative age there.
unfoldable pub oldest_pending_age : Action (Option DateTime)
oldest_pending_age = do
  pin_primary
  oldest ← gets (λ w. min_created_at (select is_pending (source w).outbox_events))
  age oldest
