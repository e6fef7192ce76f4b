-- ===== src/Outbox/Sound.antt =====
-- core/outbox/repository.py: the validity of the database through each method.
use fasti_kit.Outbox.{insert_event, stage_add}
use fasti_kit.World.Keeps.{Keeps, keeps_rules}
use fasti_kit.World.Valid.{IsSound, IsSound-stable}
use fasti_kit.Base.Table.Keys.{Unique-insert, Lacks-any}
use fasti_kit.Base.{String, inl, inr, ◌==◌, nat_eq, string_eq, Bool-cases}
use fasti_kit.Base.Table.{any}
use fasti_kit.Json.{Dict}
use fasti_kit.Model.{OutboxEvent}
use fasti_kit.World.{throw, stage}

insert_event-IsSound : (event : OutboxEvent) → Keeps IsSound (insert_event event)
unfolding insert_event throw stage
insert_event-IsSound event = record {
  at = λ w h. elim (Bool-cases (any (λ e. e.id == event.id) w.working.outbox_events)) [
    | inl taken ↦ rw taken h
    | inr free ↦ rw free (record {
      committed = h.committed;
      working = record {
        users = h.working.users;
        sessions = h.working.sessions;
        tokens = h.working.tokens;
        event_ids =
            Unique-insert (λ e. e.id) _ event h.working.event_ids (Lacks-any (λ e. e.id) _ _ free);
        job_ids = h.working.job_ids;
      };
    })
  ];
}

pub stage_add-IsSound :
    (task_name : String) (payload : Dict) → Keeps IsSound (stage_add task_name payload)
unfolding stage_add
stage_add-IsSound task_name payload = search (keeps_rules, IsSound-stable, insert_event-IsSound)
