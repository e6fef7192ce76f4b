-- ===== src/Model/JobRows.antt =====
-- core/outbox/model.py, core/dead_letter/model.py and core/dead_letter/entity.py
use fasti_kit.Base.{ℕ, String, Option}
use fasti_kit.Json.{Dict}
use fasti_kit.Model.UserRows.{Uuid, DateTime}

pub record OutboxEvent : Type 0 where
  pub id : Uuid
  pub task_name : String
  pub payload : Dict
  pub created_at : DateTime
  pub dispatched_at : Option DateTime
  pub failed_at : Option DateTime
  pub attempts : ℕ
  pub last_error : Option String

pub record DeadLetterJobModel : Type 0 where
  pub id : Uuid
  pub job_key : String
  pub function : String
  pub queue_name : String
  pub kwargs : Dict
  pub status : String
  pub error : Option String
  pub attempts : ℕ
  pub failed_at : DateTime
  pub retried_at : Option DateTime

pub record DeadLetterJob : Type 0 where
  pub id : Uuid
  pub job_key : String
  pub function : String
  pub queue_name : String
  pub kwargs : Dict
  pub status : String
  pub error : Option String
  pub attempts : ℕ
  pub failed_at : DateTime
  pub retried_at : Option DateTime

-- `DeadLetterJobRepository._to_entity`
abbrev pub job_entity : DeadLetterJobModel → DeadLetterJob
job_entity model = record {
  id = model.id;
  job_key = model.job_key;
  function = model.function;
  queue_name = model.queue_name;
  kwargs = model.kwargs;
  status = model.status;
  error = model.error;
  attempts = model.attempts;
  failed_at = model.failed_at;
  retried_at = model.retried_at;
}
