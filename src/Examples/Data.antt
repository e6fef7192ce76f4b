-- ===== src/Examples/Data.antt =====
-- One user with one refresh session, one used token, three events and one failed job.
use fasti_kit.Base.{
  ◌+◌, String, ◌<>◌, refl, Bool, true, false, none, some, [], ◌∷◌, arith, if◌then◌else◌, ◌==◌,
  nat_eq, string_eq,
}
use fasti_kit.Base.Table.{any}
use fasti_kit.Json.{end}
use fasti_kit.Model.{
  Uuid, DateTime, UserModel, RefreshSessionModel, RevokedTokenModel, OutboxEvent,
  DeadLetterJobModel,
}
use fasti_kit.World.{Db, World}
use fasti_kit.Env.{Env}
use fasti_kit.World.Valid.{IsValid, IsSettled}

abbrev pub ann : UserModel
ann = record {
  id = 1;
  email = "ann@example.com";
  password_hash = "hash:secret";
  scopes = "";
  full_name = "Ann";
  is_verified = true;
  pending_verification_jti = none;
  pending_password_reset_jti = some "reset";
  created_at = 0;
  updated_at = 0;
  is_active = true;
}

abbrev pub session : RefreshSessionModel
session = record {
  id = 10;
  user_id = 1;
  generation = 0;
  expires_at = 1000;
  rotated_at = none;
  revoked_at = none;
  created_at = 0;
}

abbrev pub used : RevokedTokenModel
used = record { id = 20; jti = "used"; expires_at = 1000 }

abbrev pub event : Uuid → DateTime → OutboxEvent
event id created_at = record {
  id = id;
  task_name = "send_email_task";
  payload = end;
  created_at = created_at;
  dispatched_at = none;
  failed_at = none;
  attempts = 0;
  last_error = none;
}

abbrev pub job : DeadLetterJobModel
job = record {
  id = 40;
  job_key = "outbox:30";
  function = "send_email_task";
  queue_name = "default";
  kwargs = end;
  status = "failed";
  error = some "timeout";
  attempts = 3;
  failed_at = 5;
  retried_at = none;
}

abbrev pub db : Db
db = record {
  users = ann ∷ [];
  refresh_sessions = session ∷ [];
  revoked_tokens = used ∷ [];
  outbox_events = event 30 7 ∷ event 31 3 ∷ event 32 5 ∷ [];
  dead_letter_jobs = job ∷ [];
}

abbrev pub world : Bool → World
world commit_fails = record {
  committed = db;
  working = db;
  replica = db;
  force_primary = false;
  commit_fails = commit_fails;
  clock = λ k. 100 + k;
  reads = 0;
  random = λ k. 1000 + k;
  draws = 0;
}

abbrev pub as_text : Uuid → String
as_text id = if id == 1 then "one" else "other"

abbrev pub env : Env
env = record {
  hashpw = λ salt password. "hash:" <> password;
  checkpw = λ password hash. hash == ("hash:" <> password);
  dummy_password_hash = "hash:dummy";
  jwt_encode = λ claims. claims.jti;
  jwt_decode = λ now token.
      some (record { sub = "one"; type = some "password_reset"; jti = token; iat = 0; exp = 900 });
  uuid_text = as_text;
  parse_uuid = λ text. if text == "one" then some 1 else none;
  uuid_hex = as_text;
  backend_url = "https://example.com";
  session_ttl = 1000;
  reuse_grace = 10;
}

pub db-IsValid : IsValid db
unfolding any
db-IsValid = record {
  users = record { ids = (tt, tt); emails = (tt, tt) };
  sessions = record {
    ids = (tt, tt);
    owners = (refl, tt);
    rotations = (((λ _. refl), (λ _. refl)), tt);
  };
  tokens = record { ids = (tt, tt); jtis = (tt, tt) };
  event_ids = (
    ((λ e. omega (arith, e)), ((λ e. omega (arith, e)), tt)),
    (((λ e. omega (arith, e)), tt), (tt, tt)),
  );
  job_ids = (tt, tt);
}

pub world-IsSettled : (commit_fails : Bool) → IsSettled (world commit_fails)
world-IsSettled commit_fails = record { committed = db-IsValid; settled = refl }
