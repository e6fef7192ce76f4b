-- ===== src/Model/AuthRows.antt =====
-- auth/models and auth/entities: refresh sessions, revoked tokens, and the session of a request.
use fasti_kit.Base.{ℕ, String, Option, List}
use fasti_kit.Model.UserRows.{Uuid, DateTime}

pub record RefreshSessionModel : Type 0 where
  pub id : Uuid
  pub user_id : Uuid
  pub generation : ℕ
  pub expires_at : DateTime
  pub rotated_at : Option DateTime
  pub revoked_at : Option DateTime
  pub created_at : DateTime

pub record RefreshSession : Type 0 where
  pub id : Uuid
  pub user_id : Uuid
  pub generation : ℕ
  pub expires_at : DateTime
  pub rotated_at : Option DateTime
  pub revoked_at : Option DateTime

-- `RefreshSessionRepository._to_entity`
abbrev pub session_entity : RefreshSessionModel → RefreshSession
session_entity model = record {
  id = model.id;
  user_id = model.user_id;
  generation = model.generation;
  expires_at = model.expires_at;
  rotated_at = model.rotated_at;
  revoked_at = model.revoked_at;
}

pub record RevokedTokenModel : Type 0 where
  pub id : Uuid
  pub jti : String
  pub expires_at : DateTime

pub record RevokedToken : Type 0 where
  pub id : Uuid
  pub jti : String
  pub expires_at : DateTime

-- `RevokedTokenRepository._to_entity`
abbrev pub revoked_token_entity : RevokedTokenModel → RevokedToken
revoked_token_entity model = record {
  id = model.id;
  jti = model.jti;
  expires_at = model.expires_at;
}

pub record TokenRef : Type 0 where
  pub jti : String
  pub expires_at : DateTime

pub record AuthSession : Type 0 where
  pub user_id : Uuid
  pub tokens : List TokenRef
  pub refresh_session_id : Option Uuid
