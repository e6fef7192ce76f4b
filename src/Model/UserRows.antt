-- ===== src/Model/UserRows.antt =====
-- user/models/user_model.py and user/entities/user.py
use fasti_kit.Base.{ℕ, String, Bool, Option}

-- A UUID as its 128-bit number: the program only compares them and writes them out.
abbrev pub Uuid : Type 0
Uuid = ℕ

-- A time in UTC, in microseconds.
abbrev pub DateTime : Type 0
DateTime = ℕ

pub record UserModel : Type 0 where
  pub id : Uuid
  pub email : String
  pub password_hash : String
  pub scopes : String
  pub full_name : String
  pub is_verified : Bool
  pub pending_verification_jti : Option String
  pub pending_password_reset_jti : Option String
  pub created_at : DateTime
  pub updated_at : DateTime
  pub is_active : Bool

pub record User : Type 0 where
  pub id : Uuid
  pub email : String
  pub full_name : String
  pub password_hash : String
  pub is_active : Bool
  pub is_verified : Bool
  pub pending_verification_jti : Option String
  pub pending_password_reset_jti : Option String
  pub created_at : DateTime
  pub updated_at : DateTime
  pub scopes : String

-- `UserRepository._to_entity`
abbrev pub user_entity : UserModel → User
user_entity model = record {
  id = model.id;
  email = model.email;
  full_name = model.full_name;
  password_hash = model.password_hash;
  scopes = model.scopes;
  is_active = model.is_active;
  is_verified = model.is_verified;
  pending_verification_jti = model.pending_verification_jti;
  pending_password_reset_jti = model.pending_password_reset_jti;
  created_at = model.created_at;
  updated_at = model.updated_at;
}
