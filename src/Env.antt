-- ===== src/Env.antt =====
-- What the services take from bcrypt, PyJWT, the standard library and core/setting.py. Nothing of it
-- is implemented in the repository, so the services take any value of `Env`.
use fasti_kit.Base.{ℕ, String, Bool, Option}
use fasti_kit.Model.{Uuid, DateTime}

-- the claims of a token, with its times in seconds
pub record Claims : Type 0 where
  pub sub : String
  pub type : Option String
  pub jti : String
  pub iat : ℕ
  pub exp : ℕ

pub record Env : Type 0 where
  -- `hashpw(password, gensalt())` at a salt, and `checkpw`
  pub hashpw : ℕ → String → String
  pub checkpw : String → String → Bool
  -- the `_DUMMY_PASSWORD_HASH` of the process
  pub dummy_password_hash : String
  -- `jwt.encode`, and `jwt.decode` at a time, where `none` stands for a `PyJWTError`
  pub jwt_encode : Claims → String
  pub jwt_decode : DateTime → String → Option Claims
  -- `str` on a UUID, `UUID` on a text, and `.hex`
  pub uuid_text : Uuid → String
  pub parse_uuid : String → Option Uuid
  pub uuid_hex : Uuid → String
  -- the settings that the services read; the spans are in microseconds
  pub backend_url : String
  pub session_ttl : ℕ
  pub reuse_grace : ℕ
