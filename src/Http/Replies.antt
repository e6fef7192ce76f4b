-- ===== src/Http/Replies.antt =====
-- The answers of the routes: user/schemas/user_schema.py and auth/schemas/auth_schema.py, and
-- `_set_refresh_cookie` of auth/routes/auth_router.py.
use fasti_kit.Env.{Env}
use fasti_kit.Problem.{Raised}
use fasti_kit.Http.{AuthX}
use fasti_kit.Base.{ℕ, String, Bool}
use fasti_kit.Model.{Uuid, DateTime, User, RefreshSession, DeadLetterJob}

-- user/schemas/user_schema.py: the fields of a user that an answer shows
pub record UserResponse : Type 0 where
  pub id : Uuid
  pub email : String
  pub full_name : String
  pub is_verified : Bool
  pub is_active : Bool
  pub created_at : DateTime
  pub updated_at : DateTime

abbrev pub user_response : User → UserResponse
user_response user = record {
  id = user.id;
  email = user.email;
  full_name = user.full_name;
  is_verified = user.is_verified;
  is_active = user.is_active;
  created_at = user.created_at;
  updated_at = user.updated_at;
}

pub data Body : Type 0 where
  login_response : String → Body
  message : String → Body
  user_body : UserResponse → Body
  job_body : DeadLetterJob → Body
  queued : String → Body
  deleted : ℕ → Body
  no_content : Body

-- what an answer does to the refresh cookie
pub data Cookie : Type 0 where
  keep unset : Cookie
  set_refresh : String → Cookie

pub data Reply : Type 0 where
  answer : Body → Cookie → Reply
  refused : Raised → Reply

-- `_set_refresh_cookie`
abbrev pub refresh_cookie : Env → AuthX → String → RefreshSession → Cookie
refresh_cookie env authx_ user_id session = set_refresh (
    authx_.create_refresh_token user_id session.expires_at (env.uuid_text session.id)
      session.generation)

abbrev pub resend_message : String
resend_message =
    "If an account with that email exists and is unverified, a verification link has been sent."

abbrev pub forgot_message : String
forgot_message = "If an account with that email exists, a password reset link has been sent."
