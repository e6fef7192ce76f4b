-- ===== src/AuthService.antt =====
-- auth/services/auth_service.py, but for `logout` and `close_account`, which also write to Redis.
pub mod Sound
pub mod Login
pub mod Leaving
pub mod LoggedOut
pub mod Refresh
use fasti_kit.Users
use fasti_kit.Sessions
use fasti_kit.Tokens
use fasti_kit.Accounts
use fasti_kit.Security
use fasti_kit.Base.{
  ℕ, ◌+◌, ◌-◌, String, Bool, true, false, not, ◌&&◌, ◌||◌, Option, none, some, ltb, leb,
  if◌then◌else◌, ◌==◌, nat_eq, string_eq, is_none, holds,
}
use fasti_kit.Exceptions.{
  entity_not_found_error, conflict_error, invalid_credentials_error, invalid_token_error,
  invalid_refresh_token_error, value_error,
}
use fasti_kit.Model.{Uuid, DateTime, User, RefreshSession}
use fasti_kit.World.{Action, pure, throw, raise, ◌>>=◌, ◌>>◌, utc_now, except_conflict}
use fasti_kit.Env.{Claims, Env}
use fasti_kit.Security.{
  seconds, verify_type, reset_type, hash_password, authenticate, create_verification_token,
  create_reset_token, build_verification_email, build_reset_email, decode_token,
}

-- `_is_live` at a time
abbrev pub is_live : RefreshSession → Uuid → DateTime → Bool
is_live session user_id now =
    session.user_id == user_id && is_none session.revoked_at && ltb now session.expires_at

module _ (env : Env) where
  -- `_was_just_rotated_from` at a time
  abbrev pub was_just_rotated_from : RefreshSession → ℕ → DateTime → Bool
  was_just_rotated_from session generation now =
      session.generation == generation + 1
      && elim session.rotated_at [ none ↦ false | some t ↦ leb (now - t) env.reuse_grace ]

  abbrev pub open_session : Option User → Action (User × RefreshSession)
  open_session none = raise invalid_credentials_error
  open_session (some user) = do
    now ← utc_now
    session ← Sessions.create user.id (now + env.session_ttl)
    pure (user, session)

  unfoldable pub login : String → String → Action (User × RefreshSession)
  login email password = do user ← Security.authenticate env email password; open_session user

  -- `current` is live: a fresh retry is told so, and any other reuse revokes the session.
  abbrev pub judge_live : Uuid → ℕ → RefreshSession → Action (User × RefreshSession)
  judge_live session_id generation current = do
    now ← utc_now
    if was_just_rotated_from current generation now
        then raise (conflict_error "Refresh token was just rotated; retry with the latest cookie")
        else Sessions.revoke session_id >> raise invalid_refresh_token_error

  -- what `refresh` does after a claim that failed
  abbrev pub judge_reuse : Uuid → Uuid → ℕ → Option RefreshSession → Action (User × RefreshSession)
  judge_reuse user_id session_id generation none = raise invalid_refresh_token_error
  judge_reuse user_id session_id generation (some current) = do
    now ← utc_now
    if not (is_live current user_id now)
        then raise invalid_refresh_token_error
        else judge_live session_id generation current

  abbrev pub after_claim :
      User → Uuid → Uuid → ℕ → Option RefreshSession → Action (User × RefreshSession)
  after_claim user user_id session_id generation (some rotated) = pure (user, rotated)
  after_claim user user_id session_id generation none = do
    current ← Sessions.get session_id
    judge_reuse user_id session_id generation current

  abbrev pub rotate_for : Uuid → Uuid → ℕ → Option User → Action (User × RefreshSession)
  rotate_for user_id session_id generation none = raise invalid_credentials_error
  rotate_for user_id session_id generation (some user) =
      if not user.is_active || not user.is_verified then raise invalid_credentials_error else do
        rotated ← Sessions.rotate session_id user_id generation
        after_claim user user_id session_id generation rotated

  unfoldable pub refresh : Uuid → Uuid → ℕ → Action (User × RefreshSession)
  refresh user_id session_id generation = do
    user ← Users.get user_id true
    rotate_for user_id session_id generation user

  abbrev unused : Claims → String → Bool → Action Claims
  unused payload used true = raise (invalid_token_error used)
  unused payload used false = pure payload

  abbrev check_claims : String → String → String → String → Option Claims → Action Claims
  check_claims expected_type invalid wrong_type used none = raise (invalid_token_error invalid)
  check_claims expected_type invalid wrong_type used (some payload) =
      if not (holds payload.type expected_type)
      then raise (invalid_token_error wrong_type)
      else do revoked ← Tokens.exists payload.jti; unused payload used revoked

  -- `_decode`
  unfoldable pub decode : String → String → String → String → String → Action Claims
  decode token expected_type invalid wrong_type used = do
    payload ← Security.decode_token env token
    check_claims expected_type invalid wrong_type used payload

  -- `_user_for_token`
  abbrev require_user : String → Option User → Action User
  require_user sub none = raise (entity_not_found_error "User" sub)
  require_user sub (some user) = pure user

  abbrev load_user : String → Option Uuid → Action User
  load_user sub none = throw value_error
  load_user sub (some id) = do user ← Users.get id true; require_user sub user

  unfoldable pub user_for_token : Claims → Action User
  user_for_token payload = load_user payload.sub (env.parse_uuid payload.sub)

  -- `_expiry`
  abbrev pub expiry : Claims → DateTime
  expiry payload = Security.seconds payload.exp

  abbrev consume_verification : User → Claims → Action Unit
  consume_verification user payload =
      if not (holds user.pending_verification_jti payload.jti)
      then raise (invalid_token_error "Verification link has been superseded by a newer request")
      else except_conflict (invalid_token_error "Verification link already used")
          (Accounts.verify_email env.uuid_text user.id payload.jti (expiry payload) >> pure tt)

  unfoldable pub verify_email : String → Action Unit
  verify_email token = do
    payload ←
        decode token Security.verify_type "Invalid or expired verification link"
          "Invalid verification token" "Verification link already used"
    user ← user_for_token payload
    consume_verification user payload

  abbrev resend_to : String → Option User → Action Unit
  resend_to email none = pure tt
  resend_to email (some user) = if user.is_verified then pure tt else do
    (token, jti) ← Security.create_verification_token env (env.uuid_text user.id)
    Accounts.start_email_verification env.uuid_text user.id jti
        (Security.build_verification_email env email token)

  unfoldable pub resend_verification : String → Action Unit
  resend_verification email = do user ← Users.get_by_email email false; resend_to email user

  abbrev reset_for : String → Option User → Action Unit
  reset_for email none = pure tt
  reset_for email (some user) = if not user.is_active then pure tt else do
    (token, jti) ← Security.create_reset_token env (env.uuid_text user.id)
    Accounts.start_password_reset env.uuid_text user.id jti
        (Security.build_reset_email env email token)

  unfoldable pub forgot_password : String → Action Unit
  forgot_password email = do user ← Users.get_by_email email false; reset_for email user

  abbrev store_password : User → Claims → String → Action Unit
  store_password user payload new_password = do
    hash ← Security.hash_password env new_password
    Accounts.reset_password env.uuid_text user.id hash payload.jti (expiry payload)
    pure tt

  abbrev consume_reset : User → Claims → String → Action Unit
  consume_reset user payload new_password =
      if not user.is_active
      then raise (entity_not_found_error "User" (env.uuid_text user.id))
      else if not (holds user.pending_password_reset_jti payload.jti)
      then raise (invalid_token_error "Reset link has been superseded by a newer request")
      else except_conflict (invalid_token_error "Reset link already used")
          (store_password user payload new_password)

  unfoldable pub reset_password : String → String → Action Unit
  reset_password token new_password = do
    payload ←
        decode token Security.reset_type "Invalid or expired reset link" "Invalid reset token"
          "Reset link already used"
    user ← user_for_token payload
    consume_reset user payload new_password
