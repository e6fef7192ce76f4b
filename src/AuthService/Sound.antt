-- ===== src/AuthService/Sound.antt =====
-- auth/services/auth_service.py: the validity of the database through each method.
use fasti_kit.Accounts.Sound.{
  verify_email-IsSettled as account-verified, start_email_verification-IsSettled,
  start_password_reset-IsSettled, reset_password-IsSettled as account-reset,
}
use fasti_kit.AuthService.{
  judge_live, judge_reuse, after_claim, rotate_for, open_session, login, refresh, unused,
  check_claims, decode, require_user, load_user, user_for_token, consume_verification, verify_email,
  resend_to, resend_verification, reset_for, forgot_password, store_password, consume_reset,
  reset_password,
}
use fasti_kit.Security.{
  hash_password, authenticate, create_verification_token, create_reset_token, decode_token,
}
use fasti_kit.Users.Sound.{get-stable, get_by_email-stable}
use fasti_kit.Sessions.Sound.{create-IsSettled, rotate-IsSettled, get-IsSettled, revoke-IsSettled}
use fasti_kit.Tokens.Sound.{exists-IsSettled}
use fasti_kit.World.Keeps.{Keeps, keeps_rules}
use fasti_kit.World.Valid.{IsSettled, IsSettled-stable}
use fasti_kit.Base.{ℕ, String, Bool, true, false, Option, none, some}
use fasti_kit.Model.{Uuid, User, RefreshSession}
use fasti_kit.Env.{Claims, Env}

module _ (env : Env) where
  pub hash_password-IsSettled : (password : String) → Keeps IsSettled (hash_password env password)
  unfolding hash_password
  hash_password-IsSettled password = search (keeps_rules, IsSettled-stable)

  pub create_verification_token-IsSettled :
      (user_id : String) → Keeps IsSettled (create_verification_token env user_id)
  unfolding create_verification_token
  create_verification_token-IsSettled user_id = search (keeps_rules, IsSettled-stable)

  create_reset_token-IsSettled :
      (user_id : String) → Keeps IsSettled (create_reset_token env user_id)
  unfolding create_reset_token
  create_reset_token-IsSettled user_id = search (keeps_rules, IsSettled-stable)

  authenticate-IsSettled :
      (email password : String) → Keeps IsSettled (authenticate env email password)
  unfolding authenticate
  authenticate-IsSettled email password =
      search (keeps_rules, IsSettled-stable, get_by_email-stable)

  open_session-IsSettled : (user : Option User) → Keeps IsSettled (open_session env user)
  open_session-IsSettled none = search keeps_rules
  open_session-IsSettled (some user) = search (keeps_rules, IsSettled-stable, create-IsSettled)

  pub login-IsSettled : (email password : String) → Keeps IsSettled (login env email password)
  unfolding login
  login-IsSettled email password =
      search (keeps_rules, authenticate-IsSettled, open_session-IsSettled)

  judge_live-IsSettled :
      (session_id : Uuid) (generation : ℕ) (current : RefreshSession)
      → Keeps IsSettled (judge_live env session_id generation current)
  judge_live-IsSettled session_id generation current =
      search (keeps_rules, IsSettled-stable, revoke-IsSettled)

  judge_reuse-IsSettled :
      (user_id session_id : Uuid) (generation : ℕ) (current : Option RefreshSession)
      → Keeps IsSettled (judge_reuse env user_id session_id generation current)
  judge_reuse-IsSettled user_id session_id generation none = search keeps_rules
  judge_reuse-IsSettled user_id session_id generation (some current) =
      search (keeps_rules, IsSettled-stable, judge_live-IsSettled)

  after_claim-IsSettled :
      (user : User) (user_id session_id : Uuid) (generation : ℕ) (rotated : Option RefreshSession)
      → Keeps IsSettled (after_claim env user user_id session_id generation rotated)
  after_claim-IsSettled user user_id session_id generation none =
      search (keeps_rules, get-IsSettled, judge_reuse-IsSettled)
  after_claim-IsSettled user user_id session_id generation (some rotated) = search keeps_rules

  rotate_for-IsSettled :
      (user_id session_id : Uuid) (generation : ℕ) (user : Option User)
      → Keeps IsSettled (rotate_for env user_id session_id generation user)
  rotate_for-IsSettled user_id session_id generation none = search keeps_rules
  rotate_for-IsSettled user_id session_id generation (some user) =
      search (keeps_rules, rotate-IsSettled, after_claim-IsSettled)

  pub refresh-IsSettled :
      (user_id session_id : Uuid) (generation : ℕ)
      → Keeps IsSettled (refresh env user_id session_id generation)
  unfolding refresh
  refresh-IsSettled user_id session_id generation =
      search (keeps_rules, IsSettled-stable, get-stable, rotate_for-IsSettled)

  unused-IsSettled :
      (payload : Claims) (used : String) (revoked : Bool)
      → Keeps IsSettled (unused env payload used revoked)
  unused-IsSettled payload used true = search keeps_rules
  unused-IsSettled payload used false = search keeps_rules

  check_claims-IsSettled :
      (kind invalid wrong_type used : String) (payload : Option Claims)
      → Keeps IsSettled (check_claims env kind invalid wrong_type used payload)
  check_claims-IsSettled kind invalid wrong_type used none = search keeps_rules
  check_claims-IsSettled kind invalid wrong_type used (some payload) =
      search (keeps_rules, exists-IsSettled, unused-IsSettled)

  decode-IsSettled :
      (token kind invalid wrong_type used : String)
      → Keeps IsSettled (decode env token kind invalid wrong_type used)
  unfolding decode decode_token
  decode-IsSettled token kind invalid wrong_type used =
      search (keeps_rules, IsSettled-stable, check_claims-IsSettled)

  require_user-IsSettled :
      (sub : String) (user : Option User) → Keeps IsSettled (require_user env sub user)
  require_user-IsSettled sub none = search keeps_rules
  require_user-IsSettled sub (some user) = search keeps_rules

  load_user-IsSettled : (sub : String) (id : Option Uuid) → Keeps IsSettled (load_user env sub id)
  load_user-IsSettled sub none = search keeps_rules
  load_user-IsSettled sub (some id) =
      search (keeps_rules, IsSettled-stable, get-stable, require_user-IsSettled)

  user_for_token-IsSettled : (payload : Claims) → Keeps IsSettled (user_for_token env payload)
  unfolding user_for_token
  user_for_token-IsSettled payload = load_user-IsSettled _ _

  consume_verification-IsSettled :
      (user : User) (payload : Claims) → Keeps IsSettled (consume_verification env user payload)
  consume_verification-IsSettled user payload = search (keeps_rules, account-verified) depth 9

  pub verify_email-IsSettled : (token : String) → Keeps IsSettled (verify_email env token)
  unfolding verify_email
  verify_email-IsSettled token =
      search
        (keeps_rules, decode-IsSettled, user_for_token-IsSettled, consume_verification-IsSettled)

  resend_to-IsSettled :
      (email : String) (user : Option User) → Keeps IsSettled (resend_to env email user)
  resend_to-IsSettled email none = search keeps_rules
  resend_to-IsSettled email (some user) =
      search (keeps_rules, create_verification_token-IsSettled, start_email_verification-IsSettled)

  pub resend_verification-IsSettled :
      (email : String) → Keeps IsSettled (resend_verification env email)
  unfolding resend_verification
  resend_verification-IsSettled email =
      search (keeps_rules, IsSettled-stable, get_by_email-stable, resend_to-IsSettled)

  reset_for-IsSettled :
      (email : String) (user : Option User) → Keeps IsSettled (reset_for env email user)
  reset_for-IsSettled email none = search keeps_rules
  reset_for-IsSettled email (some user) =
      search (keeps_rules, create_reset_token-IsSettled, start_password_reset-IsSettled)

  pub forgot_password-IsSettled : (email : String) → Keeps IsSettled (forgot_password env email)
  unfolding forgot_password
  forgot_password-IsSettled email =
      search (keeps_rules, IsSettled-stable, get_by_email-stable, reset_for-IsSettled)

  store_password-IsSettled :
      (user : User) (payload : Claims) (password : String)
      → Keeps IsSettled (store_password env user payload password)
  store_password-IsSettled user payload password =
      search (keeps_rules, hash_password-IsSettled, account-reset) depth 9

  consume_reset-IsSettled :
      (user : User) (payload : Claims) (password : String)
      → Keeps IsSettled (consume_reset env user payload password)
  consume_reset-IsSettled user payload password =
      search (keeps_rules, store_password-IsSettled) depth 9

  pub reset_password-IsSettled :
      (token password : String) → Keeps IsSettled (reset_password env token password)
  unfolding reset_password
  reset_password-IsSettled token password =
      search (keeps_rules, decode-IsSettled, user_for_token-IsSettled, consume_reset-IsSettled)
