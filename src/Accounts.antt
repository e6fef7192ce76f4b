-- ===== src/Accounts.antt =====
-- auth/repositories/account_repository.py: each method is one transaction over the users, the tokens,
-- the sessions and the outbox. `uuid_text` is `str` on a UUID.
pub mod Sound
pub mod Links
pub mod Ends
use fasti_kit.Users
use fasti_kit.Tokens
use fasti_kit.Sessions
use fasti_kit.Outbox
use fasti_kit.Users.{
  is_verified, password_hash, pending_verification_jti, pending_password_reset_jti,
}
use fasti_kit.Base.{String, true, Option, none, some, List, [], ◌∷◌}
use fasti_kit.Exceptions.{entity_not_found_error}
use fasti_kit.Json.{Dict}
use fasti_kit.Model.{Uuid, DateTime, User, TokenRef}
use fasti_kit.World.{Action, pure, raise, ◌>>=◌, ◌>>◌, transaction}

-- `for token in tokens: await self._tokens.stage_add_if_absent(...)`
unfoldable pub add_all_if_absent : List TokenRef → Action Unit
add_all_if_absent [] = pure tt
add_all_if_absent (t ∷ ts) = Tokens.stage_add_if_absent t.jti t.expires_at >> add_all_if_absent ts

module _ (uuid_text : Uuid → String) where
  -- `if user is None: raise EntityNotFoundError("User", str(user_id))`
  abbrev pub found_or_raise : Uuid → Option User → Action User
  found_or_raise user_id none = raise (entity_not_found_error "User" (uuid_text user_id))
  found_or_raise user_id (some user) = pure user

  unfoldable pub verify_email : Uuid → String → DateTime → Action User
  verify_email user_id jti expires_at = transaction do
    found ← Users.stage_update user_id (is_verified true ∷ [])
    user ← found_or_raise user_id found
    Tokens.stage_add jti expires_at
    pure user

  unfoldable pub reset_password : Uuid → String → String → DateTime → Action User
  reset_password user_id hash jti expires_at = transaction do
    found ← Users.stage_update user_id (password_hash hash ∷ [])
    user ← found_or_raise user_id found
    Tokens.stage_add jti expires_at
    Sessions.stage_revoke_all_for_user user_id
    pure user

  unfoldable pub start_email_verification : Uuid → String → Dict → Action Unit
  start_email_verification user_id jti email_payload = transaction do
    found ← Users.stage_update user_id (pending_verification_jti (some jti) ∷ [])
    found_or_raise user_id found
    Outbox.stage_add "send_email_task" email_payload
    pure tt

  unfoldable pub start_password_reset : Uuid → String → Dict → Action Unit
  start_password_reset user_id jti email_payload = transaction do
    found ← Users.stage_update user_id (pending_password_reset_jti (some jti) ∷ [])
    found_or_raise user_id found
    Outbox.stage_add "send_email_task" email_payload
    pure tt

abbrev pub revoke_given : Option Uuid → Uuid → Action Unit
revoke_given none user_id = pure tt
revoke_given (some refresh_session_id) user_id = Sessions.stage_revoke refresh_session_id user_id

unfoldable pub logout : Uuid → List TokenRef → Option Uuid → Action Unit
logout user_id tokens refresh_session_id =
    transaction do add_all_if_absent tokens; revoke_given refresh_session_id user_id

abbrev pub close_found : Uuid → List TokenRef → Option User → Action (Option User)
close_found user_id tokens none = pure none
close_found user_id tokens (some user) = do
  add_all_if_absent tokens
  Sessions.stage_revoke_all_for_user user_id
  pure (some user)

unfoldable pub close_account : Uuid → List TokenRef → Action (Option User)
close_account user_id tokens =
    transaction do found ← Users.stage_deactivate user_id; close_found user_id tokens found
