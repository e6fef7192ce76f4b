-- ===== src/Accounts/Sound.antt =====
-- auth/repositories/account_repository.py: the validity of the database through each transaction.
use fasti_kit.Accounts.{
  add_all_if_absent, found_or_raise, verify_email, reset_password, start_email_verification,
  start_password_reset, revoke_given, logout, close_found, close_account,
}
use fasti_kit.Users.Sound.{stage_update-IsSound, stage_deactivate-IsSound}
use fasti_kit.Tokens.Sound.{stage_add-IsSound, stage_add_if_absent-IsSound}
use fasti_kit.Sessions.Sound.{stage_revoke-IsSound, stage_revoke_all-IsSound}
use fasti_kit.Outbox.Sound.{stage_add-IsSound as event-IsSound}
use fasti_kit.World.Keeps.{Keeps, keeps_rules, Keeps-bind}
use fasti_kit.World.Valid.{IsSound, IsSettled, Keeps-transaction}
use fasti_kit.Base.{String, Option, none, some, List, [], ◌∷◌}
use fasti_kit.Json.{Dict}
use fasti_kit.Model.{Uuid, DateTime, User, TokenRef}

add_all_if_absent-IsSound : (tokens : List TokenRef) → Keeps IsSound (add_all_if_absent tokens)
unfolding add_all_if_absent
add_all_if_absent-IsSound [] = search keeps_rules
add_all_if_absent-IsSound (t ∷ ts) =
    Keeps-bind _ _ (stage_add_if_absent-IsSound t.jti t.expires_at)
      (λ _. add_all_if_absent-IsSound ts)

module _ (uuid_text : Uuid → String) where
  found_or_raise-IsSound :
      (user_id : Uuid) (found : Option User)
      → Keeps IsSound (found_or_raise uuid_text user_id found)
  found_or_raise-IsSound user_id none = search keeps_rules
  found_or_raise-IsSound user_id (some user) = search keeps_rules

  ruleset account_rules = (
    keeps_rules, found_or_raise-IsSound, stage_update-IsSound, stage_add-IsSound, event-IsSound,
    stage_revoke_all-IsSound, Keeps-transaction,
  )

  pub verify_email-IsSettled :
      (user_id : Uuid) (jti : String) (expires_at : DateTime)
      → Keeps IsSettled (verify_email uuid_text user_id jti expires_at)
  unfolding verify_email
  verify_email-IsSettled user_id jti expires_at = search account_rules depth 9

  pub reset_password-IsSettled :
      (user_id : Uuid) (hash jti : String) (expires_at : DateTime)
      → Keeps IsSettled (reset_password uuid_text user_id hash jti expires_at)
  unfolding reset_password
  reset_password-IsSettled user_id hash jti expires_at = search account_rules depth 9

  pub start_email_verification-IsSettled :
      (user_id : Uuid) (jti : String) (email_payload : Dict)
      → Keeps IsSettled (start_email_verification uuid_text user_id jti email_payload)
  unfolding start_email_verification
  start_email_verification-IsSettled user_id jti email_payload = search account_rules depth 9

  pub start_password_reset-IsSettled :
      (user_id : Uuid) (jti : String) (email_payload : Dict)
      → Keeps IsSettled (start_password_reset uuid_text user_id jti email_payload)
  unfolding start_password_reset
  start_password_reset-IsSettled user_id jti email_payload = search account_rules depth 9

revoke_given-IsSound :
    (session_id : Option Uuid) (user_id : Uuid) → Keeps IsSound (revoke_given session_id user_id)
revoke_given-IsSound none user_id = search keeps_rules
revoke_given-IsSound (some session_id) user_id = stage_revoke-IsSound session_id user_id

pub logout-IsSettled :
    (user_id : Uuid) (tokens : List TokenRef) (session_id : Option Uuid)
    → Keeps IsSettled (logout user_id tokens session_id)
unfolding logout
logout-IsSettled user_id tokens session_id =
    search (keeps_rules, Keeps-transaction, add_all_if_absent-IsSound, revoke_given-IsSound)

close_found-IsSound :
    (user_id : Uuid) (tokens : List TokenRef) (found : Option User)
    → Keeps IsSound (close_found user_id tokens found)
close_found-IsSound user_id tokens none = search keeps_rules
close_found-IsSound user_id tokens (some user) =
    search (keeps_rules, add_all_if_absent-IsSound, stage_revoke_all-IsSound)

pub close_account-IsSettled :
    (user_id : Uuid) (tokens : List TokenRef) → Keeps IsSettled (close_account user_id tokens)
unfolding close_account
close_account-IsSettled user_id tokens =
    search (keeps_rules, Keeps-transaction, stage_deactivate-IsSound, close_found-IsSound)
