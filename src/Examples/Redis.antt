-- ===== src/Examples/Redis.antt =====
-- A Redis that keeps, for each time, which keys are set, and an authx that trusts every request.
use fasti_kit.AuthService.Leaving
use fasti_kit.Tokens
use fasti_kit.Accounts
use fasti_kit.Accounts.Ends.{
  AllSpent, NamedRevoked, AllRevoked, reset_password-AllRevoked, close_account_ends,
}
use fasti_kit.AuthService.Leaving.{logout_everywhere, logout_needs_redis}
use fasti_kit.AuthService.LoggedOut.{RowAgrees, logged_out_refused}
use fasti_kit.Base.Lists.{All}
use fasti_kit.Blocklist.{Redis, Cache, jti_key, revoke, lookup, queue, send, is_token_revoked}
use fasti_kit.Blocklist.Uses.{
  Use, Later, revokes, looks_up, claims, seeds, run_uses, lookup_remembers, revoked_refused,
}
use fasti_kit.Sessions.{stage_revoke, stage_revoke_all_for_user, revoke_where, belongs_to}
use fasti_kit.Base.Table.{find, any, update_where}
use fasti_kit.World.{utc_now, ◌>>=◌, transaction}
use fasti_kit.Users.{
  stage_deactivate, stage_update, change, flush_changed, set_fields, same_columns,
}
use fasti_kit.Tokens.{insert_token}
use fasti_kit.Examples.Data.{ann, world, as_text}
use fasti_kit.Base.{
  ℕ, ◌+◌, ◌*◌, String, ◌≡◌, refl, ◌⊎◌, false≢true, Bool, true, false, none, some, List, [], ◌∷◌,
  arith, ltb, if◌then◌else◌, string_eq, nat_eq, ◌==◌,
}
use fasti_kit.Exceptions.{ok}
use fasti_kit.Model.{User, user_entity, DateTime, TokenRef, RevokedTokenModel, AuthSession}

abbrev pub redis : Redis
redis = record {
  Store = DateTime → String → Bool;
  has = λ s t k. s t k;
  set_px = λ now k ms s t j. if j == k then ltb t (now + ms * 1000) else s t j;
  set = λ now k s t j. if j == k then true else s t j;
  set_nx_ex = λ now k seconds s t j.
      if s now k then s t j else if j == k then ltb t (now + seconds * 1000000) else s t j;
  has-set_px = λ now k ms s t j h. refl;
  has-set = λ now k s t j h. refl;
  has-set_nx_ex = λ now k seconds s t j h. refl;
}

abbrev pub up : ℕ → Bool
up n = true

abbrev pub down : ℕ → Bool
down n = false

abbrev pub empty : (reachable : ℕ → Bool) → Cache redis reachable
empty reachable = record { store = λ t j. false; calls = 0 }

abbrev token : TokenRef
token = record { jti = "bearer"; expires_at = 9000 }

-- a lookup, the seeding, and a second revocation
abbrev uses : List (DateTime × Use)
uses =
    (110, looks_up "other")
    ∷ (120, claims)
    ∷ (130, seeds (token ∷ []))
    ∷ (140, revokes (token ∷ []))
    ∷ []

abbrev made_ready : Cache redis up
made_ready = record { store = λ t j. j == "auth:blocklist:ready"; calls = 0 }

token_sent : (revoke redis up 100 (token ∷ []) (empty up)).0 ≡ ok tt
unfolding revoke queue
token_sent = refl

uses-Later : Later "bearer" 9000 100 uses
uses-Later = (
  omega arith,
  tt,
  (omega arith, tt, (omega arith, ((λ _. refl), tt), (omega arith, ((λ _. refl), tt), tt))),
)

lookup_remembers_example :
    let found =
      (lookup redis up 7000 "bearer"
        (run_uses redis up uses (revoke redis up 100 (token ∷ []) (empty up)).1)).0 in
    (found ≡ none) ⊎ (found ≡ some true)
unfolding any
lookup_remembers_example =
    lookup_remembers redis up "bearer" 9000 100 (token ∷ []) (empty up) ((λ _. refl), tt) refl
      token_sent uses uses-Later 7000 (omega arith) (omega arith)

abbrev table : List RevokedTokenModel
table = record { id = 21; jti = "bearer"; expires_at = 9000 } ∷ []

revoked_refused_example :
    (is_token_revoked redis up 7000
      (some "bearer")
      table
      (run_uses redis up uses (revoke redis up 100 (token ∷ []) (empty up)).1)).0
    ≡ true
unfolding any
revoked_refused_example =
    revoked_refused redis up "bearer" 9000 100 (token ∷ []) (empty up) ((λ _. refl), tt) refl
      token_sent uses uses-Later 7000 (omega arith) (omega arith) table refl

-- the key is gone in the last millisecond of the token
lapsed :
    (lookup redis up 8500 "bearer" (revoke redis up 100 (token ∷ []) made_ready).1).0 ≡ some false
unfolding lookup revoke queue send
lapsed = refl

reset_runs :
    (Accounts.reset_password as_text 1 "hash:fresh" "fresh" 900 (world false)).0
    ≡ ok (record (user_entity ann) { password_hash = "hash:fresh"; updated_at = 100 })
unfolding Accounts.reset_password stage_update change flush_changed set_fields same_columns
    Tokens.stage_add insert_token ◌>>=◌ transaction find any stage_revoke_all_for_user revoke_where
    update_where
reset_runs = refl

abbrev deactivated : User
deactivated = record (user_entity ann) { is_active = false; updated_at = 100 }

close_runs : (Accounts.close_account 1 (token ∷ []) (world false)).0 ≡ ok (some deactivated)
unfolding Accounts.close_account ◌>>=◌ transaction find any Accounts.add_all_if_absent
    Tokens.stage_add_if_absent Tokens.insert_if_absent stage_revoke_all_for_user revoke_where
    update_where stage_deactivate stage_update change flush_changed set_fields same_columns
close_runs = refl

reset_password-AllRevoked_example :
    AllRevoked
      (belongs_to 1)
      (Accounts.reset_password as_text 1 "hash:fresh" "fresh" 900
        (world false)).1.committed.refresh_sessions
reset_password-AllRevoked_example =
    reset_password-AllRevoked as_text 1 "hash:fresh" "fresh" 900 (world false) _ reset_runs

close_account_ends_example :
    let after = (Accounts.close_account 1 (token ∷ []) (world false)).1.committed in
    AllSpent (token ∷ []) after.revoked_tokens × AllRevoked (belongs_to 1) after.refresh_sessions
close_account_ends_example = close_account_ends 1 (token ∷ []) (world false) deactivated close_runs

abbrev leaver : AuthSession
leaver = record { user_id = 1; tokens = token ∷ []; refresh_session_id = some 10 }

leave_runs : (Leaving.logout redis up leaver (world false) (empty up)).0.0 ≡ ok tt
unfolding Leaving.logout revoke queue utc_now Accounts.logout ◌>>=◌ transaction find any
    Accounts.add_all_if_absent Tokens.stage_add_if_absent Tokens.insert_if_absent stage_revoke
    revoke_where update_where
leave_runs = refl

logout_everywhere_example :
    let after = Leaving.logout redis up leaver (world false) (empty up) in
    (redis.has after.1.store 7000 (jti_key "bearer") ≡ true)
    × AllSpent (token ∷ []) after.0.1.committed.revoked_tokens
    × NamedRevoked (some 10) 1 after.0.1.committed.refresh_sessions
unfolding any
logout_everywhere_example =
    logout_everywhere redis up leaver (world false) (empty up) tt leave_runs "bearer" 9000
      ((λ _. refl), tt) refl 7000 (omega arith) (omega arith)

rows_agree :
    All
      (RowAgrees "bearer" 9000)
      (Leaving.logout redis up leaver (world false) (empty up)).0.1.committed.revoked_tokens
unfolding Leaving.logout revoke queue utc_now Accounts.logout ◌>>=◌ transaction find any
    Accounts.add_all_if_absent Tokens.stage_add_if_absent Tokens.insert_if_absent stage_revoke
    revoke_where update_where
rows_agree =
    ((λ e. absurd (false≢true ((string_eq.decides "used" "bearer").1 e))), ((λ _. refl), tt))

logged_out_refused_example :
    (is_token_revoked redis up 7000
      (some "bearer")
      (Leaving.logout redis up leaver (world false) (empty up)).0.1.committed.revoked_tokens
      (run_uses redis up uses (Leaving.logout redis up leaver (world false) (empty up)).1)).0
    ≡ true
unfolding any
logged_out_refused_example =
    logged_out_refused redis up "bearer" 9000 leaver (world false) (empty up) tt leave_runs
      ((λ _. refl), tt) refl rows_agree uses uses-Later 7000 (omega arith) (omega arith)
