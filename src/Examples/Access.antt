-- ===== src/Examples/Access.antt =====
-- A login, and a session of the database, on the example.
use fasti_kit.Users
use fasti_kit.AuthService
use fasti_kit.Accounts
use fasti_kit.Tokens
use fasti_kit.Sessions.{
  rotate, claim, advance, revoke_where, stage_revoke_all_for_user, create, insert_session,
}
use fasti_kit.AuthService.Refresh.{IsRefreshed, refresh_admits}
use fasti_kit.Model.{session_entity, User, user_entity, RefreshSession}
use fasti_kit.Base.Table.{select, find, any}
use fasti_kit.Accounts.Links.{is_spent, reset_password-Spends}
use fasti_kit.Tokens.{insert_token}
use fasti_kit.Users.{stage_update, change, flush_changed, set_fields, same_columns, get_by_email}
use fasti_kit.AuthService.Login.{IsAdmitted, login_admits}
use fasti_kit.Routing.{
  insert_clause, text_clause, select_clause, Engine, primary, replica, get_bind, Session, Operation,
  add, flush, statement, operate_all, operate, execute, attempt, can_fail_over, is_empty,
}
use fasti_kit.Routing.Failover.{HasWork, failover_keeps_work, reads_own_writes}
use fasti_kit.Security.{authenticate}
use fasti_kit.Examples.Data.{used, ann, world, env, as_text, session}
use fasti_kit.Base.{◌≡◌, refl, inl, inr, Bool, true, false, none, List, [], ◌∷◌}
use fasti_kit.Exceptions.{ok}
use fasti_kit.World.{◌>>=◌, transaction}

abbrev opened : RefreshSession
opened = record {
  id = 1000;
  user_id = 1;
  generation = 0;
  expires_at = 1100;
  rotated_at = none;
  revoked_at = none;
}

login_runs :
    (AuthService.login env "ann@example.com" "secret" (world false)).0
    ≡ ok (user_entity ann, opened)
unfolding AuthService.login authenticate get_by_email create insert_session transaction ◌>>=◌ find
    any
login_runs = refl

login_admits_example :
    IsAdmitted env "ann@example.com" "secret" (world false).working (user_entity ann) opened
login_admits_example =
    login_admits env "ann@example.com" "secret" (world false) (user_entity ann) opened login_runs

abbrev replica_down : Engine → Bool
replica_down primary = false
replica_down replica = true

-- a read that fails over, an object that is added, an insert, and a text that writes
abbrev operations : List Operation
operations =
    statement select_clause 1 replica_down replica_down
    ∷ add 2
    ∷ statement insert_clause 3 replica_down replica_down
    ∷ statement (text_clause true "update users set is_active = true") 4 replica_down replica_down
    ∷ flush
    ∷ []

abbrev idle_session : Session
idle_session = record { pending = []; written = []; force_primary = false }

abbrev pending_session : Session
pending_session = record { pending = 7 ∷ []; written = []; force_primary = false }

pending_work : HasWork 7 pending_session
unfolding any
pending_work = inr refl

failover_keeps_work_example : HasWork 7 (operate_all operations pending_session)
unfolding any
failover_keeps_work_example =
    failover_keeps_work operations 7 pending_session (refl, (refl, (refl, (refl, (refl, tt)))))
      (inl refl) pending_work

session_wrote : is_empty (operate_all operations idle_session).written ≡ false
unfolding operate_all operate execute attempt get_bind can_fail_over
session_wrote = refl

reads_own_writes_example :
    (get_bind select_clause (operate_all operations idle_session).force_primary).0 ≡ primary
unfolding any
reads_own_writes_example =
    reads_own_writes operations idle_session select_clause
      (refl, (refl, (refl, (refl, (refl, tt))))) (inl refl) session_wrote

-- ann is verified already, so nothing of the row changes
abbrev renewed : User
renewed = user_entity (record ann { password_hash = "hash:fresh"; updated_at = 100 })

reset_runs :
    (Accounts.reset_password as_text 1 "hash:fresh" "reset" 900 (world false)).0 ≡ ok renewed
unfolding Accounts.reset_password stage_update change flush_changed set_fields same_columns
    Tokens.stage_add insert_token stage_revoke_all_for_user revoke_where ◌>>=◌ transaction find any
reset_runs = refl

reset_password-Spends_example :
    (is_spent "reset" (used ∷ []) ≡ false)
    × (is_spent "reset"
          (Accounts.reset_password as_text 1 "hash:fresh" "reset" 900
            (world false)).1.committed.revoked_tokens
        ≡ true)
reset_password-Spends_example =
    reset_password-Spends as_text 1 "reset" 900 "hash:fresh" (world false) renewed reset_runs

-- the session of the example after its first rotation, at the time 100
abbrev rotated_session : RefreshSession
rotated_session = session_entity (advance 100 session)

refresh_runs :
    (AuthService.refresh env 1 10 0 (world false)).0 ≡ ok (user_entity ann, rotated_session)
unfolding AuthService.refresh Users.get rotate claim transaction ◌>>=◌ find select
refresh_runs = refl

refresh_admits_example :
    IsRefreshed env 1 10 0 (world false).working (user_entity ann) rotated_session
refresh_admits_example =
    refresh_admits env 1 10 0 (world false) (user_entity ann) rotated_session refresh_runs
