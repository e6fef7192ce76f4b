-- ===== src/Api.antt =====
-- The calls that reach the database, each in a session of its own (`get_db`, or a job's
-- `AsyncSessionLocal`), in any order: auth/routes, user/routes, core/dead_letter/router.py and
-- core/worker/tasks.py. Of `logout` and `close_account` this is the database half.
pub mod Sound
use fasti_kit.AuthService
use fasti_kit.UserService
use fasti_kit.DeadLetterService
use fasti_kit.Accounts
use fasti_kit.Users
use fasti_kit.Sessions
use fasti_kit.Tokens
use fasti_kit.DeadLetter
use fasti_kit.UserService.{CreateUserRequest, UpdateUserRequest}
use fasti_kit.DeadLetter.{Failure}
use fasti_kit.Base.{ℕ, String, Bool, Option, List, [], ◌∷◌}
use fasti_kit.Model.{Uuid, DateTime, TokenRef}
use fasti_kit.World.{World, Action, db_session}
use fasti_kit.Env.{Env}

pub data Request : Type 0 where
  login : String → String → Request
  refresh : Uuid → Uuid → ℕ → Request
  logout : Uuid → List TokenRef → Option Uuid → Request
  close_account : Uuid → List TokenRef → Request
  verify_email resend_verification forgot_password : String → Request
  reset_password : String → String → Request
  register : CreateUserRequest → Request
  update : Uuid → UpdateUserRequest → Request
  force_delete : Uuid → Request
  get_job delete_job retry_job : Uuid → Request
  purge : Option DateTime → Bool → Request
  record_failure : Failure → Request
  cleanup_revoked_tokens cleanup_refresh_sessions : Request
  -- the replica catches up with the primary
  replicate : Request

abbrev after : {A : Type 0} → Action A → World → World
after m w = (db_session m w).1

module _ (env : Env) where
  pub serve : Request → World → World
  serve (login email password) = after (AuthService.login env email password)
  serve (refresh user_id session_id generation) =
      after (AuthService.refresh env user_id session_id generation)
  serve (logout user_id tokens session_id) = after (Accounts.logout user_id tokens session_id)
  serve (close_account user_id tokens) = after (Accounts.close_account user_id tokens)
  serve (verify_email token) = after (AuthService.verify_email env token)
  serve (resend_verification email) = after (AuthService.resend_verification env email)
  serve (forgot_password email) = after (AuthService.forgot_password env email)
  serve (reset_password token password) = after (AuthService.reset_password env token password)
  serve (register request) = after (UserService.register env request)
  serve (update user_id request) = after (UserService.update env user_id request)
  serve (force_delete user_id) = after (Users.force_delete user_id)
  serve (get_job job_id) = after (DeadLetterService.get_job env.uuid_text job_id)
  serve (delete_job job_id) = after (DeadLetterService.delete_job env.uuid_text job_id)
  serve (retry_job job_id) = after (DeadLetterService.retry_job env.uuid_text job_id)
  serve (purge before only_retried) = after (DeadLetterService.purge before only_retried)
  serve (record_failure failure) = after (DeadLetter.record_failure failure)
  serve cleanup_revoked_tokens = after Tokens.purge_expired
  serve cleanup_refresh_sessions = after Sessions.purge_expired
  serve replicate = λ w. record w { replica = w.committed }

  pub run : List Request → World → World
  run [] w = w
  run (r ∷ rs) w = run rs (serve r w)
