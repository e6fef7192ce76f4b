-- ===== src/Api/Sound.antt =====
-- The invariant of the whole database, along any sequence of requests.
use fasti_kit.AuthService.Sound as AuthSound
use fasti_kit.UserService.Sound as UserSound
use fasti_kit.DeadLetterService.Sound as JobSound
use fasti_kit.Api.{
  Request, login, refresh, logout, close_account, verify_email, resend_verification,
  forgot_password, reset_password, register, update, force_delete, get_job, delete_job, retry_job,
  purge, record_failure, cleanup_revoked_tokens, cleanup_refresh_sessions, replicate, serve, run,
}
use fasti_kit.DeadLetter.Sound.{record_failure-IsSettled}
use fasti_kit.Accounts.Sound.{logout-IsSettled, close_account-IsSettled}
use fasti_kit.Users.Sound.{force_delete-IsSettled}
use fasti_kit.Sessions.Sound.{purge_expired-IsSettled as sessions_purged}
use fasti_kit.Tokens.Sound.{purge_expired-IsSettled as tokens_purged}
use fasti_kit.World.Keeps.{Keeps}
use fasti_kit.World.Valid.{IsSettled}
use fasti_kit.Base.{refl, Bool, false, List, [], ◌∷◌}
use fasti_kit.Exceptions.{Result, ok, err}
use fasti_kit.World.{World, Action, close_session, db_session}
use fasti_kit.Env.{Env}

pub close_session-IsSettled :
    {A : Type 0} (flag : Bool) (r : Result A) (w : World)
    → IsSettled w
    → IsSettled (close_session flag r w).1
close_session-IsSettled flag (ok a) w h = record { committed = h.committed; settled = refl }
close_session-IsSettled flag (err e) w h = record { committed = h.committed; settled = refl }

pub db_session-IsSettled :
    {A : Type 0} (m : Action A) (w : World)
    → Keeps IsSettled m
    → IsSettled w
    → IsSettled (db_session m w).1
unfolding db_session
db_session-IsSettled m w k h =
    let (r, w') = m (record w { force_primary = false }) in
    close_session-IsSettled w.force_primary r w'
      (k.at _ (record { committed = h.committed; settled = h.settled }))

module _ (env : Env) where
  -- one request, however it ends
  pub serve-IsSettled : (r : Request) (w : World) → IsSettled w → IsSettled (serve env r w)
  unfolding serve
  serve-IsSettled (login email password) w =
      db_session-IsSettled _ w (AuthSound.login-IsSettled env email password)
  serve-IsSettled (refresh u s g) w =
      db_session-IsSettled _ w (AuthSound.refresh-IsSettled env u s g)
  serve-IsSettled (logout u ts s) w = db_session-IsSettled _ w (logout-IsSettled u ts s)
  serve-IsSettled (close_account u ts) w = db_session-IsSettled _ w (close_account-IsSettled u ts)
  serve-IsSettled (verify_email t) w =
      db_session-IsSettled _ w (AuthSound.verify_email-IsSettled env t)
  serve-IsSettled (resend_verification e) w =
      db_session-IsSettled _ w (AuthSound.resend_verification-IsSettled env e)
  serve-IsSettled (forgot_password e) w =
      db_session-IsSettled _ w (AuthSound.forgot_password-IsSettled env e)
  serve-IsSettled (reset_password t p) w =
      db_session-IsSettled _ w (AuthSound.reset_password-IsSettled env t p)
  serve-IsSettled (register q) w = db_session-IsSettled _ w (UserSound.register-IsSettled env q)
  serve-IsSettled (update u q) w = db_session-IsSettled _ w (UserSound.update-IsSettled env u q)
  serve-IsSettled (force_delete u) w = db_session-IsSettled _ w (force_delete-IsSettled u)
  serve-IsSettled (get_job j) w =
      db_session-IsSettled _ w (JobSound.get_job-IsSettled env.uuid_text j)
  serve-IsSettled (delete_job j) w =
      db_session-IsSettled _ w (JobSound.delete_job-IsSettled env.uuid_text j)
  serve-IsSettled (retry_job j) w =
      db_session-IsSettled _ w (JobSound.retry_job-IsSettled env.uuid_text j)
  serve-IsSettled (purge b o) w = db_session-IsSettled _ w (JobSound.purge-IsSettled b o)
  serve-IsSettled (record_failure f) w = db_session-IsSettled _ w (record_failure-IsSettled f)
  serve-IsSettled cleanup_revoked_tokens w = db_session-IsSettled _ w tokens_purged
  serve-IsSettled cleanup_refresh_sessions w = db_session-IsSettled _ w sessions_purged
  serve-IsSettled replicate w = λ h. record { committed = h.committed; settled = h.settled }

  -- Along any sequence of requests, of any arguments, a valid database with nothing staged stays one:
  -- primary keys, emails and the jtis of used tokens are unique, every refresh session has its user,
  -- and a session has a rotation time exactly if its generation is not 0.
  pub run-IsSettled : (rs : List Request) (w : World) → IsSettled w → IsSettled (run env rs w)
  unfolding run
  run-IsSettled [] w h = h
  run-IsSettled (r ∷ rs) w h = run-IsSettled rs (serve env r w) (serve-IsSettled r w h)
