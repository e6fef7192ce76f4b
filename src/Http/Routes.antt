-- ===== src/Http/Routes.antt =====
-- auth/routes/auth_router.py, user/routes/user_router.py and core/dead_letter/router.py, but for the
-- paginated lists and the rate limits. A request is parsed already; the body of an answer is what the
-- route returns.
use fasti_kit.AuthService
use fasti_kit.AuthService.Leaving
use fasti_kit.UserService
use fasti_kit.DeadLetterService
use fasti_kit.Blocklist.{Redis, Cache, is_token_revoked}
use fasti_kit.UserService.{CreateUserRequest, UpdateUserRequest}
use fasti_kit.Env.{Env}
use fasti_kit.Problem.{error, authx}
use fasti_kit.Http.Replies.{
  user_response, login_response, message, user_body, job_body, queued, deleted, no_content, keep,
  unset, Reply, answer, refused, refresh_cookie, resend_message, forgot_message,
}
use fasti_kit.Http.{
  TokenPayload, TokenType, Credentials, Verdict, granted, denied, AuthX, scope_list,
  refresh_session_claims, get_auth_session, get_current_user,
}
use fasti_kit.Base.{ℕ, String, Bool, true, false, not, Option, none, some, [], ◌∷◌, if◌then◌else◌}
use fasti_kit.Exceptions.{
  unauthorized_action_error, invalid_refresh_token_error, domain, value_error, Result, ok, err,
}
use fasti_kit.Model.{Uuid, DateTime, AuthSession}
use fasti_kit.World.{World, Action, close_session, db_session, utc_now}

pub data AuthRoute : Type 0 where
  login : String → String → AuthRoute
  refresh logout : AuthRoute
  verify_email resend_verification forgot_password : String → AuthRoute
  reset_password : String → String → AuthRoute

pub data UserRoute : Type 0 where
  create_user : CreateUserRequest → UserRoute
  get_user delete_user : UserRoute
  update_user : UpdateUserRequest → UserRoute

pub data DeadLetterRoute : Type 0 where
  get_dead_letter_job retry_dead_letter_job delete_dead_letter_job : Uuid → DeadLetterRoute
  purge_dead_letter_jobs : Option DateTime → Bool → DeadLetterRoute

pub data Route : Type 0 where
  auth_router : AuthRoute → Route
  user_router : UserRoute → Route
  dlq_router : DeadLetterRoute → Route

module _ (env : Env) (authx_ : AuthX) (redis : Redis) (reachable : ℕ → Bool) where
  -- what the routes of one process share
  pub record Server : Type 0 where
    pub world : World
    pub cache : Cache redis reachable

  abbrev pub reply_of : {A : Type 0} → (A → Reply) → Result A → Reply
  reply_of f (ok a) = f a
  reply_of f (err e) = refused (error e)

  -- a route over one session of the database
  abbrev pub in_session : {A : Type 0} → Action A → (A → Reply) → Server → Reply × Server
  in_session m f s = let (r, w) = db_session m s.world in (reply_of f r, record s { world = w })

  abbrev pub ask_decoded : Option TokenPayload → Server → Option Bool × Server
  ask_decoded none s = (none, s)
  ask_decoded (some payload) s =
      let (revoked, cache) =
        is_token_revoked redis reachable (s.world.clock s.world.reads) payload.jti
          s.world.committed.revoked_tokens s.cache in
      (some revoked, record { world = (utc_now s.world).1; cache = cache })

  -- the callback of authx, `is_token_revoked`, on the token of a request
  unfoldable pub ask_blocklist : Option String → Server → Option Bool × Server
  ask_blocklist none s = (none, s)
  ask_blocklist (some token) s = ask_decoded (authx_.decode token) s

  -- `auth.token_required` in front of a route
  abbrev pub on_verdict :
      Verdict → (TokenPayload → Server → Reply × Server) → Server → Reply × Server
  on_verdict (granted payload) k s = k payload s
  on_verdict (denied e detail) k s = (refused (authx e detail), s)

  abbrev pub with_token :
      TokenType → Credentials → (TokenPayload → Server → Reply × Server) → Server → Reply × Server
  with_token kind credentials k s =
      let (revoked, s') = ask_blocklist (authx_.presented kind credentials) s in
      on_verdict (authx_.token_required kind credentials revoked) k s'

  -- `require_scopes(scope)` in front of a route
  unfoldable pub with_scope :
      String → Credentials → (Server → Reply × Server) → Server → Reply × Server
  with_scope scope credentials k = with_token TokenType.access credentials λ payload s.
      if not (authx_.has_scopes payload (scope ∷ []) true)
      then (refused (error (domain (unauthorized_action_error "Insufficient permissions"))), s)
      else k s

  -- `UUID(payload.sub)`
  abbrev pub on_uuid : Option Uuid → (Uuid → Server → Reply × Server) → Server → Reply × Server
  on_uuid none k s = (refused (error value_error), s)
  on_uuid (some id) k s = k id s

  -- the session of the database half, closed as `db_session` does
  abbrev pub closed :
      Bool → (Result (Unit {0}) × World) × Cache redis reachable → Reply → Reply × Server
  closed flag ((r, w), c) reply =
      let (r', w') = close_session flag r w in
      (reply_of (λ _. reply) r', record { world = w'; cache = c })

  abbrev pub leaving :
      (World → Cache redis reachable → (Result (Unit {0}) × World) × Cache redis reachable)
      → String
      → Server
      → Reply × Server
  leaving m said s =
      closed s.world.force_primary (m (record s.world { force_primary = false }) s.cache)
        (answer (message said) unset)

  abbrev pub on_auth_session :
      Option AuthSession → (AuthSession → Server → Reply × Server) → Server → Reply × Server
  on_auth_session none k s = (refused (error value_error), s)
  on_auth_session (some session) k s = k session s

  abbrev pub refresh_with : TokenPayload → Option (Uuid × ℕ) → Server → Reply × Server
  refresh_with payload none s = (refused (error (domain invalid_refresh_token_error)), s)
  refresh_with payload (some (session_id, generation)) s =
      on_uuid (env.parse_uuid payload.sub)
        (λ user_id.
          in_session (AuthService.refresh env user_id session_id generation) λ (user, session).
            answer (login_response (authx_.create_access_token payload.sub (scope_list user)))
              (refresh_cookie env authx_ payload.sub session))
        s

  -- the routes of core/dead_letter/router.py that write
  abbrev pub with_write : Credentials → (Server → Reply × Server) → Server → Reply × Server
  with_write credentials k =
      with_scope "admin:read" credentials (with_scope "admin:write" credentials k)

  -- auth/routes/auth_router.py
  unfoldable pub auth_route : AuthRoute → Credentials → Server → Reply × Server
  auth_route (login email password) credentials =
      in_session (AuthService.login env email password) λ (user, session).
        answer
          (login_response (authx_.create_access_token (env.uuid_text user.id) (scope_list user)))
          (refresh_cookie env authx_ (env.uuid_text user.id) session)
  auth_route refresh credentials =
      with_token TokenType.refresh credentials
        λ payload. refresh_with payload (refresh_session_claims env payload)
  auth_route logout credentials = with_token TokenType.access credentials λ payload.
      on_auth_session (get_auth_session env authx_ credentials payload)
        λ session. leaving (Leaving.logout redis reachable session) "Logged out"
  auth_route (verify_email token) credentials =
      in_session (AuthService.verify_email env token) λ _. answer (message "Email verified") keep
  auth_route (resend_verification email) credentials =
      in_session (AuthService.resend_verification env email)
        λ _. answer (message resend_message) keep
  auth_route (forgot_password email) credentials =
      in_session (AuthService.forgot_password env email) λ _. answer (message forgot_message) keep
  auth_route (reset_password token password) credentials =
      in_session (AuthService.reset_password env token password)
        λ _. answer (message "Password has been reset") keep

  -- user/routes/user_router.py
  unfoldable pub user_route : UserRoute → Credentials → Server → Reply × Server
  user_route (create_user request) credentials =
      in_session (UserService.register env request)
        λ user. answer (user_body (user_response user)) keep
  user_route get_user credentials = with_token TokenType.access credentials λ payload.
      in_session (get_current_user env payload) λ user. answer (user_body (user_response user)) keep
  user_route (update_user request) credentials = with_token TokenType.access credentials λ payload.
      on_uuid (env.parse_uuid payload.sub) λ user_id.
        in_session (UserService.update env user_id request)
          λ user. answer (user_body (user_response user)) keep
  user_route delete_user credentials = with_token TokenType.access credentials λ payload.
      on_auth_session (get_auth_session env authx_ credentials payload) λ session.
        leaving (Leaving.close_account redis reachable env.uuid_text session.user_id session.tokens)
          "User deleted"

  -- core/dead_letter/router.py
  unfoldable pub dead_letter_route : DeadLetterRoute → Credentials → Server → Reply × Server
  dead_letter_route (get_dead_letter_job job_id) credentials = with_scope "admin:read" credentials (
      in_session (DeadLetterService.get_job env.uuid_text job_id) λ job. answer (job_body job) keep)
  dead_letter_route (retry_dead_letter_job job_id) credentials = with_write credentials (
      in_session (DeadLetterService.retry_job env.uuid_text job_id)
        λ job. answer (queued job.job_key) keep)
  dead_letter_route (delete_dead_letter_job job_id) credentials =
      with_write credentials
        (in_session (DeadLetterService.delete_job env.uuid_text job_id) λ _. answer no_content keep)
  dead_letter_route (purge_dead_letter_jobs before only_retried) credentials =
      with_write credentials
        (in_session (DeadLetterService.purge before only_retried) λ n. answer (deleted n) keep)

  unfoldable pub route : Route → Credentials → Server → Reply × Server
  route (auth_router r) credentials = auth_route r credentials
  route (user_router r) credentials = user_route r credentials
  route (dlq_router r) credentials = dead_letter_route r credentials
