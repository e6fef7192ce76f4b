-- ===== src/Http.antt =====
-- auth/dependencies.py and user/dependencies.py: what a request brings, and who may send it. The
-- signatures of tokens are the work of authx, a parameter here; its check of a token asks
-- `is_token_revoked`, the callback that is set on it.
pub mod Replies
pub mod Routes
pub mod Access
use fasti_kit.Users
use fasti_kit.Env.{Env}
use fasti_kit.Text.{words}
use fasti_kit.Problem.{AuthxError, Raised, error, authx}
use fasti_kit.Base.{
  ℕ, String, Bool, false, not, Option, none, some, List, [], ◌∷◌, ◌++◌, if◌then◌else◌, string_eq,
  nat_eq, ◌==◌,
}
use fasti_kit.Exceptions.{entity_not_found_error, unauthorized_action_error, value_error}
use fasti_kit.Model.{Uuid, DateTime, User, TokenRef, AuthSession}
use fasti_kit.World.{Action, pure, throw, raise, ◌>>=◌, ◌>>◌}

-- authx's `TokenPayload`, with the claims that the service adds to a refresh token
pub record TokenPayload : Type 0 where
  pub sub : String
  pub jti : Option String
  pub expiry_datetime : DateTime
  pub scopes : List String
  pub sid : Option String
  pub gen : Option ℕ

pub data TokenType : Type 0 where
  access refresh : TokenType

-- The headers and the cookie that carry tokens.
pub record Credentials : Type 0 where
  pub authorization : Option String
  pub refresh_cookie : Option String

pub data Verdict : Type 0 where
  granted : TokenPayload → Verdict
  denied : AuthxError → String → Verdict

pub record AuthX : Type 0 where
  -- the token of a request, an access token in a header or a refresh token in a cookie, for which authx
  -- asks its callback
  pub presented : TokenType → Credentials → Option String
  -- `auth.token_required(type=...)`, from the answer of the callback, `none` where it is not asked or
  -- raises
  pub token_required : TokenType → Credentials → Option Bool → Verdict
  -- `TokenPayload.decode`, where `none` stands for a `JWTDecodeError`
  pub decode : String → Option TokenPayload
  -- `payload.has_scopes(*required, all_required=...)`
  pub has_scopes : TokenPayload → List String → Bool → Bool
  pub create_access_token : String → List String → String
  -- `auth.create_refresh_token` on the subject, the expiry, the session's id and its generation
  pub create_refresh_token : String → DateTime → String → ℕ → String

-- `User.scope_list`
abbrev pub scope_list : User → List String
scope_list user = words user.scopes

module _ (env : Env) where
  abbrev pub claims_of : Option Uuid → Option ℕ → Option (Uuid × ℕ)
  claims_of (some id) (some generation) = some (id, generation)
  claims_of id generation = none

  abbrev pub parse_sid : Option String → Option Uuid
  parse_sid none = none
  parse_sid (some sid) = env.parse_uuid sid

  -- `refresh_session_claims`
  abbrev pub refresh_session_claims : TokenPayload → Option (Uuid × ℕ)
  refresh_session_claims payload = claims_of (parse_sid payload.sid) payload.gen

  -- `tokens.append(TokenRef(...))` where the payload has a jti
  abbrev pub token_of : TokenPayload → List TokenRef
  token_of payload = elim payload.jti [
    | none ↦ []
    | some jti ↦ record { jti = jti; expires_at = payload.expiry_datetime } ∷ []
  ]

  abbrev pub session_of : Option (Uuid × ℕ) → Option Uuid
  session_of none = none
  session_of (some (id, generation)) = some id

  -- what the decoded cookie adds to the session
  abbrev pub with_refresh : Uuid → List TokenRef → Option TokenPayload → AuthSession
  with_refresh user_id tokens none = record {
    user_id = user_id;
    tokens = tokens;
    refresh_session_id = none;
  }
  with_refresh user_id tokens (some refresh_payload) = record {
    user_id = user_id;
    tokens = tokens ++ token_of refresh_payload;
    refresh_session_id = session_of (refresh_session_claims refresh_payload);
  }

module _ (env : Env) (authx_ : AuthX) where
  -- `if refresh_token:`, and the decoding of it
  abbrev pub cookie_payload : Option String → Option TokenPayload
  cookie_payload none = none
  cookie_payload (some token) = if token == "" then none else authx_.decode token

  abbrev pub session_for : Credentials → TokenPayload → Option Uuid → Option AuthSession
  session_for credentials payload none = none
  session_for credentials payload (some user_id) =
      some (
        with_refresh env user_id (token_of env payload) (cookie_payload credentials.refresh_cookie))

  -- `get_auth_session`, behind the check of the access token; `none` is the `ValueError` of `UUID`
  unfoldable pub get_auth_session : Credentials → TokenPayload → Option AuthSession
  get_auth_session credentials payload =
      session_for credentials payload (env.parse_uuid payload.sub)

-- `get_current_user`
abbrev pub active_or_raise : String → Option User → Action User
active_or_raise sub none = raise (entity_not_found_error "User" sub)
active_or_raise sub (some user) =
    if not user.is_active
    then raise (unauthorized_action_error "Account is deactivated")
    else pure user

abbrev pub load_current : String → Option Uuid → Action User
load_current sub none = throw value_error
load_current sub (some id) = do user ← Users.get id false; active_or_raise sub user

unfoldable pub get_current_user : Env → TokenPayload → Action User
get_current_user env payload = load_current payload.sub (env.parse_uuid payload.sub)
