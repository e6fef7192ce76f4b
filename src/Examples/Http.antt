-- ===== src/Examples/Http.antt =====
-- An authx that grants every token to one user, and requests on the example.
use fasti_kit.Http.Access.{Rejected, MayWrite, admin_writes_guarded}
use fasti_kit.Http.Routes.{Route, dlq_router, purge_dead_letter_jobs, Server, route}
use fasti_kit.Http.{TokenPayload, Credentials, granted, AuthX}
use fasti_kit.Problem.{Incoming}
use fasti_kit.Base.{
  ℕ, String, refl, ◌⊎◌, true, false, Option, none, some, [], ◌∷◌, if◌then◌else◌, nat_eq, ◌==◌,
}
use fasti_kit.Examples.Data.{world, env}
use fasti_kit.Examples.Redis.{redis, up, empty}

abbrev granted_payload : TokenPayload
granted_payload = record {
  sub = "one";
  jti = some "bearer";
  expiry_datetime = 9000;
  scopes = "admin:read" ∷ [];
  sid = some "one";
  gen = some 0;
}

abbrev authx_ : AuthX
authx_ = record {
  presented = λ kind credentials. credentials.authorization;
  token_required = λ kind credentials revoked. granted granted_payload;
  decode = λ token. some granted_payload;
  has_scopes = λ payload required all_required. false;
  create_access_token = λ user_id scopes. "access";
  create_refresh_token = λ user_id expiry sid gen. "refresh";
}

abbrev credentials : Credentials
credentials = record { authorization = some "Bearer access"; refresh_cookie = some "refresh" }

abbrev server : Server env authx_ redis up
server = record { world = world false; cache = empty up }

abbrev purge : Route
purge = dlq_router (purge_dead_letter_jobs none true)

admin_writes_guarded_example :
    Rejected env authx_ redis up credentials server
      (route env authx_ redis up purge credentials server)
    ⊎ MayWrite env authx_ redis up credentials server
admin_writes_guarded_example =
    admin_writes_guarded env authx_ redis up purge credentials server refl

abbrev phrase : ℕ → Option String
phrase n = if n == 404 then some "Not Found" else none

abbrev request : Incoming
request = record { context_id = ""; header_id = some "abc"; path = "/users/me" }
