-- ===== src/Middleware.antt =====
-- core/middlewares and the order in which main.py stacks them. An ASGI application is a function of the
-- scope and of `send`; `receive` is passed on untouched and left out. Starlette's headers and
-- JSONResponse are parameters.
pub mod Trace
pub mod Stack
use Prim.Native.Char.{code}
use fasti_kit.Base.{
  ℕ, ◌+◌, String, Bool, true, false, ◌&&◌, Option, none, some, List, [], ◌∷◌, ◌++◌, ◌≡◌, leb, ltb,
  if◌then◌else◌, nat_eq, string_eq, ◌==◌,
}
use fasti_kit.Problem.{Response, Incoming, unhandled_exception_handler}

abbrev pub lower : ℕ → ℕ
lower c = if leb 65 c && leb c 90 then c + 32 else c

-- the names of headers, which are ASCII, without regard to case
unfoldable pub same_name : String → String → Bool
same_name String.[] String.[] = true
same_name String.[] (String.◌∷◌ d t) = false
same_name (String.◌∷◌ c s) String.[] = false
same_name (String.◌∷◌ c s) (String.◌∷◌ d t) = lower (code c) == lower (code d) && same_name s t

-- `Headers.get` and `MutableHeaders.__setitem__`
pub record HeaderOps : Type 1 where
  pub Headers : Type 0
  pub get : String → Headers → Option String
  pub set : String → String → Headers → Headers
  pub get-set :
      (name key value : String) (h : Headers)
      → get name (set key value h) ≡ (if same_name key name then some value else get name h)

pub data Message (H : Type 0) : Type 0 where
  start : ℕ → H → Message H  -- http.response.start
  body : String → Message H  -- http.response.body

pub record Scope (H : Type 0) : Type 0 where
  pub type : String
  pub method : String
  pub path : String
  pub headers : H

pub data LogEntry : Type 0 where
  unhandled : String → LogEntry
  n1_alert : String → String → ℕ → ℕ → LogEntry

-- What the server was sent, the two context variables of the task, the number of uuids drawn so far,
-- and the log.
pub record Task (H : Type 0) : Type 0 where
  pub sent : List (Message H)
  pub request_id : String
  pub query_count : ℕ
  pub draws : ℕ
  pub log : List LogEntry

-- a call returned, or raised an exception
pub data Ending : Type 0 where
  returned raised : Ending

abbrev pub Call : Type 0 → Type 0
Call H = Task H → Ending × Task H

abbrev pub Send : Type 0 → Type 0
Send H = Message H → Call H

abbrev pub App : Type 0 → Type 0
App H = Scope H → Send H → Call H

-- the count after a statement, where the engines count them
abbrev pub counted_on : Bool → ℕ → ℕ
counted_on true count = count + 1
counted_on false count = count

module _ {H : Type 0} where
  abbrev then_call : Ending → Call H → Call H
  then_call returned next s = next s
  then_call raised next s = (raised, s)

  -- one call after the other
  abbrev pub sequence : Call H → Call H → Call H
  sequence first next s = let (ending, s') = first s in then_call ending next s'

  -- `try: m` with a `finally` that only resets variables
  abbrev pub finally_reset : (Task H → Task H) → Call H → Call H
  finally_reset reset m s = let (ending, s') = m s in (ending, reset s')

  abbrev pub or_call : Ending → Call H → Call H
  or_call returned handler s = (returned, s)
  or_call raised handler s = handler s

  -- `try: m` and `except Exception: handler`
  abbrev pub except_exception : Call H → Call H → Call H
  except_exception handler m s = let (ending, s') = m s in or_call ending handler s'

  abbrev pub write_log : LogEntry → Call H
  write_log entry s = (returned, record s { log = s.log ++ entry ∷ [] })

  -- The `send` of the server, on messages that ASGI allows. A server may raise on others, as on a second
  -- start of a response.
  unfoldable pub deliver : Send H
  deliver message s = (returned, record s { sent = s.sent ++ message ∷ [] })

  -- `_increment_query_count`, which the engines call before each statement once N1DetectorMiddleware
  -- has attached it to them
  abbrev pub before_cursor_execute : Bool → Call H
  before_cursor_execute attached s =
      (returned, record s { query_count = counted_on attached s.query_count })

-- `headers.get("X-Request-ID") or ...`, where an empty text is none
abbrev pub given_id : Option String → Option String
given_id none = none
given_id (some id) = if id == "" then none else some id

abbrev pub draws_after : Option String → ℕ → ℕ
draws_after (some id) draws = draws
draws_after none draws = draws + 1

-- `self.headers`
abbrev pub security_headers : Bool → List (String × String)
security_headers include_hsts =
    ("X-Content-Type-Options", "nosniff")
    ∷ ("Referrer-Policy", "strict-origin-when-cross-origin")
    ∷ (
      "Content-Security-Policy",
      "default-src 'self'; form-action 'self'; base-uri 'self'; object-src 'none'; frame-ancestors 'none'",
    )
    ∷ ("X-Frame-Options", "DENY")
    ∷ (if include_hsts
        then ("Strict-Transport-Security", "max-age=31536000; includeSubDomains") ∷ []
        else [])

-- `uuid` gives the texts of the uuids drawn, `decimal` is `str` on numbers, `phrase` is that of
-- `problem_response`, and `rendered` gives the headers and the body of a JSONResponse.
pub record Web (ops : HeaderOps) : Type 0 where
  pub uuid : ℕ → String
  pub decimal : ℕ → String
  pub phrase : ℕ → Option String
  pub rendered : Response → ops.Headers × String

module _ (ops : HeaderOps) (web : Web ops) where
  open ops use {Headers, get, set}

  -- the loop over `self.headers.items()`
  unfoldable pub set_all : List (String × String) → Headers → Headers
  set_all [] h = h
  set_all ((name, value) ∷ rest) h = set_all rest (set name value h)

  abbrev pub set_in : List (String × String) → Message Headers → Message Headers
  set_in added (start status h) = start status (set_all added h)
  set_in added (body content) = body content

  -- `send_with_security_headers`
  unfoldable pub send_with_security_headers : Bool → Send Headers → Send Headers
  send_with_security_headers hsts send message = send (set_in (security_headers hsts) message)

  unfoldable pub security_headers_middleware : Bool → App Headers → App Headers
  security_headers_middleware hsts app scope send =
      if scope.type == "http"
      then app scope (send_with_security_headers hsts send)
      else app scope send

  -- The response to a crash of what a middleware wraps; the middlewares write it with the text of
  -- the handler for unhandled exceptions.
  unfoldable pub problem : Scope Headers → Task Headers → Response
  problem scope s = unhandled_exception_handler web.phrase (record {
    context_id = s.request_id;
    header_id = get "X-Request-ID" scope.headers;
    path = scope.path;
  })

  -- `await response(scope, receive, send)`
  unfoldable pub respond : Response → Send Headers → Call Headers
  respond response send =
      sequence (send (start response.status_code (web.rendered response).0))
        (send (body (web.rendered response).1))

  unfoldable pub answer_crash : String → Scope Headers → Send Headers → Call Headers
  answer_crash middleware scope send =
      sequence (write_log (unhandled middleware)) (λ s. respond (problem scope s) send s)

  abbrev pub id_or_uuid : Option String → ℕ → String
  id_or_uuid (some id) draws = id
  id_or_uuid none draws = web.uuid draws

  abbrev pub request_id_of : Scope Headers → Task Headers → String
  request_id_of scope s = id_or_uuid (given_id (get "X-Request-ID" scope.headers)) s.draws

  unfoldable pub send_with_correlation_header : String → Send Headers → Send Headers
  send_with_correlation_header id send message = send (set_in (("X-Request-ID", id) ∷ []) message)

  -- the inner `try` of `CorrelationIdMiddleware.__call__`
  unfoldable pub correlated : App Headers → App Headers
  correlated app scope send s =
      let id = request_id_of scope s in
      finally_reset (λ t. record t { request_id = s.request_id })
        (app scope (send_with_correlation_header id send))
        (record s {
          request_id = id;
          draws = draws_after (given_id (get "X-Request-ID" scope.headers)) s.draws;
        })

  unfoldable pub correlation_id_middleware : App Headers → App Headers
  correlation_id_middleware app scope send =
      if scope.type == "http"
      then except_exception (answer_crash "CorrelationIdMiddleware" scope send)
          (correlated app scope send)
      else app scope send

  abbrev pub alert : Scope Headers → ℕ → Message Headers → Call Headers
  alert scope threshold (body content) s = (returned, s)
  alert scope threshold (start status h) s =
      if ltb threshold s.query_count
      then write_log (n1_alert scope.method scope.path s.query_count threshold) s
      else (returned, s)

  unfoldable pub send_with_query_count_header : Scope Headers → ℕ → Send Headers → Send Headers
  send_with_query_count_header scope threshold send message s =
      let counted = set_in (("X-Query-Count", web.decimal s.query_count) ∷ []) message in
      sequence (alert scope threshold message) (send counted) s

  -- the inner `try` of `N1DetectorMiddleware.__call__`
  unfoldable pub query_counted : ℕ → App Headers → App Headers
  query_counted threshold app scope send s =
      finally_reset (λ t. record t { query_count = s.query_count })
        (app scope (send_with_query_count_header scope threshold send))
        (record s { query_count = 0 })

  unfoldable pub n1_detector_middleware : ℕ → App Headers → App Headers
  n1_detector_middleware threshold app scope send =
      if scope.type == "http"
      then except_exception (answer_crash "N1DetectorMiddleware" scope send)
          (query_counted threshold app scope send)
      else app scope send

  -- What main.py puts around `app`, the application under GZipMiddleware, and within CORSMiddleware.
  unfoldable pub stack : String → App Headers → App Headers
  stack environment app =
      let inner =
        correlation_id_middleware (security_headers_middleware (environment == "production") app) in
      if environment == "local" then n1_detector_middleware 10 inner else inner
