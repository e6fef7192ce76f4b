-- ===== src/Middleware/Stack.antt =====
-- What the stack of middlewares sends to the server for an application.
mod Sending
mod Answering
mod Correlation
use mathlib.Core.List.{append-nil, append_assoc}
use fasti_kit.Base.{
  ℕ, ◌≤◌, arith, String, Bool, true, false, List, [], ◌∷◌, ◌++◌, ◌≡◌, refl, ◌∙◌, sym, subst,
  Bool-cases, inl, inr, not, ◌&&◌, ap, suc, ◌+◌, if◌then◌else◌, string_eq, ◌==◌, nat_eq,
}
use fasti_kit.Problem.{Response}
use fasti_kit.Middleware.{
  HeaderOps, Message, start, body, Scope, Task, LogEntry, Ending, returned, raised, Send, App, Web,
  deliver, security_headers, problem, respond, answer_crash, correlated, correlation_id_middleware,
  security_headers_middleware, except_exception, finally_reset, query_counted,
  n1_detector_middleware, request_id_of, draws_after, given_id, or_call, counted_on, unhandled,
  stack, send_with_security_headers, send_with_correlation_header, send_with_query_count_header,
}
use fasti_kit.Middleware.Trace.{
  Event, query, emit, application, count_after, is_single, count_starts, Stamped,
}
use fasti_kit.Middleware.Stack.Answering.{counted, stamp, After}
use fasti_kit.Middleware.Stack.Correlation.{detector_http, correlation_lem}
use fasti_kit.Middleware.Stack.Sending.{
  Faithful, deliver-Faithful, security-Faithful, correlation-Faithful, count-Faithful, play_lem,
}

module _ (ops : HeaderOps) (web : Web ops) where
  open ops use {Headers, get}

  -- the stack after the choices that it makes by the environment
  layers : Bool → Bool → App Headers → App Headers
  layers true hsts app =
      n1_detector_middleware ops web 10
        (correlation_id_middleware ops web (security_headers_middleware ops web hsts app))
  layers false hsts app =
      correlation_id_middleware ops web (security_headers_middleware ops web hsts app)

  stack-layers :
      (environment : String) (app : App Headers)
      → stack ops web environment app
        ≡ layers (environment == "local") (environment == "production") app
  unfolding stack layers
  stack-layers environment app = elim (Bool-cases (environment == "local")) [
    | inl e ↦ rw e refl
    | inr e ↦ rw e refl
  ]

  module _ (behave : Scope Headers → String → List (Event Headers) × Ending) (scope : Scope Headers)
      (s : Task Headers) where
    abbrev pub course_of : List (Event Headers) × Ending
    course_of = behave scope (request_id_of ops web scope s)

    -- the count at the start of the application
    abbrev pub count_from : Bool → ℕ
    count_from true = 0
    count_from false = s.query_count

    -- What a run of the stack does: it returns, with both variables of the context as they were, and
    -- the server has got the messages.
    pub record Serves (local hsts : Bool) (result : Ending × Task Headers) : Type 0 where
      pub messages : List (Message Headers)
      pub task : Task Headers
      pub returns : result ≡ (returned, task)
      pub request_id_reset : task.request_id ≡ s.request_id
      pub query_count_reset : task.query_count ≡ s.query_count
      pub sends : task.sent ≡ s.sent ++ messages
      pub one_start : count_starts messages ≤ 1
      pub stamped :
          Stamped ops local
            (stamp ops web hsts local (request_id_of ops web scope s))
            (After ops web
              (counted ops web local)
              (problem ops web scope s)
              (count_after local course_of.0 (count_from local))
              course_of.1)
            (count_from local)
            course_of.0
            messages

    both_true : (a b : Bool) → (not a && b) ≡ true → (a ≡ false) × (b ≡ true)
    both_true a b h = ground arith

    starts_once :
        (attached : Bool) (added counted_ : ℕ → List (String × String)) (crash : Response) (n : ℕ)
        (events : List (Event Headers)) (ending : Ending) (count : ℕ)
        (messages : List (Message Headers)) (is_started : Bool)
        → is_single is_started events ending ≡ true
        → Stamped ops attached added (After ops web counted_ crash n ending) count events messages
        → count_starts messages ≤ (if is_started then 0 else 1)
    unfolding is_single count_starts
    starts_once attached added counted_ crash n [] returned count messages is_started single e =
        ground (arith, ap count_starts e)
    starts_once attached added counted_ crash n [] raised count messages is_started single
          (h, e, _) =
        ground (arith, single, ap count_starts e)
    starts_once attached added counted_ crash n (query ∷ events) ending count messages is_started
          single stamped =
        starts_once attached added counted_ crash n events ending (counted_on attached count)
          messages is_started single stamped
    starts_once attached added counted_ crash n (emit message ∷ events) ending count [] is_started
          single stamped =
        absurd stamped
    starts_once attached added counted_ crash n (emit (body content) ∷ events) ending count
          (made ∷ messages) is_started single (e, stamped) =
        rw e (
          starts_once attached added counted_ crash n events ending count messages is_started single
            stamped)
    starts_once attached added counted_ crash n (emit (start status h) ∷ events) ending count
          (made ∷ messages) is_started single ((h', e, _), stamped) =
        let (fresh, rest) = both_true is_started (is_single true events ending) single in
        let none_later =
          starts_once attached added counted_ crash n events ending count messages true rest
            stamped in
        rw e (ground (arith, fresh, none_later))

    count_after-unattached :
        (events : List (Event Headers)) (count : ℕ) → count_after false events count ≡ count
    count_after-unattached [] count = refl
    count_after-unattached (query ∷ events) count = count_after-unattached events count
    count_after-unattached (emit message ∷ events) count = count_after-unattached events count

    layers-Serves :
        (local hsts : Bool)
        → scope.type == "http" ≡ true
        → is_single false course_of.0 course_of.1 ≡ true
        → Serves local hsts (layers local hsts (application local behave) scope deliver s)
    unfolding layers query_counted problem
    layers-Serves false hsts http single =
        let (made, log, draws, e, stamped) =
          correlation_lem ops web (λ _. []) (deliver {H = Headers}) (deliver-Faithful ops web) false
            hsts behave scope s http in
        record {
          messages = made;
          task = record s {
            sent = s.sent ++ made;
            query_count = count_after false course_of.0 s.query_count;
            draws = draws;
            log = log;
          };
          returns = e;
          request_id_reset = refl;
          query_count_reset = count_after-unattached course_of.0 s.query_count;
          sends = refl;
          one_start =
              starts_once false (stamp ops web hsts false (request_id_of ops web scope s))
                (counted ops web false) (problem ops web scope s)
                (count_after false course_of.0 (count_from false)) course_of.0 course_of.1
                (count_from false) made false single stamped;
          stamped = stamped;
        }
    layers-Serves true hsts http single =
        let app =
          correlation_id_middleware ops web
            (security_headers_middleware ops web hsts (application true behave)) in
        let handler = answer_crash ops web "N1DetectorMiddleware" scope deliver in
        let (made, log, draws, e, stamped) =
          correlation_lem ops web (counted ops web true)
            (send_with_query_count_header ops web scope 10 deliver)
            (count-Faithful ops web (λ _. []) deliver (deliver-Faithful ops web) scope 10) true hsts
            behave scope (record s { query_count = 0 }) http in
        let ran : query_counted ops web 10 app scope deliver s
            ≡ (returned, record s { sent = s.sent ++ made; draws = draws; log = log }) =
          λ i. ((e i).0, record (e i).1 { query_count = s.query_count }) in
        record {
          messages = made;
          task = record s { sent = s.sent ++ made; draws = draws; log = log };
          returns =
              detector_http ops web scope deliver s http app
              ∙ (λ i. or_call (ran i).0 handler (ran i).1);
          request_id_reset = refl;
          query_count_reset = refl;
          sends = refl;
          one_start =
              starts_once true (stamp ops web hsts true (request_id_of ops web scope s))
                (counted ops web true) (problem ops web scope s)
                (count_after true course_of.0 (count_from true)) course_of.0 course_of.1
                (count_from true) made false single stamped;
          stamped = stamped;
        }

  -- For an HTTP request to an application that starts one response at most, and raises, if at all, before
  -- that, with a server that takes every message that ASGI allows: the stack of main.py does not raise,
  -- resets both context variables, and starts one response at most, so that the server gets no second
  -- start. The server gets the messages of the application in order, each response start with the security headers, the id of the request and, in the local
  -- environment, the number of statements up to then, and with every other header as the
  -- application set it. If the application raises, two messages follow: a problem document with status
  -- 500, of the headers added only the number of statements, and the correlation id that the
  -- context had outside of the middleware.
  pub stack-Serves :
      (environment : String) (behave : Scope Headers → String → List (Event Headers) × Ending)
      (scope : Scope Headers) (s : Task Headers)
      → scope.type == "http" ≡ true
      → (let (events, ending) = course_of behave scope s in is_single false events ending ≡ true)
      → Serves behave scope s
          (environment == "local")
          (environment == "production")
          (stack ops web environment (application (environment == "local") behave) scope deliver s)
  stack-Serves environment behave scope s http single =
      subst
        (λ (app : App Headers).
          Serves behave scope s (environment == "local") (environment == "production")
            (app scope deliver s))
        (sym (stack-layers environment (application (environment == "local") behave)))
        (layers-Serves behave scope s (environment == "local") (environment == "production") http
          single)
