-- ===== src/Middleware/Stack/Correlation.antt =====
-- The inner two middlewares on an application.
use mathlib.Core.List.{append_assoc}
use fasti_kit.Base.{ℕ, String, Bool, true, List, ◌∷◌, ◌++◌, ◌≡◌, refl, ◌∙◌, string_eq, ◌==◌, nat_eq}
use fasti_kit.Middleware.{
  HeaderOps, Message, Scope, Task, LogEntry, Ending, returned, Send, App, Web, security_headers,
  problem, answer_crash, correlated, correlation_id_middleware, security_headers_middleware,
  except_exception, finally_reset, query_counted, n1_detector_middleware, request_id_of,
  draws_after, given_id, or_call, send_with_security_headers, send_with_correlation_header,
}
use fasti_kit.Middleware.Trace.{Event, application, count_after, Stamped}
use fasti_kit.Middleware.Stack.Sending.{Faithful, security-Faithful, correlation-Faithful, play_lem}
use fasti_kit.Middleware.Stack.Answering.{After, Stamped-append, answered}

module _ (ops : HeaderOps) (web : Web ops) where
  open ops use {Headers, get}

  module _ (scope : Scope Headers) (send : Send Headers) (s : Task Headers)
      (http : scope.type == "http" ≡ true) where
    correlation_http :
        (app : App Headers)
        → correlation_id_middleware ops web app scope send s
          ≡ except_exception
              (answer_crash ops web "CorrelationIdMiddleware" scope send)
              (correlated ops web app scope send)
              s
    unfolding correlation_id_middleware
    correlation_http app = rw http refl

    pub detector_http :
        (app : App Headers)
        → n1_detector_middleware ops web 10 app scope send s
          ≡ except_exception
              (answer_crash ops web "N1DetectorMiddleware" scope send)
              (query_counted ops web 10 app scope send)
              s
    unfolding n1_detector_middleware
    detector_http app = rw http refl

    correlated_http :
        (hsts : Bool) (app : App Headers)
        → correlated ops web (security_headers_middleware ops web hsts app) scope send s
          ≡ finally_reset
              (λ t. record t { request_id = s.request_id })
              (app scope (
                send_with_security_headers ops web hsts
                  (send_with_correlation_header ops web (request_id_of ops web scope s) send)))
              (record s {
                request_id = request_id_of ops web scope s;
                draws = draws_after (given_id (get "X-Request-ID" scope.headers)) s.draws;
              })
    unfolding correlated security_headers_middleware
    correlated_http hsts app = rw http refl

  module _ (added : ℕ → List (String × String)) (send : Send Headers)
      (faithful : Faithful ops web added send) where
    module _ (attached hsts : Bool)
        (behave : Scope Headers → String → List (Event Headers) × Ending) (scope : Scope Headers)
        (s : Task Headers) where
      abbrev course : List (Event Headers) × Ending
      course = behave scope (request_id_of ops web scope s)

      pub correlation_lem :
          scope.type == "http" ≡ true
          → (made : List (Message Headers)) × (log : List LogEntry) × (draws : ℕ)
            × (correlation_id_middleware ops web
                  (security_headers_middleware ops web hsts (application attached behave))
                  scope
                  send
                  s
                ≡ (
                  returned,
                  record s {
                    sent = s.sent ++ made;
                    query_count = count_after attached course.0 s.query_count;
                    draws = draws;
                    log = log;
                  },
                ))
            × Stamped ops attached
                (λ n.
                  security_headers hsts
                  ++ ("X-Request-ID", request_id_of ops web scope s) ∷ added n)
                (After ops web added
                  (problem ops web scope s)
                  (count_after attached course.0 s.query_count)
                  course.1)
                s.query_count
                course.0
                made
      unfolding application problem
      correlation_lem http =
          let id = request_id_of ops web scope s in
          let draws = draws_after (given_id (get "X-Request-ID" scope.headers)) s.draws in
          let (made, log, e, stamped) =
            play_lem ops web (λ n. security_headers hsts ++ ("X-Request-ID", id) ∷ added n)
              (send_with_security_headers ops web hsts
                (send_with_correlation_header ops web id send))
              (security-Faithful ops web (λ n. ("X-Request-ID", id) ∷ added n)
                (send_with_correlation_header ops web id send)
                (correlation-Faithful ops web added send faithful id) hsts)
              attached course.0 course.1 (record s { request_id = id; draws = draws }) in
          let app = security_headers_middleware ops web hsts (application attached behave) in
          let handler = answer_crash ops web "CorrelationIdMiddleware" scope send in
          let ran =
            correlated_http scope send s http hsts (application attached behave)
            ∙ (λ i. ((e i).0, record (e i).1 { request_id = s.request_id })) in
          let (made', log', e', after) =
            answered ops web added send faithful "CorrelationIdMiddleware" scope course.1
              (record s {
                sent = s.sent ++ made;
                query_count = count_after attached course.0 s.query_count;
                draws = draws;
                log = log;
              }) in
          (
            made ++ made',
            log',
            draws,
            correlation_http scope send s http app
                ∙ (λ i. or_call (ran i).0 handler (ran i).1)
                ∙ e'
                ∙ (λ i. (
                  returned,
                  record s {
                    sent = append_assoc s.sent made made' i;
                    query_count = count_after attached course.0 s.query_count;
                    draws = draws;
                    log = log';
                  },
                )),
            Stamped-append ops web attached
                (λ n. security_headers hsts ++ ("X-Request-ID", id) ∷ added n)
                (After ops web added (problem ops web scope s)
                  (count_after attached course.0 s.query_count) course.1)
                s.query_count course.0 made made' stamped after,
          )
