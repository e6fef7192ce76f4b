-- ===== src/Problem/Rendering.antt =====
-- What a problem document tells.
use fasti_kit.Problem.{
  Raised, error, authx, http, validation, rate_limit, Incoming, correlation_of, problem_response,
  handle, authx_status, domain_exception_handler, http_exception_handler,
  validation_exception_handler, rate_limit_exception_handler, unhandled_exception_handler,
  authx_exception_handler,
}
use fasti_kit.Base.{ℕ, String, ◌≡◌, refl, sym, ◌∙◌, Bool, true, false, Option, some}
use fasti_kit.Exceptions.{Error, domain}

-- the error is one that no handler but the last knows
abbrev pub is_unhandled : Error → Bool
is_unhandled (domain exc) = false
is_unhandled e = true

-- the status that an error is answered with
abbrev pub expected_status : Raised → ℕ
expected_status (error (domain exc)) = exc.status_code
expected_status (error e) = 500
expected_status (authx exc detail) = authx_status exc
expected_status (http status detail) = status
expected_status (validation items) = 422
expected_status (rate_limit detail) = 429

module _ (phrase : ℕ → Option String) where
  -- The problem document of any error has the status of its response, which is the status of a domain
  -- error or an `HTTPException`, the table's status of an authx error, and else 422, 429 or 500 by its
  -- kind; and it names the path and the correlation id of the request.
  pub handle_describes :
      (request : Incoming) (r : Raised)
      → let response = handle phrase request r in
        (response.status_code ≡ expected_status r)
        × (response.content.status ≡ response.status_code)
        × (response.content.instance_ ≡ request.path)
        × (response.content.correlation_id ≡ some (correlation_of request))
  unfolding handle domain_exception_handler http_exception_handler validation_exception_handler
      rate_limit_exception_handler unhandled_exception_handler authx_exception_handler
      problem_response
  handle_describes request (error (domain exc)) = (refl, refl, refl, refl)
  handle_describes request (error e) = (refl, refl, refl, refl)
  handle_describes request (authx exc detail) = (refl, refl, refl, refl)
  handle_describes request (http status detail) = (refl, refl, refl, refl)
  handle_describes request (validation items) = (refl, refl, refl, refl)
  handle_describes request (rate_limit detail) = (refl, refl, refl, refl)

  unhandled_lem :
      (request : Incoming) (e : Error)
      → is_unhandled e ≡ true
      → handle phrase request (error e) ≡ unhandled_exception_handler phrase request
  unfolding handle
  unhandled_lem request (domain exc) h = cc
  unhandled_lem request e h = refl

  -- Any two errors that are not domain errors are answered alike: the response tells nothing of what was
  -- raised.
  pub unhandled_alike :
      (request : Incoming) (e f : Error)
      → is_unhandled e ≡ true
      → is_unhandled f ≡ true
      → handle phrase request (error e) ≡ handle phrase request (error f)
  unhandled_alike request e f h k = unhandled_lem request e h ∙ sym (unhandled_lem request f k)
