-- ===== src/Problem.antt =====
-- core/problem.py and auth/errors.py: the problem document of each error.
pub mod Rendering
use fasti_kit.Base.{
  ℕ, String, ◌<>◌, Option, none, some, List, [], ◌∷◌, map, if◌then◌else◌, string_eq, nat_eq, ◌==◌,
}
use fasti_kit.Exceptions.{DomainException, Error, domain}
use fasti_kit.Json.{text}
use fasti_kit.Text.{join}

-- the exceptions of authx, as `_AUTHX_STATUS` tells them apart
pub data AuthxError : Type 0 where
  jwt_decode_error insufficient_scope policy_denied policy_evaluation rate_limited : AuthxError
  other_authx : AuthxError

-- What a request may raise. `HTTPException` comes with its status and its detail, where the detail is
-- a text; `RequestValidationError` with its errors.
pub record ValidationItem : Type 0 where
  pub loc : List String
  pub msg : String
  pub type : String

pub data Raised : Type 0 where
  error : Error → Raised
  authx : AuthxError → String → Raised
  http : ℕ → Option String → Raised
  validation : List ValidationItem → Raised
  rate_limit : String → Raised

pub record InvalidParam : Type 0 where
  pub name : String
  pub reason : String
  pub code : Option String

pub record ProblemDetails : Type 0 where
  pub type : String
  pub title : String
  pub status : ℕ
  pub detail : String
  pub instance_ : String
  pub correlation_id : Option String
  pub invalid_params : Option (List InvalidParam)

-- the status of the response, and its content
pub record Response : Type 0 where
  pub status_code : ℕ
  pub content : ProblemDetails

-- What `problem_response` reads of a request: the id in the context of the middleware, the header, the
-- path.
pub record Incoming : Type 0 where
  pub context_id : String
  pub header_id : Option String
  pub path : String

abbrev pub or_dash : Option String → String
or_dash none = "-"
or_dash (some id) = id

-- `request_id_context.get() or request.headers.get("X-Request-ID", "-")`
abbrev pub correlation_of : Incoming → String
correlation_of request =
    if request.context_id == "" then or_dash request.header_id else request.context_id

-- `_authx_status`
abbrev pub authx_status : AuthxError → ℕ
authx_status jwt_decode_error = 422
authx_status insufficient_scope = 403
authx_status policy_denied = 403
authx_status policy_evaluation = 500
authx_status rate_limited = 429
authx_status other_authx = 401

abbrev pub or_error : Option String → String
or_error none = "Error"
or_error (some title) = title

-- `title or phrase`, where an empty title is none
abbrev pub title_or : Option String → String → String
title_or none otherwise = otherwise
title_or (some title) otherwise = if title == "" then otherwise else title

-- `phrase` is `HTTPStatus(status).phrase`, where `none` stands for the `ValueError`.
module _ (phrase : ℕ → Option String) where
  unfoldable pub problem_response :
      Incoming → ℕ → String → String → Option String → Option (List InvalidParam) → Response
  problem_response request status detail type_uri title invalid_params = record {
    status_code = status;
    content = record {
      type = type_uri;
      title = title_or title (or_error (phrase status));
      status = status;
      detail = detail;
      instance_ = request.path;
      correlation_id = some (correlation_of request);
      invalid_params = invalid_params;
    };
  }

  abbrev pub default_type : String
  default_type = "about:blank"

  -- No exception of the program has extensions.
  unfoldable pub domain_exception_handler : Incoming → DomainException → Response
  domain_exception_handler request exc =
      problem_response request exc.status_code exc.detail exc.type_str exc.title none

  abbrev pub detail_or_default : Option String → String
  detail_or_default none = "Request failed"
  detail_or_default (some detail) = detail

  unfoldable pub http_exception_handler : Incoming → ℕ → Option String → Response
  http_exception_handler request status detail =
      problem_response request status (detail_or_default detail) default_type none none

  -- the parts of the location but for "body"
  unfoldable pub outside_body : List String → List String
  outside_body [] = []
  outside_body (part ∷ parts) =
      let rest = outside_body parts in if part == "body" then rest else part ∷ rest

  abbrev pub invalid_param : ValidationItem → InvalidParam
  invalid_param item = record {
    name = join "." (outside_body item.loc);
    reason = item.msg;
    code = some item.type;
  }

  unfoldable pub validation_exception_handler : Incoming → List ValidationItem → Response
  validation_exception_handler request items =
      problem_response request 422 "Request validation failed" default_type
        (some "Unprocessable Entity") (some (map invalid_param items))

  -- but for the headers of the limiter
  unfoldable pub rate_limit_exception_handler : Incoming → String → Response
  rate_limit_exception_handler request detail =
      problem_response request 429 ("Rate limit exceeded: " <> detail) default_type
        (some "Too Many Requests") none

  unfoldable pub unhandled_exception_handler : Incoming → Response
  unhandled_exception_handler request =
      problem_response request 500 "Internal server error" default_type
        (some "Internal Server Error") none

  unfoldable pub authx_exception_handler : Incoming → AuthxError → String → Response
  authx_exception_handler request exc detail =
      problem_response request (authx_status exc) detail default_type none none

  -- The handler of each exception: `install_problem_handlers` and `install_auth_error_handlers`.
  unfoldable pub handle : Incoming → Raised → Response
  handle request (error (domain exc)) = domain_exception_handler request exc
  handle request (error e) = unhandled_exception_handler request
  handle request (authx exc detail) = authx_exception_handler request exc detail
  handle request (http status detail) = http_exception_handler request status detail
  handle request (validation items) = validation_exception_handler request items
  handle request (rate_limit detail) = rate_limit_exception_handler request detail
