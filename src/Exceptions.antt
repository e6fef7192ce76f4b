-- ===== src/Exceptions.antt =====
-- core/exception.py and auth/exceptions.py: the domain errors, and the other exceptions that reach
-- a caller.
use fasti_kit.Base.{ℕ, String, ◌<>◌, Option, some}

-- The subclass of `DomainException`, by which an `except` clause selects.
pub data Kind : Type 0 where
  entity_not_found unauthorized_action conflict bad_request : Kind
  invalid_credentials invalid_token invalid_refresh_token : Kind

-- No subclass sets `extensions`.
pub record DomainException : Type 0 where
  pub kind : Kind
  pub detail : String
  pub status_code : ℕ
  pub type_str : String
  pub title : Option String

abbrev pub entity_not_found_error : String → String → DomainException
entity_not_found_error entity_name identifier = record {
  kind = entity_not_found;
  detail = entity_name <> " with identifier '" <> identifier <> "' was not found.";
  status_code = 404;
  type_str = "errors/not-found";
  title = some "Entity Not Found";
}

abbrev pub unauthorized_action_error : String → DomainException
unauthorized_action_error detail = record {
  kind = unauthorized_action;
  detail = detail;
  status_code = 403;
  type_str = "errors/unauthorized-action";
  title = some "Forbidden";
}

abbrev pub conflict_error : String → DomainException
conflict_error detail = record {
  kind = conflict;
  detail = detail;
  status_code = 409;
  type_str = "errors/conflict";
  title = some "Resource Conflict";
}

abbrev pub bad_request_error : String → DomainException
bad_request_error detail = record {
  kind = bad_request;
  detail = detail;
  status_code = 400;
  type_str = "errors/bad-request";
  title = some "Bad Request";
}

abbrev pub invalid_credentials_error : DomainException
invalid_credentials_error = record {
  kind = invalid_credentials;
  detail = "Invalid credentials";
  status_code = 401;
  type_str = "errors/invalid-credentials";
  title = some "Unauthorized";
}

abbrev pub invalid_token_error : String → DomainException
invalid_token_error detail = record {
  kind = invalid_token;
  detail = detail;
  status_code = 400;
  type_str = "errors/invalid-token";
  title = some "Invalid Token";
}

abbrev pub invalid_refresh_token_error : DomainException
invalid_refresh_token_error = record {
  kind = invalid_refresh_token;
  detail = "Refresh token is no longer valid";
  status_code = 401;
  type_str = "errors/invalid-refresh-token";
  title = some "Unauthorized";
}

-- What is raised: a domain error, or an exception of a library.
pub data Error : Type 0 where
  domain : DomainException → Error
  integrity_error operational_error multiple_results redis_error value_error : Error

pub data Result {ℓ} (A : Type ℓ) : Type ℓ where
  ok : A → Result A
  err : Error → Result A
