-- ===== src/Safety.antt =====
-- core/safety.py: the refusal of commands that destroy data in production.
use fasti_kit.Base.{
  String, Bool, not, ◌&&◌, ◌||◌, Option, none, some, if◌then◌else◌, string_eq, ◌==◌,
}

-- the warning on a host of the database that is not local, with the environment
pub data Check : Type 0 where
  refused : Check
  malformed : Check  -- the `ArgumentError` of a URL
  allowed : Option (String × String) → Check

-- `value or otherwise`, where an empty text is none
abbrev pub text_or : Option String → String → String
text_or none otherwise = otherwise
text_or (some value) otherwise = if value == "" then otherwise else value

abbrev pub is_local_host : String → Bool
is_local_host host =
    host == "localhost" || host == "127.0.0.1" || host == "0.0.0.0" || host == "::1"

-- the host of the database, as `make_url` found it or not
abbrev pub warn_on : String → Option (Option String) → Check
warn_on env none = malformed
warn_on env (some host) =
    if not (env == "production") && not (is_local_host (text_or host ""))
    then allowed (some (text_or host "", env))
    else allowed none

-- `host_of` is `make_url(url).host`, `none` where `make_url` raises; the two texts before the options are the
-- settings.
unfoldable pub ensure_safe_operation :
    (String → Option (Option String))
    → String
    → String
    → Bool
    → Option String
    → Option String
    → Check
ensure_safe_operation host_of settings_environment settings_url allow_production environment url =
    let env = text_or environment settings_environment in
    if env == "production" && not allow_production
    then refused
    else warn_on env (host_of (text_or url settings_url))
