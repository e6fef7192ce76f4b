-- ===== src/Settings.antt =====
-- core/setting.py: the settings that are computed or checked. `ipaddress` is a parameter, and a
-- `ValueError` of it, which pydantic turns into a refusal of the settings, is `none` here.
pub mod Trust
use fasti_kit.Text.{split, strip, contains, replace}
use fasti_kit.Base.{
  ℕ, String, ◌<>◌, Bool, true, false, ◌&&◌, Option, none, some, List, [], ◌∷◌, map, if◌then◌else◌,
  string_eq, ◌==◌,
}

abbrev pub docker_bridge_host_ip : String
docker_bridge_host_ip = "172.17.0.1"

abbrev pub compose_caddy_ip : String
compose_caddy_ip = "172.28.0.10"

unfoldable pub split_csv : String → List String
split_csv value = map strip (split value 44)

pub data Environment : Type 0 where
  local production : Environment

-- The settings that the methods read, as they are after loading; numbers are the texts that they are
-- written as.
pub record Settings : Type 0 where
  pub environment : Environment
  pub database_url : String
  pub database_replica_url : Option String
  pub backend_url : String
  pub server_hosts : String
  pub forwarded_allow_ips : String
  pub redis_host : String
  pub redis_port : String
  pub redis_db : String

-- What the environment gives: `none` where a setting with a default is not set.
pub record Given : Type 0 where
  pub environment : Environment
  pub database_url : String
  pub database_replica_url : Option String
  pub backend_url : Option String
  pub server_hosts : Option String
  pub forwarded_allow_ips : Option String
  pub redis_host : String
  pub redis_port : String
  pub redis_db : String

-- the replica of the settings, where an empty text is none
abbrev pub replica_or : Option String → String → String
replica_or none otherwise = otherwise
replica_or (some url) otherwise = if url == "" then otherwise else url

unfoldable pub get_replica_url : Settings → String
get_replica_url s = replica_or s.database_replica_url (replace "5433" 4 "5434" s.database_url)

unfoldable pub redis_url : Settings → String
redis_url s = "redis://" <> s.redis_host <> ":" <> s.redis_port <> "/" <> s.redis_db

unfoldable pub ensure_scheme : String → Option String
ensure_scheme value = if contains value "://" then some value else some ("http://" <> value)

unfoldable pub server_host_list : Settings → List String
server_host_list s = split_csv s.server_hosts

abbrev pub uses_default : Option String → Bool
uses_default none = true
uses_default (some value) = false

abbrev pub is_local : Environment → Bool
is_local local = true
is_local production = false

-- `_trust_compose_caddy_locally`, where the flag is `uses_default_trust`
unfoldable pub trust_compose_caddy_locally : Bool → Settings → Settings
trust_compose_caddy_locally uses_default_trust s =
    if uses_default_trust && is_local s.environment
    then record s { forwarded_allow_ips = s.forwarded_allow_ips <> "," <> compose_caddy_ip }
    else s

unfoldable pub all_entries : (String → Bool) → List String → Bool
all_entries allowed [] = true
all_entries allowed (entry ∷ entries) = allowed entry && all_entries allowed entries

-- a field, which is validated, its default too
abbrev pub field : (String → Option String) → String → Option String → Option String
field check otherwise none = check otherwise
field check otherwise (some value) = check value

module _ (is_address is_network : String → Bool) where
  unfoldable pub validate_server_hosts : String → Option String
  validate_server_hosts value =
      if all_entries is_address (split_csv value) then some value else none

  -- an entry that `_validate_forwarded_allow_ips` lets pass
  abbrev pub may_forward : String → Bool
  may_forward entry =
      if entry == "*"
      then true
      else if contains entry "/"
      then is_network entry
      else is_address entry

  unfoldable pub validate_forwarded_allow_ips : String → Option String
  validate_forwarded_allow_ips value =
      if all_entries may_forward (split_csv value) then some value else none

  abbrev pub assemble : Given → Option String → Option String → Option String → Option Settings
  assemble given (some backend_url) (some server_hosts) (some forwarded_allow_ips) = some (
      trust_compose_caddy_locally (uses_default given.forwarded_allow_ips) record {
        environment = given.environment;
        database_url = given.database_url;
        database_replica_url = given.database_replica_url;
        backend_url = backend_url;
        server_hosts = server_hosts;
        forwarded_allow_ips = forwarded_allow_ips;
        redis_host = given.redis_host;
        redis_port = given.redis_port;
        redis_db = given.redis_db;
      })
  assemble given backend_url server_hosts forwarded_allow_ips = none

  -- `Settings()`: the validators of the fields that are given, and then the one of the model
  unfoldable pub load : Given → Option Settings
  load given =
      assemble given (field ensure_scheme "http://localhost:8000" given.backend_url)
        (field validate_server_hosts ("127.0.0.1," <> docker_bridge_host_ip) given.server_hosts)
        (field validate_forwarded_allow_ips "127.0.0.1,::1" given.forwarded_allow_ips)
