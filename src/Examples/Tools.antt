-- ===== src/Examples/Tools.antt =====
-- Settings, and the generators, on small texts.
use Prim.Native.Char.{code}
use text.Mathlib.TextLemmas.{cons-ne-nil}
use fasti_kit.Text.Splitting.{Free}
use fasti_kit.Text.{contains, starts_with, split_by, lstrip, rstrip, join}
use fasti_kit.Settings.{
  ensure_scheme, validate_forwarded_allow_ips, Settings, Given, local, split_csv, server_host_list,
  may_forward, load, validate_server_hosts, trust_compose_caddy_locally, all_entries,
}
use fasti_kit.Settings.Trust.{trusted, load_trusts}
use fasti_kit.Generators.Router.{import_line, include_line, register_router}
use fasti_kit.Generators.Wiring.{Wired, register_router_writes}
use fasti_kit.Generators.Router.{has}
use fasti_kit.Generators.Init.{Init, merge}
use fasti_kit.Generators.Merging.{names_of, merge_adds}
use fasti_kit.Generators.Fields.{parse_fields}
use fasti_kit.Generators.Parsing.{is_mark, Spec, shown, made, parse_fields-shown}
use fasti_kit.Base.{
  String, ◌≡◌, refl, ◌⊎◌, Bool, true, false, not, ◌&&◌, ℕ, arith, none, some, List, [], ◌∷◌, ◌++◌,
  map,
}
use fasti_kit.Base.Lists.{All}

abbrev avoids : (ℕ → Bool) → String → Bool
avoids p String.[] = true
avoids p (String.◌∷◌ c s) = not (p (code c)) && avoids p s

free : (p : ℕ → Bool) (s : String) → avoids p s ≡ true → Free p s
free p String.[] h = tt
free p (String.◌∷◌ c s) h = (ground (arith, h), free p s (ground (arith, h)))

abbrev is_address : String → Bool
is_address entry = true

abbrev given : Given
given = record {
  environment = local;
  database_url = "postgresql://localhost:5433/app";
  database_replica_url = none;
  backend_url = none;
  server_hosts = some "10.0.0.1";
  forwarded_allow_ips = none;
  redis_host = "127.0.0.1";
  redis_port = "6379";
  redis_db = "0";
}

abbrev settings : Settings
settings = record {
  environment = local;
  database_url = "postgresql://localhost:5433/app";
  database_replica_url = none;
  backend_url = "http://localhost:8000";
  server_hosts = "10.0.0.1";
  forwarded_allow_ips = "127.0.0.1,::1,172.28.0.10";
  redis_host = "127.0.0.1";
  redis_port = "6379";
  redis_db = "0";
}

given_loads : load is_address is_address given ≡ some settings
unfolding load ensure_scheme contains starts_with validate_forwarded_allow_ips validate_server_hosts
    trust_compose_caddy_locally all_entries split_csv split_by lstrip rstrip
given_loads = refl

load_trusts_example :
    All (λ e. is_address e ≡ true) (server_host_list settings)
    × (split_csv settings.forwarded_allow_ips ≡ trusted local none)
    × All (λ e. may_forward is_address is_address e ≡ true) (split_csv settings.forwarded_allow_ips)
load_trusts_example =
    load_trusts is_address is_address given settings
      (record { loopback = refl; loopback_6 = refl; bridge = refl; caddy = refl }) given_loads

abbrev versions : List String
versions = "from fastapi import APIRouter" ∷ "" ∷ "v1_router = APIRouter()" ∷ []

register_router_writes_example :
    ((after : List String) × (register_router "shop" "shop_router" (some versions)
        ≡ (some after, true))
      × Wired (import_line "shop" "shop_router") (include_line "shop_router") versions after)
    ⊎ (register_router "shop" "shop_router" (some versions) ≡ (some versions, false))
register_router_writes_example = register_router_writes "shop" "shop_router" versions

abbrev shop_package : Init
shop_package = record {
  imports = ("order", "Order" ∷ []) ∷ ("cart", "Cart" ∷ []) ∷ [];
  all_names = "Order" ∷ "Cart" ∷ [];
}

merge_adds_example :
    let after = merge "cart" ("Cart" ∷ "CartItem" ∷ []) shop_package in
    All (λ s. has s (names_of "cart" after.imports) ≡ true) ("Cart" ∷ "CartItem" ∷ [])
    × All (λ s. has s after.all_names ≡ true) ("Cart" ∷ "CartItem" ∷ [])
    × ((new : List String) × (names_of "cart" after.imports
          ≡ names_of "cart" shop_package.imports ++ new))
    × (names_of "item" after.imports ≡ names_of "item" shop_package.imports)
    × ((new : List String) × (after.all_names ≡ shop_package.all_names ++ new))
    × (merge "cart" ("Cart" ∷ "CartItem" ∷ []) after ≡ after)
merge_adds_example = merge_adds "cart" "item" ("Cart" ∷ "CartItem" ∷ []) shop_package refl

abbrev price : Spec
price = record { name = "price"; type = "float"; default = none }

abbrev stock : Spec
stock = record { name = "stock"; type = "int"; default = some "1" }

parse_fields-shown_example :
    parse_fields (join "," (map shown (price ∷ stock ∷ []))) ≡ some (map made (price ∷ stock ∷ []))
parse_fields-shown_example = parse_fields-shown price (stock ∷ []) (
  (free is_mark "price" refl, free is_mark "float" refl, tt, refl),
  (
    (
      free is_mark "stock" refl,
      free is_mark "int" refl,
      (cons-ne-nil "1" String.[], free is_mark "1" refl),
      refl,
    ),
    tt,
  ),
)
