-- ===== src/Settings/Trust.antt =====
-- Which proxies and hosts the settings name, once they are loaded.
use fasti_kit.Text.{split_by, strip, lstrip, rstrip, contains, starts_with, join}
use fasti_kit.Text.Splitting.{Free, is_comma, split-join}
use fasti_kit.Settings.{
  split_csv, all_entries, field, Environment, local, production, Given, Settings, server_host_list,
  trust_compose_caddy_locally, validate_server_hosts, validate_forwarded_allow_ips, may_forward,
  assemble, load, uses_default, is_local, compose_caddy_ip, docker_bridge_host_ip,
}
use fasti_kit.Base.{
  String, ◌<>◌, ◌≡◌, refl, sym, ap, ◌∙◌, subst, Bool, true, Bool-cases, inl, inr, Option, none,
  some, List, [], ◌∷◌, map, ◌⊎◌, if◌then◌else◌, ◌&&◌, arith,
}
use fasti_kit.Base.Lists.{All}

map-strip : (items : List String) → All (λ item. strip item ≡ item) items → map strip items ≡ items
map-strip [] h = refl
map-strip (item ∷ items) (h, hs) = cc (h, map-strip items hs)

-- `_split_csv` gives back the entries that a comma-separated list was made of, if there is at least one, none
-- has a comma, and none has white space at an end.
pub split_csv-join :
    (item : String) (items : List String)
    → All (Free is_comma) (item ∷ items)
    → All (λ i. strip i ≡ i) (item ∷ items)
    → split_csv (join "," (item ∷ items)) ≡ item ∷ items
unfolding split_csv
split_csv-join item items free stripped =
    ap (map strip) (split-join item items free) ∙ map-strip (item ∷ items) stripped

all_entries-All :
    (allowed : String → Bool) (entries : List String)
    → all_entries allowed entries ≡ true
    → All (λ e. allowed e ≡ true) entries
unfolding all_entries
all_entries-All allowed [] h = tt
all_entries-All allowed (entry ∷ entries) h = elim (Bool-cases (allowed entry)) [
  | inl e ↦ (e, all_entries-All allowed entries (ground (arith, h, e)))
  | inr e ↦ ground (arith, h, e)
]

-- the proxies that the settings trust: as given, and else the default, with Caddy where local
abbrev pub trusted : Environment → Option String → List String
trusted environment (some value) = split_csv value
trusted local none = "127.0.0.1" ∷ "::1" ∷ "172.28.0.10" ∷ []
trusted production none = "127.0.0.1" ∷ "::1" ∷ []

environment_cases : (e : Environment) → (e ≡ local) ⊎ (e ≡ production)
environment_cases local = inl refl
environment_cases production = inr refl

checked :
    (allowed : String → Bool) (value made : String)
    → (if all_entries allowed (split_csv value) then some value else none) ≡ some made
    → (made ≡ value) × All (λ e. allowed e ≡ true) (split_csv value)
checked allowed value made h = elim (Bool-cases (all_entries allowed (split_csv value))) [
  | inl e ↦ (ground (arith, h, e), all_entries-All allowed (split_csv value) e)
  | inr e ↦ ground (arith, h, e)
]

some_inj : {A : Type 0} (a b : A) → some a ≡ some b → a ≡ b
some_inj a b h = cc

trust_lem :
    (flag : Bool) (s : Settings)
    → let after = trust_compose_caddy_locally flag s in
      (after.server_hosts ≡ s.server_hosts)
      × (after.forwarded_allow_ips ≡ (
          if flag && is_local s.environment
          then s.forwarded_allow_ips <> "," <> compose_caddy_ip
          else s.forwarded_allow_ips))
unfolding trust_compose_caddy_locally
trust_lem flag s = elim (Bool-cases (flag && is_local s.environment)) [
  | inl c ↦ rw c (refl, refl)
  | inr c ↦ rw c (refl, refl)
]

-- what the trust in Caddy makes of the proxies
abbrev pub with_caddy : Environment → Option String → String → String
with_caddy environment given ips =
    if uses_default given && is_local environment then ips <> "," <> compose_caddy_ip else ips

module _ (is_address is_network : String → Bool) where
  -- what the settings are made of, if they are loaded
  abbrev pub Loaded : Given → Option String → Option String → Settings → Type 0
  Loaded given hosts ips s =
      (hosts ≡ some s.server_hosts)
      × (i : String) × (ips ≡ some i)
      × (s.forwarded_allow_ips ≡ with_caddy given.environment given.forwarded_allow_ips i)

  loaded :
      (given : Given) (backend hosts ips : Option String) (s : Settings)
      → assemble is_address is_network given backend hosts ips ≡ some s
      → Loaded given hosts ips s
  loaded given (some b) (some h) (some i) s e =
      let (hosts, ips) = trust_lem (uses_default given.forwarded_allow_ips) _ in
      subst (Loaded given (some h) (some i)) (some_inj _ s e) (ap some (sym hosts), i, refl, ips)
  loaded given none h i s e = cc
  loaded given (some b) none i s e = cc
  loaded given (some b) (some h) none s e = cc

  -- The default entries are addresses.
  pub record DefaultsAllowed : Type 0 where
    pub loopback : is_address "127.0.0.1" ≡ true
    pub loopback_6 : is_address "::1" ≡ true
    pub bridge : is_address docker_bridge_host_ip ≡ true
    pub caddy : is_address compose_caddy_ip ≡ true

  hosts_checked :
      (given : Option String) (hosts : String)
      → DefaultsAllowed
      → field
          (validate_server_hosts is_address is_network)
          ("127.0.0.1," <> docker_bridge_host_ip)
          given
        ≡ some hosts
      → All (λ e. is_address e ≡ true) (split_csv hosts)
  unfolding validate_server_hosts split_csv split_by lstrip rstrip
  hosts_checked none hosts d h =
      let (same, all) = checked is_address ("127.0.0.1," <> docker_bridge_host_ip) hosts h in
      subst (λ v. All (λ e. is_address e ≡ true) (split_csv v)) (sym same) all
  hosts_checked (some value) hosts d h =
      let (same, all) = checked is_address value hosts h in
      subst (λ v. All (λ e. is_address e ≡ true) (split_csv v)) (sym same) all

  Forwards : Environment → Option String → String → Type 0
  Forwards environment given v =
      (split_csv v ≡ trusted environment given)
      × All (λ e. may_forward is_address is_network e ≡ true) (split_csv v)

  proxies_checked :
      (environment : Environment) (given : Option String) (ips : String)
      → DefaultsAllowed
      → field (validate_forwarded_allow_ips is_address is_network) "127.0.0.1,::1" given ≡ some ips
      → Forwards environment given (with_caddy environment given ips)
  unfolding Forwards validate_forwarded_allow_ips split_csv split_by lstrip rstrip contains
      starts_with
  proxies_checked local none ips d h =
      let (same, _) = checked (may_forward is_address is_network) "127.0.0.1,::1" ips h in
      subst (λ v. Forwards local none (with_caddy local none v)) (sym same)
        (refl, (d.loopback, (d.loopback_6, (d.caddy, tt))))
  proxies_checked production none ips d h =
      let (same, _) = checked (may_forward is_address is_network) "127.0.0.1,::1" ips h in
      subst (Forwards production none) (sym same) (refl, (d.loopback, (d.loopback_6, tt)))
  proxies_checked environment (some value) ips d h =
      let (same, all) = checked (may_forward is_address is_network) value ips h in
      subst (Forwards environment (some value)) (sym same) (refl, all)

  -- If the settings are loaded, where `ipaddress` takes the default entries for addresses: every server host
  -- is an address, every trusted proxy is "*", an address or a network, and the trusted proxies are the
  -- given ones, or else the two loopback addresses, with the address of Caddy exactly in a local environment.
  pub load_trusts :
      (given : Given) (s : Settings)
      → DefaultsAllowed
      → load is_address is_network given ≡ some s
      → All (λ e. is_address e ≡ true) (server_host_list s)
        × (split_csv s.forwarded_allow_ips ≡ trusted given.environment given.forwarded_allow_ips)
        × All (λ e. may_forward is_address is_network e ≡ true) (split_csv s.forwarded_allow_ips)
  unfolding load server_host_list Forwards
  load_trusts given s d h =
      let (hosts, i, ips, forwards) = loaded given _ _ _ s h in
      let (same, all) =
        subst (Forwards given.environment given.forwarded_allow_ips) (sym forwards)
          (proxies_checked given.environment given.forwarded_allow_ips i d ips) in
      (hosts_checked given.server_hosts s.server_hosts d hosts, same, all)
