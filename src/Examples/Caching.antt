-- ===== src/Examples/Caching.antt =====
-- A Redis that keeps, for each time, the values and the sets, and an invalidation on it.
use fasti_kit.Caching.{TagRedis, among, add_tags, keys_to_delete, store_result, invalidate_tags}
use fasti_kit.Caching.Invalidation.{Stored, store_all, invalidated_gone}
use fasti_kit.Base.{
  ℕ, ◌+◌, ◌*◌, String, ◌≡◌, refl, Option, none, some, List, [], ◌∷◌, arith, ltb, Bool-cases, inl,
  inr, true, if◌then◌else◌, string_eq, nat_eq, ◌==◌,
}
use fasti_kit.Base.Table.{any}
use fasti_kit.Model.{DateTime}

abbrev Tables : Type 0
Tables = (DateTime → String → Option String) × (DateTime → String → List String)

abbrev put : DateTime → String → String → ℕ → Tables → Tables
put now key value seconds (values, sets) = (
  (λ t j.
      if j == key
      then (if ltb t (now + seconds * 1000000) then some value else none)
      else values t j),
  (λ t j. if j == key then [] else sets t j),
)

abbrev add : DateTime → String → String → Tables → Tables
add now set_key member (values, sets) =
    (values, λ t j. if set_key == j then member ∷ sets t j else sets t j)

add_lem :
    (now : DateTime) (set_key member : String) (s : Tables) (other key : String)
    → among key ((add now set_key member s).1 now other) ≡ (
        if set_key == other
        then (if member == key then true else among key (s.1 now other))
        else among key (s.1 now other))
unfolding any
add_lem now set_key member (values, sets) other key = elim (Bool-cases (set_key == other)) [
  | inl e ↦ rw e refl
  | inr e ↦ rw e refl
]

abbrev tag_redis : TagRedis
tag_redis = record {
  Store = Tables;
  get = λ s t k. s.0 t k;
  smembers = λ s t k. s.1 t k;
  set_ex = put;
  sadd = add;
  expire = λ now key seconds s. (
    s.0,
    (λ t j.
        if key == j then (if ltb t (now + seconds * 1000000) then s.1 now j else []) else s.1 t j),
  );
  delete = λ now keys s. (
    (λ t j. if among j keys then none else s.0 t j),
    (λ t j. if among j keys then [] else s.1 t j),
  );
  get-delete = λ now keys s t key h. refl;
  smembers-set_ex = λ now key value seconds s t set_key h apart. rw apart refl;
  smembers-sadd = add_lem;
  smembers-sadd_other = λ now set_key member s t other h apart. rw apart refl;
  smembers-expire = λ now key seconds s t other h. refl;
}

abbrev no_entries : Tables
no_entries = ((λ t j. none), (λ t j. []))

abbrev profile : Stored
profile = record { cache_key = "app:user:profile"; json_data = "{}"; ttl = 60; tags = "user" ∷ [] }

abbrev settings_entry : Stored
settings_entry = record {
  cache_key = "app:user:settings";
  json_data = "{}";
  ttl = 30;
  tags = "user" ∷ [];
}

invalidated_gone_example :
    (invalidate_tags tag_redis "app" 2000 ("user" ∷ []) (
        store_all tag_redis "app"
          ((1000, settings_entry) ∷ [])
          (store_result tag_redis "app" 0 "app:user:profile" "{}" 60 ("user" ∷ []) no_entries))).0
      3000 "app:user:profile"
    ≡ none
unfolding any
invalidated_gone_example =
    invalidated_gone tag_redis "app" "user" 0 2000 profile no_entries refl (omega arith)
      (omega arith) ((1000, settings_entry) ∷ []) (omega arith, omega arith, omega arith, refl, tt)
      ("user" ∷ []) refl 3000 (omega arith)

-- an entry that lives shorter takes the set of the tag with it, and the first entry stays
left_behind :
    (invalidate_tags tag_redis "app" 40000000 ("user" ∷ []) (
        store_all tag_redis "app"
          ((1000, settings_entry) ∷ [])
          (store_result tag_redis "app" 0 "app:user:profile" "{}" 60 ("user" ∷ []) no_entries))).0
      41000000 "app:user:profile"
    ≡ some "{}"
unfolding store_result store_all invalidate_tags add_tags keys_to_delete any
left_behind = refl
