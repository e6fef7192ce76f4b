-- ===== src/Caching.antt =====
-- core/cache.py: results cached in Redis under tags. Redis is a parameter, with the documented meaning
-- of its commands; the key of a call and the serialization of its result are parameters as well.
pub mod Invalidation
use fasti_kit.Base.{
  ℕ, ◌+◌, ◌*◌, ◌≤◌, String, ◌<>◌, ◌≡◌, Bool, true, false, Option, none, some, List, [], ◌∷◌, ◌++◌,
  map, ltb, if◌then◌else◌, string_eq, nat_eq, ◌==◌,
}
use fasti_kit.Base.Table.{any}
use fasti_kit.Model.{DateTime}

-- `key in keys`
abbrev pub among : String → List String → Bool
among key keys = any (λ k. k == key) keys

pub record TagRedis : Type 1 where
  pub Store : Type 0
  -- `GET` and `SMEMBERS` at a time
  pub get : Store → DateTime → String → Option String
  pub smembers : Store → DateTime → String → List String
  -- `SET key value EX seconds`, `SADD set member`, `EXPIRE key seconds`, `DEL keys`
  pub set_ex : DateTime → String → String → ℕ → Store → Store
  pub sadd : DateTime → String → String → Store → Store
  pub expire : DateTime → String → ℕ → Store → Store
  pub delete : DateTime → List String → Store → Store
  pub get-delete :
      (now : DateTime) (keys : List String) (s : Store) (t : DateTime) (key : String)
      → now ≤ t
      → get (delete now keys s) t key ≡ (if among key keys then none else get s t key)
  pub smembers-set_ex :
      (now : DateTime) (key value : String) (seconds : ℕ) (s : Store) (t : DateTime)
      (set_key : String)
      → now ≤ t
      → (set_key == key) ≡ false
      → smembers (set_ex now key value seconds s) t set_key ≡ smembers s t set_key
  -- a member is added to what the set has, and no member goes
  pub smembers-sadd :
      (now : DateTime) (set_key member : String) (s : Store) (other key : String)
      → among key (smembers (sadd now set_key member s) now other) ≡ (
          if set_key == other
          then (if member == key then true else among key (smembers s now other))
          else among key (smembers s now other))
  pub smembers-sadd_other :
      (now : DateTime) (set_key member : String) (s : Store) (t : DateTime) (other : String)
      → now ≤ t
      → (set_key == other) ≡ false
      → smembers (sadd now set_key member s) t other ≡ smembers s t other
  -- a key lives on to the new end, as it is now
  pub smembers-expire :
      (now : DateTime) (key : String) (seconds : ℕ) (s : Store) (t : DateTime) (other : String)
      → now ≤ t
      → smembers (expire now key seconds s) t other ≡ (
          if key == other
          then (if ltb t (now + seconds * 1000000) then smembers s now other else [])
          else smembers s t other)

module _ (redis : TagRedis) (cache_prefix : String) where
  open redis use {Store, get, smembers, set_ex, sadd, expire, delete}

  abbrev pub tag_key : String → String
  tag_key tag = cache_prefix <> ":tags:" <> tag

  -- the loop over the tags of an entry
  unfoldable pub add_tags : DateTime → String → ℕ → List String → Store → Store
  add_tags now cache_key ttl [] s = s
  add_tags now cache_key ttl (tag ∷ tags) s =
      add_tags now cache_key ttl tags
        (expire now (tag_key tag) ttl (sadd now (tag_key tag) cache_key s))

  unfoldable pub store_result : DateTime → String → String → ℕ → List String → Store → Store
  store_result now cache_key json_data ttl tags s =
      add_tags now cache_key ttl tags (set_ex now cache_key json_data ttl s)

  -- `if cached_payload:`
  abbrev pub hit : Option String → Option String
  hit none = none
  hit (some payload) = if payload == "" then none else some payload

  abbrev pub answer_with :
      Option String → DateTime → String → String → ℕ → List String → Store → String × Store
  answer_with (some payload) now cache_key json_data ttl tags s = (payload, s)
  answer_with none now cache_key json_data ttl tags s =
      (json_data, store_result now cache_key json_data ttl tags s)

  -- the wrapper of `cache` on the serialized result of the call
  unfoldable pub wrapper : DateTime → String → String → ℕ → List String → Store → String × Store
  wrapper now cache_key json_data ttl tags s =
      answer_with (hit (get s now cache_key)) now cache_key json_data ttl tags s

  -- the keys of the entries under the tags
  unfoldable pub keys_to_delete : DateTime → List String → Store → List String
  keys_to_delete now [] s = []
  keys_to_delete now (tag ∷ tags) s = smembers s now (tag_key tag) ++ keys_to_delete now tags s

  -- `if keys_to_delete: pipe.delete(*keys_to_delete)`
  abbrev pub delete_some : DateTime → List String → Store → Store
  delete_some now [] s = s
  delete_some now (key ∷ keys) s = delete now (key ∷ keys) s

  -- at one time, where the source reads each set and then writes
  unfoldable pub invalidate_tags : DateTime → List String → Store → Store
  invalidate_tags now [] s = s
  invalidate_tags now (tag ∷ tags) s =
      delete now (map tag_key (tag ∷ tags)) (delete_some now (keys_to_delete now (tag ∷ tags) s) s)
