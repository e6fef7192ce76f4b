-- ===== src/Blocklist.antt =====
-- auth/blocklist.py, and `is_token_revoked` of auth/dependencies.py. Redis is a parameter, with the
-- documented meaning of the commands that the blocklist sends. An operation takes the time at which it
-- runs; the k-th call of Redis reaches it if `reachable k`.
pub mod Forgetting
pub mod Uses
use fasti_kit.Tokens
use fasti_kit.Model.{DateTime, TokenRef, RevokedTokenModel}
use fasti_kit.Base.{
  ℕ, ◌+◌, ◌-◌, ◌*◌, ◌/◌, ◌≤◌, String, ◌<>◌, ◌≡◌, Bool, true, false, not, ◌&&◌, Option, none, some,
  List, [], ◌∷◌, map, ltb, if◌then◌else◌, string_eq, nat_eq, ◌==◌,
}
use fasti_kit.Base.Table.{select, any}
use fasti_kit.Exceptions.{redis_error, Result, ok, err}

pub record Redis : Type 1 where
  pub Store : Type 0
  -- whether a key is set at a time: `MGET`
  pub has : Store → DateTime → String → Bool
  -- `SET key 1 PX milliseconds`, `SET key 1`, and `SET key 1 NX EX seconds`
  pub set_px : DateTime → String → ℕ → Store → Store
  pub set : DateTime → String → Store → Store
  pub set_nx_ex : DateTime → String → ℕ → Store → Store
  pub has-set_px :
      (now : DateTime) (k : String) (ms : ℕ) (s : Store) (t : DateTime) (j : String)
      → now ≤ t
      → has (set_px now k ms s) t j ≡ (if j == k then ltb t (now + ms * 1000) else has s t j)
  pub has-set :
      (now : DateTime) (k : String) (s : Store) (t : DateTime) (j : String)
      → now ≤ t
      → has (set now k s) t j ≡ (if j == k then true else has s t j)
  pub has-set_nx_ex :
      (now : DateTime) (k : String) (seconds : ℕ) (s : Store) (t : DateTime) (j : String)
      → now ≤ t
      → has (set_nx_ex now k seconds s) t j ≡ (
          if has s now k
          then has s t j
          else if j == k
          then ltb t (now + seconds * 1000000)
          else has s t j)

abbrev pub jti_key : String → String
jti_key jti = "auth:blocklist:jti:" <> jti

abbrev pub ready_key : String
ready_key = "auth:blocklist:ready"

abbrev pub seeding_key : String
seeding_key = "auth:blocklist:seeding"

abbrev pub seeding_lock_seconds : ℕ
seeding_lock_seconds = 60

-- `int((token.expires_at - now).total_seconds() * 1000)`, which is 0 or less where this is 0
abbrev pub ttl_ms : DateTime → TokenRef → ℕ
ttl_ms now token = (token.expires_at - now) / 1000

module _ (redis : Redis) (reachable : ℕ → Bool) where
  open redis use {Store, has, set_px, set, set_nx_ex}

  -- the store, and the number of calls so far
  pub record Cache : Type 0 where
    pub store : Store
    pub calls : ℕ

  -- a call that Redis does not answer
  abbrev pub called : Cache → Cache
  called c = record c { calls = c.calls + 1 }

  -- the commands that the pipeline has queued
  unfoldable pub queue : DateTime → List TokenRef → List (String × ℕ)
  queue now [] = []
  queue now (token ∷ tokens) =
      let rest = queue now tokens in
      if ltb 0 (ttl_ms now token) then (jti_key token.jti, ttl_ms now token) ∷ rest else rest

  unfoldable pub send : DateTime → List (String × ℕ) → Store → Store
  send now [] s = s
  send now ((k, ms) ∷ commands) s = send now commands (set_px now k ms s)

  -- `pipe.execute()`; a pipeline is taken to reach Redis whole or not at all.
  abbrev pub run_pipeline : DateTime → List (String × ℕ) → Cache → Result (Unit {0}) × Cache
  run_pipeline now [] c = (ok tt, c)
  run_pipeline now (command ∷ commands) c =
      if reachable c.calls
      then (ok tt, record { store = send now (command ∷ commands) c.store; calls = c.calls + 1 })
      else (err redis_error, called c)

  unfoldable pub revoke : DateTime → List TokenRef → Cache → Result (Unit {0}) × Cache
  revoke now tokens c = run_pipeline now (queue now tokens) c

  unfoldable pub lookup : DateTime → String → Cache → Option Bool × Cache
  lookup now jti c = (
    (if not (reachable c.calls)
        then none
        else if has c.store now ready_key
        then some (has c.store now (jti_key jti))
        else none),
    called c,
  )

  unfoldable pub claim_seeding : DateTime → Cache → Bool × Cache
  claim_seeding now c =
      if reachable c.calls
      then (
        not (has c.store now seeding_key),
        record {
          store = set_nx_ex now seeding_key seeding_lock_seconds c.store;
          calls = c.calls + 1;
        },
      )
      else (false, called c)

  -- `SET READY_KEY` of `seed`, after a revocation that did not raise
  abbrev pub mark_ready : DateTime → Result (Unit {0}) × Cache → Cache
  mark_ready now (err e, c) = c
  mark_ready now (ok made, c) =
      if reachable c.calls
      then record { store = set now ready_key c.store; calls = c.calls + 1 }
      else called c

  unfoldable pub seed : DateTime → List TokenRef → Cache → Cache
  seed now tokens c = mark_ready now (revoke now tokens c)

  -- the part of `is_token_revoked` behind a lookup that gave no answer: the table, as the primary has
  -- it, decides
  abbrev pub seed_if : DateTime → List TokenRef → Bool × Cache → Cache
  seed_if now active (true, c) = seed now active c
  seed_if now active (false, c) = c

  abbrev pub ask_database : DateTime → String → List RevokedTokenModel → Cache → Bool × Cache
  ask_database now jti tokens c = (
    any (λ t. Tokens.has_jti jti t && Tokens.is_active_token now t) tokens,
    seed_if now (map Tokens.token_ref (select (Tokens.is_active_token now) tokens))
        (claim_seeding now c),
  )

  abbrev pub answer :
      DateTime → String → List RevokedTokenModel → Option Bool × Cache → Bool × Cache
  answer now jti tokens (some cached, c) = (cached, c)
  answer now jti tokens (none, c) = ask_database now jti tokens c

  -- `is_token_revoked` on the `jti` of the decoded token, with `RevokedTokenRepository.exists` and
  -- `list_active` read from the table
  unfoldable pub is_token_revoked :
      DateTime → Option String → List RevokedTokenModel → Cache → Bool × Cache
  is_token_revoked now none tokens c = (true, c)
  is_token_revoked now (some jti) tokens c = answer now jti tokens (lookup now jti c)
