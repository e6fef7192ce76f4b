-- ===== src/Http/Access.antt =====
-- Which requests the scopes of a token let through, and what a request may change.
use fasti_kit.Http.Replies.{Reply, refused}
use fasti_kit.Http.Routes.{
  Route, dlq_router, retry_dead_letter_job, delete_dead_letter_job, purge_dead_letter_jobs, Server,
  ask_decoded, ask_blocklist, with_scope, with_write, dead_letter_route, route,
}
use fasti_kit.Http.{TokenPayload, TokenType, Credentials, Verdict, granted, denied, AuthX}
use fasti_kit.Blocklist.{Redis}
use fasti_kit.Env.{Env}
use fasti_kit.World.{utc_now}
use fasti_kit.Base.{
  ℕ, String, ◌≡◌, Option, none, some, refl, ◌⊎◌, Bool, true, false, [], ◌∷◌, ◌∙◌, ap, inl, inr,
  Bool-cases,
}
use fasti_kit.Problem.{AuthxError, Raised}

-- the routes of the dead letters that change something
abbrev pub is_admin_write : Route → Bool
is_admin_write (dlq_router (retry_dead_letter_job job_id)) = true
is_admin_write (dlq_router (delete_dead_letter_job job_id)) = true
is_admin_write (dlq_router (purge_dead_letter_jobs before only_retried)) = true
is_admin_write r = false

verdict_cases :
    (v : Verdict)
    → ((payload : TokenPayload) × (v ≡ granted payload))
      ⊎ ((e : AuthxError) × (detail : String) × (v ≡ denied e detail))
verdict_cases (granted payload) = inl (payload, refl)
verdict_cases (denied e detail) = inr (e, detail, refl)

module _ (env : Env) (authx_ : AuthX) (redis : Redis) (reachable : ℕ → Bool) where
  -- the answer of the callback on the access token of a request, and the state after it
  abbrev pub checked :
      Credentials
      → Server env authx_ redis reachable
      → Option Bool × Server env authx_ redis reachable
  checked credentials =
      ask_blocklist env authx_ redis reachable (authx_.presented TokenType.access credentials)

  -- the credentials carry an access token with the scope, which authx grants on that answer
  abbrev pub Allowed : Credentials → String → Server env authx_ redis reachable → Type 0
  Allowed credentials scope s =
      (payload : TokenPayload) × (authx_.token_required TokenType.access credentials
          (checked credentials s).0
        ≡ granted payload)
      × (authx_.has_scopes payload (scope ∷ []) true ≡ true)

  -- the request is refused, and leaves the state
  abbrev pub Refused :
      Server env authx_ redis reachable → Reply × Server env authx_ redis reachable → Type 0
  Refused s (reply, s') = (e : Raised) × (reply ≡ refused e) × (s' ≡ s)

  -- the check of a token leaves the database alone
  checked-committed :
      (credentials : Credentials) (s : Server env authx_ redis reachable)
      → ((checked credentials s).1.world.committed ≡ s.world.committed)
        × ((checked credentials s).1.world.working ≡ s.world.working)
  unfolding ask_blocklist utc_now
  checked-committed credentials s = asked (authx_.presented TokenType.access credentials)
    where
      decoded :
          (p : Option TokenPayload)
          → ((ask_decoded env authx_ redis reachable p s).1.world.committed ≡ s.world.committed)
            × ((ask_decoded env authx_ redis reachable p s).1.world.working ≡ s.world.working)
      decoded none = (refl, refl)
      decoded (some payload) = (refl, refl)

      asked :
          (token : Option String)
          → ((ask_blocklist env authx_ redis reachable token s).1.world.committed
              ≡ s.world.committed)
            × ((ask_blocklist env authx_ redis reachable token s).1.world.working ≡ s.world.working)
      asked none = (refl, refl)
      asked (some token) = decoded (authx_.decode token)

  with_scope_cases :
      (scope : String) (credentials : Credentials)
      (k : Server env authx_ redis reachable → Reply × Server env authx_ redis reachable)
      (s : Server env authx_ redis reachable)
      → Refused
          (checked credentials s).1
          (with_scope env authx_ redis reachable scope credentials k s)
        ⊎ (Allowed credentials scope s
            × (with_scope env authx_ redis reachable scope credentials k s
                ≡ k (checked credentials s).1))
  unfolding with_scope
  with_scope_cases scope credentials k s =
      elim (verdict_cases
        (authx_.token_required TokenType.access credentials (checked credentials s).0)) [
          | inl (payload, v) ↦ elim (Bool-cases (authx_.has_scopes payload (scope ∷ []) true)) [
            | inl has ↦ rw (v, has) (inr ((payload, refl, has), refl))
            | inr lacks ↦ rw (v, lacks) (inl (_, refl, refl))
          ]
          | inr (e, detail, v) ↦ rw v (inl (_, refl, refl))
        ]

  -- The request is refused. The database is as before, and the state, with that of Redis, is the one that
  -- one or two checks of its token leave.
  pub record Rejected (credentials : Credentials) (s : Server env authx_ redis reachable)
      (after : Reply × Server env authx_ redis reachable) : Type 0 where
    pub error : Raised
    pub reply : after.0 ≡ refused error
    pub state :
        (after.1 ≡ (checked credentials s).1)
        ⊎ (after.1 ≡ (checked credentials (checked credentials s).1).1)
    pub committed : after.1.world.committed ≡ s.world.committed
    pub working : after.1.world.working ≡ s.world.working

  Refused-Rejected :
      (credentials : Credentials) (s : Server env authx_ redis reachable)
      (after : Reply × Server env authx_ redis reachable)
      → Refused (checked credentials s).1 after
      → Rejected credentials s after
  Refused-Rejected credentials s after (e, reply, same) =
      let (committed, working) = checked-committed credentials s in
      record {
        error = e;
        reply = reply;
        state = inl same;
        committed = ap (λ t. t.world.committed) same ∙ committed;
        working = ap (λ t. t.world.working) same ∙ working;
      }

  twice-Rejected :
      (credentials : Credentials) (s : Server env authx_ redis reachable)
      (after : Reply × Server env authx_ redis reachable)
      → Refused (checked credentials (checked credentials s).1).1 after
      → Rejected credentials s after
  twice-Rejected credentials s after (e, reply, same) =
      let (committed, working) = checked-committed credentials s in
      let (committed', working') = checked-committed credentials (checked credentials s).1 in
      record {
        error = e;
        reply = reply;
        state = inr same;
        committed = ap (λ t. t.world.committed) same ∙ (committed' ∙ committed);
        working = ap (λ t. t.world.working) same ∙ (working' ∙ working);
      }

  -- an access token with both scopes, checked once for each
  abbrev pub MayWrite : Credentials → Server env authx_ redis reachable → Type 0
  MayWrite credentials s =
      Allowed credentials "admin:read" s
      × Allowed credentials "admin:write" (checked credentials s).1

  with_write_cases :
      (credentials : Credentials)
      (k : Server env authx_ redis reachable → Reply × Server env authx_ redis reachable)
      (s : Server env authx_ redis reachable)
      → Rejected credentials s (with_write env authx_ redis reachable credentials k s)
        ⊎ MayWrite credentials s
  with_write_cases credentials k s =
      elim (with_scope_cases "admin:read" credentials
        (with_scope env authx_ redis reachable "admin:write" credentials k) s) [
          | inl refusal ↦ inl (Refused-Rejected credentials s _ refusal)
          | inr (read, passed) ↦
              elim (with_scope_cases "admin:write" credentials k (checked credentials s).1) [
                | inl refusal ↦ inl (rw passed (twice-Rejected credentials s _ refusal))
                | inr (write, _) ↦ inr (read, write)
              ]
        ]

  -- A request that would retry, delete or purge dead letters carries an access token with the scopes admin:read
  -- and admin:write, which authx grants on the answers of `is_token_revoked`; or it is refused, the database
  -- is as before, and the state, with that of Redis, is the one that one or two checks of its token by
  -- `is_token_revoked` leave.
  pub admin_writes_guarded :
      (r : Route) (credentials : Credentials) (s : Server env authx_ redis reachable)
      → is_admin_write r ≡ true
      → Rejected credentials s (route env authx_ redis reachable r credentials s)
        ⊎ MayWrite credentials s
  unfolding route dead_letter_route
  admin_writes_guarded (dlq_router (retry_dead_letter_job job_id)) credentials s h =
      with_write_cases credentials _ s
  admin_writes_guarded (dlq_router (delete_dead_letter_job job_id)) credentials s h =
      with_write_cases credentials _ s
  admin_writes_guarded (dlq_router (purge_dead_letter_jobs before only_retried)) credentials s h =
      with_write_cases credentials _ s
  admin_writes_guarded r credentials s h = cc
