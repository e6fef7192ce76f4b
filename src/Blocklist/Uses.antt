-- ===== src/Blocklist/Uses.antt =====
-- The blocklist under any sequence of its uses.
use fasti_kit.Tokens
use fasti_kit.Blocklist.{
  Redis, jti_key, ready_key, Cache, revoke, lookup, claim_seeding, seed, answer, is_token_revoked,
}
use fasti_kit.Blocklist.Forgetting.{
  Agrees, Holds, queue-Reaches, revoke-Holds, pipeline-Holds, claim-Holds, seed-Holds,
}
use fasti_kit.Base.{
  ℕ, ◌+◌, ◌≤◌, String, ◌≡◌, refl, ◌⊎◌, inl, inr, Bool, true, false, ◌&&◌, Option, none, some, List,
  [], ◌∷◌, arith, string_eq, nat_eq, ◌==◌, Bool-cases,
}
use fasti_kit.Base.Lists.{All}
use fasti_kit.Base.Table.{any}
use fasti_kit.Exceptions.{ok}
use fasti_kit.Model.{DateTime, RevokedTokenModel, TokenRef}

-- What the processes of the service do with the blocklist, each at a time of its own.
pub data Use : Type 0 where
  revokes : List TokenRef → Use
  looks_up : String → Use
  claims : Use
  seeds : List TokenRef → Use

abbrev pub UseAgrees : String → DateTime → Use → Type 0
UseAgrees jti expires_at (revokes tokens) = All (Agrees jti expires_at) tokens
UseAgrees jti expires_at (looks_up other) = Unit
UseAgrees jti expires_at claims = Unit
UseAgrees jti expires_at (seeds tokens) = All (Agrees jti expires_at) tokens

-- the uses stand in the order of their times, none before the first time, and agree on the expiry
abbrev pub Later : String → DateTime → DateTime → List (DateTime × Use) → Type 0
Later jti expires_at from [] = Unit
Later jti expires_at from ((now, use_) ∷ uses) =
    (from ≤ now) × UseAgrees jti expires_at use_ × Later jti expires_at now uses

abbrev pub last_time : DateTime → List (DateTime × Use) → DateTime
last_time from [] = from
last_time from ((now, use_) ∷ uses) = last_time now uses

module _ (redis : Redis) (reachable : ℕ → Bool) where
  abbrev pub used : DateTime → Use → Cache redis reachable → Cache redis reachable
  used now (revokes tokens) c = (revoke redis reachable now tokens c).1
  used now (looks_up jti) c = (lookup redis reachable now jti c).1
  used now claims c = (claim_seeding redis reachable now c).1
  used now (seeds tokens) c = seed redis reachable now tokens c

  unfoldable pub run_uses : List (DateTime × Use) → Cache redis reachable → Cache redis reachable
  run_uses [] c = c
  run_uses ((now, use_) ∷ uses) c = run_uses uses (used now use_ c)

  module _ (jti : String) (expires_at : DateTime) where
    used-Holds :
        (from now : DateTime) (u : Use) (c : Cache redis reachable)
        → from ≤ now
        → UseAgrees jti expires_at u
        → Holds redis reachable jti expires_at from c.store
        → Holds redis reachable jti expires_at now (used now u c).store
    unfolding revoke lookup
    used-Holds from now (revokes tokens) c later agrees h =
        pipeline-Holds redis reachable jti expires_at from now _ c later
          (queue-Reaches redis reachable jti expires_at now tokens agrees) h
    used-Holds from now (looks_up other) c later agrees h = record {
      at = λ t a b. h.at t (omega (arith, later, a)) b;
    }
    used-Holds from now claims c later agrees h =
        claim-Holds redis reachable jti expires_at from now c later h
    used-Holds from now (seeds tokens) c later agrees h =
        seed-Holds redis reachable jti expires_at from now tokens c later agrees h

    run_uses-Holds :
        (from : DateTime) (uses : List (DateTime × Use)) (c : Cache redis reachable)
        → Later jti expires_at from uses
        → Holds redis reachable jti expires_at from c.store
        → Holds redis reachable jti expires_at (last_time from uses) (run_uses uses c).store
    unfolding run_uses
    run_uses-Holds from [] c later h = h
    run_uses-Holds from ((now, u) ∷ uses) c (first, agrees, later) h =
        run_uses-Holds now uses (used now u c) later (used-Holds from now u c first agrees h)

    lookup_known :
        (t : DateTime) (c : Cache redis reachable)
        → redis.has c.store t (jti_key jti) ≡ true
        → let found = (lookup redis reachable t jti c).0 in (found ≡ none) ⊎ (found ≡ some true)
    unfolding lookup
    lookup_known t c held = elim (Bool-cases (reachable c.calls)) [
      | inl up ↦ elim (Bool-cases (redis.has c.store t ready_key)) [
        | inl ready ↦ rw (up, ready, held) (inr refl)
        | inr unready ↦ rw (up, unready) (inl refl)
      ]
      | inr down ↦ rw down (inl refl)
    ]

    answered :
        (t : DateTime) (table : List RevokedTokenModel) (r : Option Bool × Cache redis reachable)
        → any (λ m. Tokens.has_jti jti m && Tokens.is_active_token t m) table ≡ true
        → (r.0 ≡ none) ⊎ (r.0 ≡ some true)
        → (answer redis reachable t jti table r).0 ≡ true
    answered t table (none, c) recorded known = recorded
    answered t table (some true, c) recorded known = refl
    answered t table (some false, c) recorded (inl h) = cc
    answered t table (some false, c) recorded (inr h) = cc

    -- Once a revocation of the token has not raised, and whatever uses of the blocklist follow in the order
    -- of their times, with the same expiry for the token, up to a millisecond before that expiry: a lookup
    -- finds the token revoked, or gives no answer.
    pub lookup_remembers :
        (now : DateTime) (tokens : List TokenRef) (c : Cache redis reachable)
        → All (Agrees jti expires_at) tokens
        → any (λ t. t.jti == jti) tokens ≡ true
        → (revoke redis reachable now tokens c).0 ≡ ok tt
        → (uses : List (DateTime × Use)) → Later jti expires_at now uses
        → (t : DateTime) → last_time now uses ≤ t
        → t + 1000 ≤ expires_at
        → let found =
            (lookup redis reachable t jti
              (run_uses uses (revoke redis reachable now tokens c).1)).0 in
          (found ≡ none) ⊎ (found ≡ some true)
    lookup_remembers now tokens c agrees named sent uses later t after early =
        let c' = run_uses uses (revoke redis reachable now tokens c).1 in
        let held =
          run_uses-Holds now uses _ later
            (revoke-Holds redis reachable jti expires_at now tokens c agrees named sent) in
        lookup_known t _ (held.at t after early)

    -- Once a revocation of the token has not raised, and whatever uses of the blocklist follow in the order
    -- of their times, with the same expiry for the token, up to a millisecond before that expiry: if the
    -- table of used tokens has the token, unexpired, then `is_token_revoked` says that it is revoked,
    -- whether or not Redis answers.
    pub revoked_refused :
        (now : DateTime) (tokens : List TokenRef) (c : Cache redis reachable)
        → All (Agrees jti expires_at) tokens
        → any (λ t. t.jti == jti) tokens ≡ true
        → (revoke redis reachable now tokens c).0 ≡ ok tt
        → (uses : List (DateTime × Use)) → Later jti expires_at now uses
        → (t : DateTime) → last_time now uses ≤ t
        → t + 1000 ≤ expires_at
        → (table : List RevokedTokenModel)
        → any (λ r. Tokens.has_jti jti r && Tokens.is_active_token t r) table ≡ true
        → (is_token_revoked redis reachable t
            (some jti)
            table
            (run_uses uses (revoke redis reachable now tokens c).1)).0
          ≡ true
    unfolding is_token_revoked
    revoked_refused now tokens c agrees named sent uses later t after early table recorded =
        answered t table _ recorded
          (lookup_remembers now tokens c agrees named sent uses later t after early)
