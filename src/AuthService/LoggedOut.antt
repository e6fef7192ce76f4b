-- ===== src/AuthService/LoggedOut.antt =====
-- A logout and the check of a token that follows it: auth/services/auth_service.py, auth/blocklist.py and
-- `is_token_revoked` of auth/dependencies.py together.
use fasti_kit.Accounts.Links.{is_spent}
use fasti_kit.Accounts.Ends.{AllSpent}
use fasti_kit.AuthService.Leaving.{logout, logout_returned, logout-cache}
use fasti_kit.Blocklist.{Redis, Cache, is_token_revoked}
use fasti_kit.Blocklist.Forgetting.{Agrees}
use fasti_kit.Blocklist.Uses.{Use, Later, last_time, run_uses, revoked_refused}
use fasti_kit.Tokens.{has_jti, is_active_token}
use fasti_kit.Base.{
  ℕ, ◌+◌, ◌≤◌, ◌<◌, String, ◌≡◌, sym, subst, Bool, true, ◌&&◌, some, List, [], ◌∷◌, arith,
  Bool-cases, inl, inr, string_eq, nat_eq, ◌==◌, lt→ltb,
}
use fasti_kit.Base.Lists.{All}
use fasti_kit.Base.Table.{any}
use fasti_kit.Exceptions.{ok}
use fasti_kit.Model.{DateTime, TokenRef, RevokedTokenModel, AuthSession}
use fasti_kit.World.{World}

-- a row of the jti has the expiry
abbrev pub RowAgrees : String → DateTime → RevokedTokenModel → Type 0
RowAgrees jti expires_at row = row.jti ≡ jti → row.expires_at ≡ expires_at

active :
    (jti : String) (expires_at t : DateTime) (table : List RevokedTokenModel)
    → t < expires_at
    → All (RowAgrees jti expires_at) table
    → is_spent jti table ≡ true
    → any (λ r. has_jti jti r && is_active_token t r) table ≡ true
unfolding any
active jti expires_at t [] early agrees spent = spent
active jti expires_at t (row ∷ table) early (agrees, rest) spent =
    elim (Bool-cases (has_jti jti row)) [
      | inl e ↦
          let ends : row.expires_at ≡ expires_at = agrees ((string_eq.decides row.jti jti).0 e) in
          ground (arith, e, lt→ltb t row.expires_at (omega (arith, early, ends)))
      | inr e ↦
          ground (arith, e, active jti expires_at t table early rest (ground (arith, e, spent)))
    ]

spent_token :
    (jti : String) (tokens : List TokenRef) (table : List RevokedTokenModel)
    → any (λ t. t.jti == jti) tokens ≡ true
    → AllSpent tokens table
    → is_spent jti table ≡ true
unfolding any
spent_token jti [] table named spent = cc
spent_token jti (token ∷ tokens) table named (first, rest) = elim (Bool-cases (token.jti == jti)) [
  | inl e ↦ subst (λ j. is_spent j table ≡ true) ((string_eq.decides token.jti jti).0 e) first
  | inr e ↦ spent_token jti tokens table (ground (arith, e, named)) rest
]

module _ (redis : Redis) (reachable : ℕ → Bool) where
  -- Once `logout` has returned, `is_token_revoked` says of each token of the session that it is revoked,
  -- whether or not Redis answers, at any time up to a millisecond before the token expires and after
  -- whatever uses of the blocklist in the order of their times: if the jti has one expiry in the session,
  -- in the table of used tokens and in the later uses, and the table is as the logout committed it.
  pub logged_out_refused :
      (jti : String) (expires_at : DateTime) (session : AuthSession) (w : World)
      (c : Cache redis reachable) (made : Unit)
      → (logout redis reachable session w c).0.0 ≡ ok made
      → All (Agrees jti expires_at) session.tokens
      → any (λ t. t.jti == jti) session.tokens ≡ true
      → All
          (RowAgrees jti expires_at)
          (logout redis reachable session w c).0.1.committed.revoked_tokens
      → (uses : List (DateTime × Use)) → Later jti expires_at (w.clock w.reads) uses
      → (t : DateTime) → last_time (w.clock w.reads) uses ≤ t
      → t + 1000 ≤ expires_at
      → (is_token_revoked redis reachable t
          (some jti)
          (logout redis reachable session w c).0.1.committed.revoked_tokens
          (run_uses redis reachable uses (logout redis reachable session w c).1)).0
        ≡ true
  logged_out_refused jti expires_at session w c made done agrees named rows uses later t after
        early =
      let now = w.clock w.reads in
      let table = (logout redis reachable session w c).0.1.committed.revoked_tokens in
      let (sent, spent, _) = logout_returned redis reachable session w c made done in
      subst
        (λ cache.
          (is_token_revoked redis reachable t (some jti) table
            (run_uses redis reachable uses cache)).0
          ≡ true)
        (sym (logout-cache redis reachable session w c))
        (revoked_refused redis reachable jti expires_at now session.tokens c agrees named sent uses
          later t after early table
          (active jti expires_at t table (omega (arith, early)) rows
            (spent_token jti session.tokens table named spent)))
