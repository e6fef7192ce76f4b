-- ===== src/AuthService/Leaving.antt =====
-- auth/services/auth_service.py: `logout` and `close_account`, which write to Redis before the
-- database.
use fasti_kit.Accounts
use fasti_kit.Accounts.Ends.{AllSpent, NamedRevoked, logout_ends}
use fasti_kit.Blocklist.{Redis, Cache, revoke, jti_key}
use fasti_kit.Blocklist.Forgetting.{Agrees, revoke-Holds}
use fasti_kit.Base.Lists.{All}
use fasti_kit.Base.Table.{any}
use fasti_kit.Base.{
  ℕ, ◌+◌, ◌≤◌, true, string_eq, nat_eq, ◌==◌, String, ◌≡◌, refl, Bool, Option, none, some, List,
}
use fasti_kit.Exceptions.{entity_not_found_error, Error, Result, ok, err}
use fasti_kit.Model.{DateTime, Uuid, User, TokenRef, AuthSession}
use fasti_kit.World.{World, Action, pure, raise, utc_now, ◌>>=◌}

module _ (redis : Redis) (reachable : ℕ → Bool) where
  -- an action of the database behind `await self.blocklist.revoke(...)`
  abbrev pub after_revoke :
      {A : Type 0}
      → Action A
      → World
      → Result (Unit {0}) × Cache redis reachable
      → (Result A × World) × Cache redis reachable
  after_revoke m w (ok made, c) = (m w, c)
  after_revoke m w (err e, c) = ((err e, w), c)

  -- the clock is read once by `revoke`
  abbrev pub revoke_first :
      {A : Type 0}
      → List TokenRef
      → Action A
      → World
      → Cache redis reachable
      → (Result A × World) × Cache redis reachable
  revoke_first tokens m w c =
      after_revoke m (utc_now w).1 (revoke redis reachable (w.clock w.reads) tokens c)

  unfoldable pub logout :
      AuthSession
      → World
      → Cache redis reachable
      → (Result (Unit {0}) × World) × Cache redis reachable
  logout session w c =
      revoke_first session.tokens
        (Accounts.logout session.user_id session.tokens session.refresh_session_id) w c

  -- `if user is None: raise EntityNotFoundError("User", str(user_id))`
  abbrev pub require_closed : (Uuid → String) → Uuid → Option User → Action (Unit {0})
  require_closed uuid_text user_id none = raise (entity_not_found_error "User" (uuid_text user_id))
  require_closed uuid_text user_id (some user) = pure tt

  unfoldable pub close_account :
      (Uuid → String)
      → Uuid
      → List TokenRef
      → World
      → Cache redis reachable
      → (Result (Unit {0}) × World) × Cache redis reachable
  close_account uuid_text user_id tokens w c =
      revoke_first tokens
        (do user ← Accounts.close_account user_id tokens; require_closed uuid_text user_id user) w c

  -- If `logout` returns, its revocation has not raised, every token of the session is committed as used, and
  -- the refresh session that the cookie named, if any, is committed as revoked where it is the user's.
  pub logout_returned :
      (session : AuthSession) (w : World) (c : Cache redis reachable) (made : Unit)
      → (logout session w c).0.0 ≡ ok made
      → let db = (logout session w c).0.1.committed in
        ((revoke redis reachable (w.clock w.reads) session.tokens c).0 ≡ ok tt)
        × AllSpent session.tokens db.revoked_tokens
        × NamedRevoked session.refresh_session_id session.user_id db.refresh_sessions
  unfolding logout
  logout_returned session w c made h =
      took (revoke redis reachable (w.clock w.reads) session.tokens c) h
    where
      half : Action (Unit {0})
      half = Accounts.logout session.user_id session.tokens session.refresh_session_id

      took :
          (r : Result (Unit {0}) × Cache redis reachable)
          → (after_revoke half (utc_now w).1 r).0.0 ≡ ok made
          → let db = (after_revoke half (utc_now w).1 r).0.1.committed in
            (r.0 ≡ ok tt)
            × AllSpent session.tokens db.revoked_tokens
            × NamedRevoked session.refresh_session_id session.user_id db.refresh_sessions
      took (ok sent, c') k =
          let (spent, named) =
            logout_ends session.user_id session.tokens session.refresh_session_id (utc_now w).1 made
              k in
          (refl, spent, named)
      took (err e, c') k = cc

  same_cache :
      {A : Type 0} (m : Action A) (w : World) (r : Result (Unit {0}) × Cache redis reachable)
      → (after_revoke m w r).1 ≡ r.1
  same_cache m w (ok made, c) = refl
  same_cache m w (err e, c) = refl

  pub logout-cache :
      (session : AuthSession) (w : World) (c : Cache redis reachable)
      → (logout session w c).1 ≡ (revoke redis reachable (w.clock w.reads) session.tokens c).1
  unfolding logout
  logout-cache session w c =
      same_cache (Accounts.logout session.user_id session.tokens session.refresh_session_id)
        (utc_now w).1 (revoke redis reachable (w.clock w.reads) session.tokens c)

  -- If `logout` returns: the key of each token of the session is set in Redis from then on, up to a millisecond
  -- before the token expires, if the tokens of its jti have one expiry; every token is committed as used; and
  -- the refresh session that the cookie named, if any, is committed as revoked where it is the user's.
  pub logout_everywhere :
      (session : AuthSession) (w : World) (c : Cache redis reachable) (made : Unit)
      → (logout session w c).0.0 ≡ ok made
      → (jti : String) (expires_at : DateTime) → All (Agrees jti expires_at) session.tokens
      → any (λ t. t.jti == jti) session.tokens ≡ true
      → (t : DateTime) → w.clock w.reads ≤ t
      → t + 1000 ≤ expires_at
      → let after = logout session w c in
        (redis.has after.1.store t (jti_key jti) ≡ true)
        × AllSpent session.tokens after.0.1.committed.revoked_tokens
        × NamedRevoked session.refresh_session_id session.user_id
            after.0.1.committed.refresh_sessions
  logout_everywhere session w c made done jti expires_at agrees named t after early =
      let (sent, spent, revoked) = logout_returned session w c made done in
      let held =
        revoke-Holds redis reachable jti expires_at (w.clock w.reads) session.tokens c agrees named
          sent in
      (rw (logout-cache session w c) (held.at t after early), spent, revoked)

  -- If Redis does not answer, `logout` raises its error and commits nothing.
  pub logout_needs_redis :
      (session : AuthSession) (w : World) (c : Cache redis reachable) (e : Error)
      → (revoke redis reachable (w.clock w.reads) session.tokens c).0 ≡ err e
      → ((logout session w c).0.0 ≡ err e) × ((logout session w c).0.1.committed ≡ w.committed)
  unfolding logout utc_now
  logout_needs_redis session w c e h = rw h (refl, refl)
