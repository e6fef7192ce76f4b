-- ===== src/AuthService/Login.antt =====
-- auth/services/auth_service.py: whom `login` lets in.
use fasti_kit.Users
use fasti_kit.Users.{get_by_email}
use fasti_kit.Sessions.{create, insert_session}
use fasti_kit.Security.{authenticate, admit, password_hash_of}
use fasti_kit.AuthService.{open_session, login}
use fasti_kit.World.Inversion.{bind_ok}
use fasti_kit.Env.{Env}
use fasti_kit.Base.{
  String, ◌≡◌, refl, true, Option, none, some, arith, string_eq, nat_eq, ◌==◌, ◌+◌, sym, ◌∙◌, ap,
  inl, inr, Bool, not, ◌||◌, Bool-cases,
}
use fasti_kit.Base.Table.{find}
use fasti_kit.Exceptions.{ok}
use fasti_kit.Model.{user_entity, Uuid, DateTime, UserModel, User, RefreshSession}
use fasti_kit.World.{Db, World, ◌>>=◌, transaction, pure, utc_now, throw}

-- the row behind a login, and the session that it opens
pub record IsAdmitted (env : Env) (email password : String) (db : Db) (user : User)
    (session : RefreshSession) : Type 0 where
  pub row : UserModel
  pub found : find (λ u. u.email == email) db.users ≡ some row
  pub entity : user ≡ user_entity row
  pub password_ok : env.checkpw password row.password_hash ≡ true
  pub active : row.is_active ≡ true
  pub verified : row.is_verified ≡ true
  pub owner : session.user_id ≡ row.id
  pub fresh : session.generation ≡ 0
  pub unrevoked : session.revoked_at ≡ none

created :
    (user_id : Uuid) (expires_at : DateTime) (w : World) (s : RefreshSession)
    → (create user_id expires_at w).0 ≡ ok s
    → (s.user_id ≡ user_id) × (s.generation ≡ 0) × (s.revoked_at ≡ none)
unfolding create ◌>>=◌ insert_session transaction
created user_id expires_at w s h = ground arith

module _ (env : Env) (email password : String) where
  opened :
      (user : User) (w : World) (reply : User × RefreshSession)
      → (open_session env (some user) w).0 ≡ ok reply
      → (reply.0 ≡ user)
        × (reply.1.user_id ≡ user.id)
        × (reply.1.generation ≡ 0)
        × (reply.1.revoked_at ≡ none)
  unfolding pure
  opened user w reply h =
      let (now, _, h₁, _) = bind_ok utc_now _ w _ h in
      let (s, made, h₂, _) = bind_ok (create user.id (now + env.session_ttl)) _ _ _ h₁ in
      let (owner, fresh, unrevoked) = created _ _ _ s made in
      let same : (user, s) ≡ reply = ground (arith, h₂) in
      (
        ap (λ r. r.0) (sym same),
        ap (λ r. r.1.user_id) (sym same) ∙ owner,
        ap (λ r. r.1.generation) (sym same) ∙ fresh,
        ap (λ r. r.1.revoked_at) (sym same) ∙ unrevoked,
      )

  admitted :
      (found : Option UserModel) (db : Db) (w : World) (reply : User × RefreshSession)
      → find (λ u. u.email == email) db.users ≡ found
      → (open_session env
          (admit env
            (env.checkpw password (password_hash_of env (Users.to_entity found)))
            (Users.to_entity found))
          w).0
        ≡ ok reply
      → IsAdmitted env email password db reply.0 reply.1
  unfolding throw
  admitted none db w reply found h = cc
  admitted (some row) db w reply found h = elim (Bool-cases (refused row)) [
    | inl failed ↦ absurd (nothing (rw failed at h))
    | inr passed ↦
        let (same, owner, fresh, unrevoked) = opened (user_entity row) w reply (rw passed at h) in
        record {
          row = row;
          found = found;
          entity = same;
          password_ok = ground (arith, passed);
          active = ground (arith, passed);
          verified = ground (arith, passed);
          owner = owner;
          fresh = fresh;
          unrevoked = unrevoked;
        }
  ]
    where
      refused : UserModel → Bool
      refused row =
          not (env.checkpw password row.password_hash) || not row.is_active || not row.is_verified

      nothing : (open_session env none w).0 ≡ ok reply → ⊥
      nothing e = cc

  -- If `login` returns a user and a session, the user is the entity of the row that the primary has at
  -- the email, the password passes the check against its hash, the row is active and verified, and the
  -- session belongs to it, at generation 0 and not revoked.
  pub login_admits :
      (w : World) (user : User) (session : RefreshSession)
      → (login env email password w).0 ≡ ok (user, session)
      → IsAdmitted env email password w.working user session
  unfolding login authenticate get_by_email ◌>>=◌
  login_admits w user session h = admitted _ w.working _ (user, session) refl h
