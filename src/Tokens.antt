-- ===== src/Tokens.antt =====
-- auth/repositories/revoked_token_repository.py
pub mod Sound
use fasti_kit.Base.{
  ℕ, String, Bool, ◌&&◌, ◌||◌, List, [], ◌∷◌, ◌++◌, map, ltb, leb, if◌then◌else◌, ◌==◌, nat_eq,
  string_eq,
}
use fasti_kit.Base.Lists.{length}
use fasti_kit.Base.Table.{select, delete_where, any}
use fasti_kit.Exceptions.{conflict_error, integrity_error, ok}
use fasti_kit.Model.{DateTime, RevokedTokenModel, RevokedToken, revoked_token_entity, TokenRef}
use fasti_kit.World.{
  Action, pure, throw, raise, gets, ◌>>=◌, ◌>>◌, utc_now, uuid4, pin_primary, pinned, source, stage,
  transaction,
}

abbrev pub has_jti : String → RevokedTokenModel → Bool
has_jti jti t = t.jti == jti

-- the primary key, then the unique `jti`; both are an `IntegrityError`, so a `ConflictError`
unfoldable pub insert_token : RevokedTokenModel → Action Unit
insert_token model w =
    if any (λ t. t.id == model.id) w.working.revoked_tokens
      || any (has_jti model.jti) w.working.revoked_tokens
    then raise (conflict_error "Token already used") w
    else stage (λ db. record db { revoked_tokens = db.revoked_tokens ++ model ∷ [] }) w

unfoldable pub stage_add : String → DateTime → Action RevokedToken
stage_add jti expires_at = do
  pin_primary
  id ← uuid4
  let model : RevokedTokenModel = record { id = id; jti = jti; expires_at = expires_at }
  insert_token model
  pure (revoked_token_entity model)

unfoldable pub add : String → DateTime → Action RevokedToken
add jti expires_at = transaction (stage_add jti expires_at)

abbrev pub is_active_token : DateTime → RevokedTokenModel → Bool
is_active_token now t = ltb now t.expires_at

-- `exists`
unfoldable pub exists : String → Action Bool
exists jti = pinned do
  now ← utc_now
  gets (λ w. any (λ t. has_jti jti t && is_active_token now t) (source w).revoked_tokens)

abbrev pub token_ref : RevokedTokenModel → TokenRef
token_ref t = record { jti = t.jti; expires_at = t.expires_at }

unfoldable pub list_active : Action (List TokenRef)
list_active = pinned do
  now ← utc_now
  gets (λ w. map token_ref (select (is_active_token now) (source w).revoked_tokens))

-- `INSERT ... ON CONFLICT (jti) DO NOTHING`; a primary key in use is still an error.
unfoldable pub insert_if_absent : RevokedTokenModel → Action Unit
insert_if_absent model w =
    if any (has_jti model.jti) w.working.revoked_tokens
    then pure tt w
    else if any (λ t. t.id == model.id) w.working.revoked_tokens
    then throw integrity_error w
    else stage (λ db. record db { revoked_tokens = db.revoked_tokens ++ model ∷ [] }) w

unfoldable pub stage_add_if_absent : String → DateTime → Action Unit
stage_add_if_absent jti expires_at = do
  pin_primary
  id ← uuid4
  insert_if_absent (record { id = id; jti = jti; expires_at = expires_at })

abbrev pub is_expired_token : DateTime → RevokedTokenModel → Bool
is_expired_token now t = leb t.expires_at now

unfoldable pub delete_expired : DateTime → Action ℕ
delete_expired now w = (
  ok (length (select (is_expired_token now) w.working.revoked_tokens)),
  record w {
    working = record w.working {
      revoked_tokens = delete_where (is_expired_token now) w.working.revoked_tokens;
    };
  },
)

unfoldable pub purge_expired : Action ℕ
purge_expired = do pin_primary; transaction do now ← utc_now; delete_expired now
