-- ===== src/Sessions.antt =====
-- auth/repositories/refresh_session_repository.py
pub mod Sound
pub mod Rotation
pub mod Interleaving
use fasti_kit.Base.{
  ℕ, ◌+◌, Bool, ◌&&◌, Option, none, some, List, [], ◌∷◌, ◌++◌, map, ltb, leb, if◌then◌else◌, ◌==◌,
  nat_eq, string_eq, is_none,
}
use fasti_kit.Base.Lists.{length}
use fasti_kit.Base.Table.{find, select, update_where, delete_where, any}
use fasti_kit.Exceptions.{integrity_error, ok}
use fasti_kit.Model.{Uuid, DateTime, RefreshSessionModel, RefreshSession, session_entity}
use fasti_kit.World.{
  Action, pure, throw, gets, ◌>>=◌, ◌>>◌, utc_now, uuid4, pin_primary, pinned, source, stage,
  transaction, one_or_none,
}

-- `RefreshSessionModel.id == session_id`, and the conditions beside it
abbrev pub is_session : Uuid → RefreshSessionModel → Bool
is_session session_id s = s.id == session_id

abbrev pub is_session_of : Uuid → Uuid → RefreshSessionModel → Bool
is_session_of session_id user_id s = s.id == session_id && s.user_id == user_id

abbrev pub belongs_to : Uuid → RefreshSessionModel → Bool
belongs_to user_id s = s.user_id == user_id

-- the insert of the flush: the primary key, then the foreign key to `users.id`
unfoldable pub insert_session : RefreshSessionModel → Action Unit
insert_session model w =
    if any (is_session model.id) w.working.refresh_sessions
    then throw integrity_error w
    else if any (λ u. u.id == model.user_id) w.working.users
    then stage (λ db. record db { refresh_sessions = db.refresh_sessions ++ model ∷ [] }) w
    else throw integrity_error w

unfoldable pub create : Uuid → DateTime → Action RefreshSession
create user_id expires_at = do
  pin_primary
  id ← uuid4
  now ← utc_now
  let model : RefreshSessionModel = record {
    id = id;
    user_id = user_id;
    generation = 0;
    expires_at = expires_at;
    rotated_at = none;
    revoked_at = none;
    created_at = now;
  }
  transaction do insert_session model; pure (session_entity model)

-- the `WHERE` of the claim
abbrev pub is_claimable : Uuid → Uuid → ℕ → DateTime → RefreshSessionModel → Bool
is_claimable session_id user_id generation now s =
    s.id == session_id
    && s.user_id == user_id
    && s.generation == generation
    && is_none s.revoked_at
    && ltb now s.expires_at

-- its `SET`
abbrev pub advance : DateTime → RefreshSessionModel → RefreshSessionModel
advance now s = record s { generation = s.generation + 1; rotated_at = some now }

-- `UPDATE refresh_sessions ... RETURNING`
unfoldable pub claim : Uuid → Uuid → ℕ → DateTime → Action (List RefreshSessionModel)
claim session_id user_id generation now w =
    let p = is_claimable session_id user_id generation now in
    (
      ok (map (advance now) (select p w.working.refresh_sessions)),
      record w {
        working = record w.working {
          refresh_sessions = update_where p (advance now) w.working.refresh_sessions;
        };
      },
    )

abbrev pub to_entity : Option RefreshSessionModel → Option RefreshSession
to_entity none = none
to_entity (some model) = some (session_entity model)

unfoldable pub rotate : Uuid → Uuid → ℕ → Action (Option RefreshSession)
rotate session_id user_id generation = do
  pin_primary
  now ← utc_now
  transaction do
    rows ← claim session_id user_id generation now
    model ← one_or_none rows
    pure (to_entity model)

unfoldable pub get : Uuid → Action (Option RefreshSession)
get session_id =
    pinned (gets (λ w. to_entity (find (is_session session_id) (source w).refresh_sessions)))

abbrev pub mark_revoked : DateTime → RefreshSessionModel → RefreshSessionModel
mark_revoked now s = record s { revoked_at = some now }

-- `_revoke_where`
unfoldable pub revoke_where : (RefreshSessionModel → Bool) → Action Unit
revoke_where p = do
  pin_primary
  now ← utc_now
  stage (λ db. record db {
    refresh_sessions =
        update_where (λ s. p s && is_none s.revoked_at) (mark_revoked now) db.refresh_sessions;
  })

unfoldable pub revoke : Uuid → Action Unit
revoke session_id = transaction (revoke_where (is_session session_id))

unfoldable pub stage_revoke : Uuid → Uuid → Action Unit
stage_revoke session_id user_id = revoke_where (is_session_of session_id user_id)

unfoldable pub stage_revoke_all_for_user : Uuid → Action Unit
stage_revoke_all_for_user user_id = revoke_where (belongs_to user_id)

abbrev pub is_expired_session : DateTime → RefreshSessionModel → Bool
is_expired_session now s = leb s.expires_at now

-- `DELETE ... RETURNING id` on the expired sessions
unfoldable pub delete_expired : DateTime → Action ℕ
delete_expired now w = (
  ok (length (select (is_expired_session now) w.working.refresh_sessions)),
  record w {
    working = record w.working {
      refresh_sessions = delete_where (is_expired_session now) w.working.refresh_sessions;
    };
  },
)

unfoldable pub purge_expired : Action ℕ
purge_expired = do pin_primary; transaction do now ← utc_now; delete_expired now
