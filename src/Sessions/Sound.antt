-- ===== src/Sessions/Sound.antt =====
-- auth/repositories/refresh_session_repository.py: the validity of the database through each
-- method.
use fasti_kit.Sessions.{
  is_session, advance, mark_revoked, insert_session, create, claim, rotate, get, revoke_where,
  revoke, stage_revoke, stage_revoke_all_for_user, delete_expired, purge_expired,
}
use fasti_kit.World.Keeps.{Keeps, keeps_rules}
use fasti_kit.World.Valid.{
  IsValid, SessionsValid, IsSound, IsSettled, IsSound-stable, IsSettled-stable, has_user,
  Keeps-stage, Keeps-transaction, IsRotation,
}
use fasti_kit.Base.Table.Queries.{All-update_where, All-delete_where}
use fasti_kit.Base.Table.Keys.{Unique-insert, Unique-update_where, Unique-delete_where, Lacks-any}
use fasti_kit.Base.{
  ℕ, ◌≡◌, refl, inl, inr, Bool, true, false, ◌&&◌, none, List, [], ◌∷◌, ◌++◌, arith, ◌==◌, nat_eq,
  string_eq, is_none, Bool-cases,
}
use fasti_kit.Base.Lists.{All-append}
use fasti_kit.Base.Table.{update_where, delete_where, any}
use fasti_kit.Model.{Uuid, DateTime, RefreshSessionModel}
use fasti_kit.World.{Db, throw, stage}

sessions-IsValid :
    (db : Db) (sessions : List RefreshSessionModel)
    → IsValid db
    → SessionsValid db.users sessions
    → IsValid (record db { refresh_sessions = sessions })
sessions-IsValid db sessions h valid = record {
  users = h.users;
  sessions = valid;
  tokens = h.tokens;
  event_ids = h.event_ids;
  job_ids = h.job_ids;
}

-- An update that leaves the key and the owner alone, and keeps the rotation mark right.
update-IsValid :
    (p : RefreshSessionModel → Bool) (f : RefreshSessionModel → RefreshSessionModel) (db : Db)
    → ((s : RefreshSessionModel) → (f s).id ≡ s.id)
    → ((s : RefreshSessionModel) → (f s).user_id ≡ s.user_id)
    → ((s : RefreshSessionModel) → IsRotation s → IsRotation (f s))
    → IsValid db
    → IsValid (record db { refresh_sessions = update_where p f db.refresh_sessions })
update-IsValid p f db same_id same_owner rotation h = sessions-IsValid db _ h (record {
  ids = Unique-update_where (λ s. s.id) p f _ (λ s _. same_id s) h.sessions.ids;
  owners = All-update_where _ p f _ (λ s _ known. rw (same_owner s) known) h.sessions.owners;
  rotations = All-update_where _ p f _ (λ s _. rotation s) h.sessions.rotations;
})

delete-IsValid :
    (p : RefreshSessionModel → Bool) (db : Db)
    → IsValid db
    → IsValid (record db { refresh_sessions = delete_where p db.refresh_sessions })
delete-IsValid p db h = sessions-IsValid db _ h (record {
  ids = Unique-delete_where (λ s. s.id) p _ h.sessions.ids;
  owners = All-delete_where _ p _ h.sessions.owners;
  rotations = All-delete_where _ p _ h.sessions.rotations;
})

insert-IsValid :
    (model : RefreshSessionModel) (db : Db)
    → any (is_session model.id) db.refresh_sessions ≡ false
    → has_user db.users model.user_id ≡ true
    → IsRotation model
    → IsValid db
    → IsValid (record db { refresh_sessions = db.refresh_sessions ++ model ∷ [] })
insert-IsValid model db new_id known rotation h = sessions-IsValid db _ h (record {
  ids = Unique-insert (λ s. s.id) _ model h.sessions.ids (Lacks-any (λ s. s.id) _ _ new_id);
  owners = All-append _ _ (model ∷ []) h.sessions.owners (known, tt);
  rotations = All-append _ _ (model ∷ []) h.sessions.rotations (rotation, tt);
})

insert_session-IsSound :
    (model : RefreshSessionModel) → IsRotation model → Keeps IsSound (insert_session model)
unfolding insert_session throw stage
insert_session-IsSound model rotation = record {
  at = λ w h. elim (Bool-cases (any (is_session model.id) w.working.refresh_sessions)) [
    | inl taken ↦ rw taken h
    | inr new_id ↦ elim (Bool-cases (any (λ u. u.id == model.user_id) w.working.users)) [
      | inl known ↦
          rw (new_id, known)
            (record {
              committed = h.committed;
              working = insert-IsValid model w.working new_id known rotation h.working;
            })
      | inr unknown ↦ rw (new_id, unknown) h
    ]
  ];
}

advance-IsRotation : (now : DateTime) (s : RefreshSessionModel) → IsRotation (advance now s)
advance-IsRotation now s = ((λ e. absurd (omega arith)), (λ e. cc))

claim-IsSound :
    (session_id user_id : Uuid) (generation : ℕ) (now : DateTime)
    → Keeps IsSound (claim session_id user_id generation now)
unfolding claim
claim-IsSound session_id user_id generation now = record {
  at = λ w h. record {
    committed = h.committed;
    working =
        update-IsValid _ (advance now) w.working (λ s. refl) (λ s. refl)
          (λ s _. advance-IsRotation now s) h.working;
  };
}

pub revoke_where-IsSound : (p : RefreshSessionModel → Bool) → Keeps IsSound (revoke_where p)
unfolding revoke_where
revoke_where-IsSound p = search (
  keeps_rules,
  IsSound-stable,
  λ (now : DateTime).
      Keeps-stage
        (λ db. record db {
          refresh_sessions =
              update_where (λ s. p s && is_none s.revoked_at) (mark_revoked now)
                db.refresh_sessions;
        })
        (λ db. update-IsValid _ (mark_revoked now) db (λ s. refl) (λ s. refl) (λ s r. r)),
)

delete_expired-IsSound : (now : DateTime) → Keeps IsSound (delete_expired now)
unfolding delete_expired
delete_expired-IsSound now = record {
  at = λ w h. record { committed = h.committed; working = delete-IsValid _ w.working h.working };
}

unrotated_at_start :
    (id user_id : Uuid) (expires_at now : DateTime)
    → IsRotation (record {
      id = id;
      user_id = user_id;
      generation = 0;
      expires_at = expires_at;
      rotated_at = none;
      revoked_at = none;
      created_at = now;
    })
unrotated_at_start id user_id expires_at now = ((λ _. refl), (λ _. refl))

pub create-IsSettled :
    (user_id : Uuid) (expires_at : DateTime) → Keeps IsSettled (create user_id expires_at)
unfolding create
create-IsSettled user_id expires_at =
    search
      (keeps_rules, IsSettled-stable, Keeps-transaction, insert_session-IsSound, unrotated_at_start)
      depth 9

pub rotate-IsSettled :
    (session_id user_id : Uuid) (generation : ℕ)
    → Keeps IsSettled (rotate session_id user_id generation)
unfolding rotate
rotate-IsSettled session_id user_id generation =
    search (keeps_rules, IsSettled-stable, Keeps-transaction, claim-IsSound) depth 9

pub get-IsSettled : (session_id : Uuid) → Keeps IsSettled (get session_id)
unfolding get
get-IsSettled session_id = search (keeps_rules, IsSettled-stable)

pub revoke-IsSettled : (session_id : Uuid) → Keeps IsSettled (revoke session_id)
unfolding revoke
revoke-IsSettled session_id = Keeps-transaction _ (revoke_where-IsSound _)

pub stage_revoke-IsSound :
    (session_id user_id : Uuid) → Keeps IsSound (stage_revoke session_id user_id)
unfolding stage_revoke
stage_revoke-IsSound session_id user_id = revoke_where-IsSound _

pub stage_revoke_all-IsSound : (user_id : Uuid) → Keeps IsSound (stage_revoke_all_for_user user_id)
unfolding stage_revoke_all_for_user
stage_revoke_all-IsSound user_id = revoke_where-IsSound _

pub purge_expired-IsSettled : Keeps IsSettled purge_expired
unfolding purge_expired
purge_expired-IsSettled =
    search
      (keeps_rules, IsSettled-stable, IsSound-stable, Keeps-transaction, delete_expired-IsSound)
