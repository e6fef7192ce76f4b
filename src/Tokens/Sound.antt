-- ===== src/Tokens/Sound.antt =====
-- auth/repositories/revoked_token_repository.py: the validity of the database through each method.
use fasti_kit.Tokens.{
  has_jti, insert_token, stage_add, add, exists, list_active, insert_if_absent, stage_add_if_absent,
  delete_expired, purge_expired,
}
use fasti_kit.World.Keeps.{Keeps, keeps_rules}
use fasti_kit.World.Valid.{
  IsValid, TokensValid, IsSound, IsSettled, IsSound-stable, IsSettled-stable, Keeps-transaction,
}
use fasti_kit.Base.Table.Keys.{Unique-insert, Unique-delete_where, Lacks-any}
use fasti_kit.Base.{
  String, ◌≡◌, inl, inr, false, List, [], ◌∷◌, ◌++◌, ◌==◌, nat_eq, string_eq, Bool-cases,
}
use fasti_kit.Base.Table.{any}
use fasti_kit.Model.{DateTime, RevokedTokenModel}
use fasti_kit.World.{Db, pure, throw, stage}

tokens-IsValid :
    (db : Db) (tokens : List RevokedTokenModel)
    → IsValid db
    → TokensValid tokens
    → IsValid (record db { revoked_tokens = tokens })
tokens-IsValid db tokens h valid = record {
  users = h.users;
  sessions = h.sessions;
  tokens = valid;
  event_ids = h.event_ids;
  job_ids = h.job_ids;
}

insert-IsValid :
    (model : RevokedTokenModel) (db : Db)
    → any (λ t. t.id == model.id) db.revoked_tokens ≡ false
    → any (has_jti model.jti) db.revoked_tokens ≡ false
    → IsValid db
    → IsValid (record db { revoked_tokens = db.revoked_tokens ++ model ∷ [] })
insert-IsValid model db new_id new_jti h = tokens-IsValid db _ h (record {
  ids = Unique-insert (λ t. t.id) _ model h.tokens.ids (Lacks-any (λ t. t.id) _ _ new_id);
  jtis = Unique-insert (λ t. t.jti) _ model h.tokens.jtis (Lacks-any (λ t. t.jti) _ _ new_jti);
})

insert_token-IsSound : (model : RevokedTokenModel) → Keeps IsSound (insert_token model)
unfolding insert_token throw stage
insert_token-IsSound model = record {
  at = λ w h. elim (Bool-cases (any (λ t. t.id == model.id) w.working.revoked_tokens)) [
    | inl taken ↦ rw taken h
    | inr new_id ↦ elim (Bool-cases (any (has_jti model.jti) w.working.revoked_tokens)) [
      | inl taken ↦ rw (new_id, taken) h
      | inr new_jti ↦
          rw (new_id, new_jti)
            (record {
              committed = h.committed;
              working = insert-IsValid model w.working new_id new_jti h.working;
            })
    ]
  ];
}

pub stage_add-IsSound :
    (jti : String) (expires_at : DateTime) → Keeps IsSound (stage_add jti expires_at)
unfolding stage_add
stage_add-IsSound jti expires_at = search (keeps_rules, IsSound-stable, insert_token-IsSound)

pub add-IsSettled : (jti : String) (expires_at : DateTime) → Keeps IsSettled (add jti expires_at)
unfolding add
add-IsSettled jti expires_at = Keeps-transaction _ (stage_add-IsSound jti expires_at)

pub exists-IsSettled : (jti : String) → Keeps IsSettled (exists jti)
unfolding exists
exists-IsSettled jti = search (keeps_rules, IsSettled-stable)

pub list_active-IsSettled : Keeps IsSettled list_active
unfolding list_active
list_active-IsSettled = search (keeps_rules, IsSettled-stable)

insert_if_absent-IsSound : (model : RevokedTokenModel) → Keeps IsSound (insert_if_absent model)
unfolding insert_if_absent throw stage pure
insert_if_absent-IsSound model = record {
  at = λ w h. elim (Bool-cases (any (has_jti model.jti) w.working.revoked_tokens)) [
    | inl taken ↦ rw taken h
    | inr new_jti ↦ elim (Bool-cases (any (λ t. t.id == model.id) w.working.revoked_tokens)) [
      | inl taken ↦ rw (new_jti, taken) h
      | inr new_id ↦
          rw (new_jti, new_id)
            (record {
              committed = h.committed;
              working = insert-IsValid model w.working new_id new_jti h.working;
            })
    ]
  ];
}

pub stage_add_if_absent-IsSound :
    (jti : String) (expires_at : DateTime) → Keeps IsSound (stage_add_if_absent jti expires_at)
unfolding stage_add_if_absent
stage_add_if_absent-IsSound jti expires_at =
    search (keeps_rules, IsSound-stable, insert_if_absent-IsSound)

delete_expired-IsSound : (now : DateTime) → Keeps IsSound (delete_expired now)
unfolding delete_expired
delete_expired-IsSound now = record {
  at = λ w h. record {
    committed = h.committed;
    working = tokens-IsValid w.working _ h.working (record {
      ids = Unique-delete_where (λ t. t.id) _ _ h.working.tokens.ids;
      jtis = Unique-delete_where (λ t. t.jti) _ _ h.working.tokens.jtis;
    });
  };
}

pub purge_expired-IsSettled : Keeps IsSettled purge_expired
unfolding purge_expired
purge_expired-IsSettled =
    search
      (keeps_rules, IsSettled-stable, IsSound-stable, Keeps-transaction, delete_expired-IsSound)
