-- ===== src/Users/Keeping.antt =====
-- user/repositories/user_repository.py: a property of the database through the methods that add
-- and update users.
use fasti_kit.Base.{
  String, Option, none, some, List, [], ◌∷◌, ◌++◌, inl, inr, Bool-cases, string_eq, nat_eq, ◌==◌,
}
use fasti_kit.Base.Table.{any, update_where}
use fasti_kit.Model.{Uuid, UserModel}
use fasti_kit.World.{Db, throw, stage}
use fasti_kit.World.Both.{Both, Both-stable, Both-transaction}
use fasti_kit.World.Keeps.{Keeps, keeps_rules}
use fasti_kit.Users.{
  Field, nulls_email, nulls_full_name, email_taken, flush_new, flush_changed, id_or_uuid4,
  stage_add, change, stage_update, add, update,
}

module _ (Q : Db → Type 0)
    (insert : (model : UserModel) (db : Db)
      → Q db
      → Q (record db { users = db.users ++ model ∷ [] }))
    (replace : (model : UserModel) (db : Db)
      → Q db
      → Q (record db { users = update_where (λ u. u.id == model.id) (λ _. model) db.users })) where
  flush_new-Both : (model : UserModel) → Keeps (Both Q) (flush_new model)
  unfolding flush_new throw stage
  flush_new-Both model = record {
    at = λ w h. elim (Bool-cases (any (λ u. u.id == model.id) w.working.users)) [
      | inl taken ↦ rw taken h
      | inr new_id ↦ elim (Bool-cases (any (λ u. u.email == model.email) w.working.users)) [
        | inl taken ↦ rw (new_id, taken) h
        | inr new_email ↦
            rw (new_id, new_email)
              (record { committed = h.committed; working = insert model w.working h.working })
      ]
    ];
  }

  flush_changed-Both :
      (fields : List Field) (model : UserModel) → Keeps (Both Q) (flush_changed fields model)
  unfolding flush_changed throw stage
  flush_changed-Both fields model = record {
    at = λ w h. elim (Bool-cases (any nulls_email fields)) [
      | inl e ↦ rw e h
      | inr e ↦ elim (Bool-cases (any nulls_full_name fields)) [
        | inl f ↦ rw (e, f) h
        | inr f ↦ elim (Bool-cases (email_taken model w.working.users)) [
          | inl taken ↦ rw (e, f, taken) h
          | inr free ↦
              rw (e, f, free)
                (record { committed = h.committed; working = replace model w.working h.working })
        ]
      ]
    ];
  }

  id_or_uuid4-Both : (id : Option Uuid) → Keeps (Both Q) (id_or_uuid4 id)
  unfolding id_or_uuid4
  id_or_uuid4-Both none = search (keeps_rules, Both-stable)
  id_or_uuid4-Both (some id) = search keeps_rules

  stage_add-Both :
      (name address hash : String) (id : Option Uuid) (jti : Option String)
      → Keeps (Both Q) (stage_add name address hash id jti)
  unfolding stage_add
  stage_add-Both name address hash id jti =
      search (keeps_rules, Both-stable, id_or_uuid4-Both, flush_new-Both)

  pub add-Both : (name address hash : String) → Keeps (Both Q) (add name address hash)
  unfolding add
  add-Both name address hash = Both-transaction Q _ (stage_add-Both name address hash none none)

  change-Both :
      (fields : List Field) (found : Option UserModel) → Keeps (Both Q) (change fields found)
  unfolding change
  change-Both fields none = search keeps_rules
  change-Both fields (some user) = search (keeps_rules, Both-stable, flush_changed-Both)

  stage_update-Both : (id : Uuid) (fields : List Field) → Keeps (Both Q) (stage_update id fields)
  unfolding stage_update
  stage_update-Both id fields = search (keeps_rules, Both-stable, change-Both)

  pub update-Both : (id : Uuid) (fields : List Field) → Keeps (Both Q) (update id fields)
  unfolding update
  update-Both id fields = Both-transaction Q _ (stage_update-Both id fields)
