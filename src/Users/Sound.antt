-- ===== src/Users/Sound.antt =====
-- user/repositories/user_repository.py: the validity of the database through each method.
use fasti_kit.Users.{
  Field, nulls_email, nulls_full_name, email_taken, flush_new, flush_changed, id_or_uuid4,
  stage_add, change, delete_user, erase, force_delete, stage_update, stage_deactivate, add,
  register, get, get_by_email, update, delete, pin_if,
}
use fasti_kit.Outbox.Sound.{stage_add-IsSound as event-IsSound}
use fasti_kit.World.Keeps.{Keeps, IsStable, keeps_rules}
use fasti_kit.World.Valid.{
  IsValid, UsersValid, IsSound, IsSettled, IsSound-stable, IsSettled-stable, has_user, Keeps-stage,
  Keeps-transaction,
}
use fasti_kit.Base.Table.Queries.{
  any-append, any-update_where, any-delete_where, All-any, All-kept, All-delete_where,
}
use fasti_kit.Base.Table.Keys.{
  Unique-insert, Unique-update_where, Unique-delete_where, Unique-replace, Lacks-any,
}
use fasti_kit.Base.{
  String, ◌≡◌, ◌∙◌, ap, ◌≢◌, inl, inr, Bool, true, false, not, ◌&&◌, Option, none, some, List,
  arith, ◌==◌, nat_eq, string_eq, Bool-cases, [], ◌∷◌, ◌++◌,
}
use fasti_kit.Base.Lists.{All-mono}
use fasti_kit.Base.Table.{update_where, any, delete_where}
use fasti_kit.Json.{Dict}
use fasti_kit.Model.{Uuid, UserModel, RefreshSessionModel}
use fasti_kit.World.{Db, World, throw, stage}

-- The users may change if every owner of a session stays.
users-IsValid :
    (db : Db) (users : List UserModel)
    → IsValid db
    → UsersValid users
    → ((id : Uuid) → has_user db.users id ≡ true → has_user users id ≡ true)
    → IsValid (record db { users = users })
users-IsValid db users h valid stay = record {
  users = valid;
  sessions = record {
    ids = h.sessions.ids;
    owners = All-mono (λ s. stay s.user_id) _ h.sessions.owners;
    rotations = h.sessions.rotations;
  };
  tokens = h.tokens;
  event_ids = h.event_ids;
  job_ids = h.job_ids;
}

insert-IsValid :
    (model : UserModel) (db : Db)
    → any (λ u. u.id == model.id) db.users ≡ false
    → any (λ u. u.email == model.email) db.users ≡ false
    → IsValid db
    → IsValid (record db { users = db.users ++ model ∷ [] })
insert-IsValid model db new_id new_email h =
    users-IsValid db _ h
      (record {
        ids = Unique-insert (λ u. u.id) _ model h.users.ids (Lacks-any (λ u. u.id) _ _ new_id);
        emails =
            Unique-insert (λ u. u.email) _ model h.users.emails
              (Lacks-any (λ u. u.email) _ _ new_email);
      })
      (λ id known. any-append _ db.users model known)

flush_new-IsSound : (model : UserModel) → Keeps IsSound (flush_new model)
unfolding flush_new throw stage
flush_new-IsSound model = record {
  at = λ w h. elim (Bool-cases (any (λ u. u.id == model.id) w.working.users)) [
    | inl taken ↦ rw taken h
    | inr new_id ↦ elim (Bool-cases (any (λ u. u.email == model.email) w.working.users)) [
      | inl taken ↦ rw (new_id, taken) h
      | inr new_email ↦
          rw (new_id, new_email)
            (record {
              committed = h.committed;
              working = insert-IsValid model w.working new_id new_email h.working;
            })
    ]
  ];
}

-- the rows of other users do not hold the email
others_differ :
    (model r : UserModel)
    → (r.email == model.email && not (r.id == model.id)) ≡ false
    → (r.id == model.id) ≡ false
    → r.email ≢ model.email
others_differ model r h other same = ground (arith, (string_eq.decides r.email model.email).1 same)

same_user : (model r : UserModel) → (r.id == model.id) ≡ true → model.id ≡ r.id
same_user model r h = ground arith

replace-IsValid :
    (model : UserModel) (db : Db)
    → email_taken model db.users ≡ false
    → IsValid db
    → IsValid (record db { users = update_where (λ u. u.id == model.id) (λ _. model) db.users })
replace-IsValid model db free h =
    users-IsValid db _ h
      (record {
        ids = Unique-update_where (λ u. u.id) _ _ db.users (same_user model) h.users.ids;
        emails =
            Unique-replace (λ u. u.id) (λ u. u.email) model db.users h.users.ids h.users.emails
              (All-mono (others_differ model) _ (All-any _ db.users free));
      })
      (λ id known.
        any-update_where (λ u. u.id == id) _ (λ _. model) db.users
          (λ r same. ap (λ i. i == id) (same_user model r same))
        ∙ known)

flush_changed-IsSound :
    (fields : List Field) (model : UserModel) → Keeps IsSound (flush_changed fields model)
unfolding flush_changed throw stage
flush_changed-IsSound fields model = record {
  at = λ w h. elim (Bool-cases (any nulls_email fields)) [
    | inl e ↦ rw e h
    | inr e ↦ elim (Bool-cases (any nulls_full_name fields)) [
      | inl f ↦ rw (e, f) h
      | inr f ↦ elim (Bool-cases (email_taken model w.working.users)) [
        | inl taken ↦ rw (e, f, taken) h
        | inr free ↦
            rw (e, f, free)
              (record {
                committed = h.committed;
                working = replace-IsValid model w.working free h.working;
              })
      ]
    ]
  ];
}

id_or_uuid4-IsSound : (id : Option Uuid) → Keeps IsSound (id_or_uuid4 id)
unfolding id_or_uuid4
id_or_uuid4-IsSound none = search (keeps_rules, IsSound-stable)
id_or_uuid4-IsSound (some id) = search keeps_rules

pub stage_add-IsSound :
    (name address hash : String) (id : Option Uuid) (jti : Option String)
    → Keeps IsSound (stage_add name address hash id jti)
unfolding stage_add
stage_add-IsSound name address hash id jti =
    search (keeps_rules, IsSound-stable, id_or_uuid4-IsSound, flush_new-IsSound)

change-IsSound :
    (fields : List Field) (found : Option UserModel) → Keeps IsSound (change fields found)
unfolding change
change-IsSound fields none = search keeps_rules
change-IsSound fields (some user) = search (keeps_rules, IsSound-stable, flush_changed-IsSound)

pub stage_update-IsSound :
    (id : Uuid) (fields : List Field) → Keeps IsSound (stage_update id fields)
unfolding stage_update
stage_update-IsSound id fields = search (keeps_rules, IsSound-stable, change-IsSound)

pub stage_deactivate-IsSound : (id : Uuid) → Keeps IsSound (stage_deactivate id)
unfolding stage_deactivate
stage_deactivate-IsSound id = stage_update-IsSound id _

pub add-IsSettled : (name address hash : String) → Keeps IsSettled (add name address hash)
unfolding add
add-IsSettled name address hash =
    Keeps-transaction _ (stage_add-IsSound name address hash none none)

pub register-IsSettled :
    (id : Uuid) (name address hash jti : String) (email_payload : Dict)
    → Keeps IsSettled (register id name address hash jti email_payload)
unfolding register
register-IsSettled id name address hash jti email_payload =
    Keeps-transaction _ (search (keeps_rules, stage_add-IsSound, event-IsSound))

pin_if-stable : {P : World → Type 0} (b : Bool) → IsStable P → Keeps P (pin_if b)
pin_if-stable true s = search keeps_rules
pin_if-stable false s = search keeps_rules

pub get-stable :
    {P : World → Type 0} (id : Uuid) (consistent : Bool) → IsStable P → Keeps P (get id consistent)
unfolding get
get-stable id consistent s = search (keeps_rules, pin_if-stable)

pub get_by_email-stable :
    {P : World → Type 0} (address : String) (consistent : Bool)
    → IsStable P
    → Keeps P (get_by_email address consistent)
unfolding get_by_email
get_by_email-stable address consistent s = search (keeps_rules, pin_if-stable)

pub update-IsSettled : (id : Uuid) (fields : List Field) → Keeps IsSettled (update id fields)
unfolding update
update-IsSettled id fields = Keeps-transaction _ (stage_update-IsSound id fields)

pub delete-IsSettled : (id : Uuid) → Keeps IsSettled (delete id)
unfolding delete
delete-IsSettled id = Keeps-transaction _ (stage_deactivate-IsSound id)

owner_stays :
    (id : Uuid) (users : List UserModel) (s : RefreshSessionModel)
    → (has_user users s.user_id ≡ true) × ((s.user_id == id) ≡ false)
    → has_user (delete_where (λ u. u.id == id) users) s.user_id ≡ true
owner_stays id users s h =
    any-delete_where (λ u. u.id == s.user_id) _ users (λ u same. ground (arith, h.1)) h.0

delete_user-IsValid : (id : Uuid) (db : Db) → IsValid db → IsValid (delete_user id db)
delete_user-IsValid id db h = record {
  users = record {
    ids = Unique-delete_where (λ u. u.id) _ db.users h.users.ids;
    emails = Unique-delete_where (λ u. u.email) _ db.users h.users.emails;
  };
  sessions = record {
    ids = Unique-delete_where (λ s. s.id) _ db.refresh_sessions h.sessions.ids;
    owners =
        All-mono (owner_stays id db.users) _
          (All-kept _ (λ s. s.user_id == id) db.refresh_sessions h.sessions.owners);
    rotations = All-delete_where _ _ db.refresh_sessions h.sessions.rotations;
  };
  tokens = h.tokens;
  event_ids = h.event_ids;
  job_ids = h.job_ids;
}

erase-IsSettled : (id : Uuid) (found : Option UserModel) → Keeps IsSettled (erase id found)
unfolding erase
erase-IsSettled id none = search keeps_rules
erase-IsSettled id (some user) =
    search (keeps_rules, Keeps-transaction, Keeps-stage, delete_user-IsValid)

pub force_delete-IsSettled : (id : Uuid) → Keeps IsSettled (force_delete id)
unfolding force_delete
force_delete-IsSettled id = search (keeps_rules, IsSettled-stable, erase-IsSettled)
