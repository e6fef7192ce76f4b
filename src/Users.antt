-- ===== src/Users.antt =====
-- user/repositories/user_repository.py
pub mod Keeping
pub mod Sound
use fasti_kit.Outbox
use fasti_kit.Base.{
  Bool, true, false, not, Option, none, some, String, List, [], ◌∷◌, ◌++◌, ◌&&◌, ◌==◌, holds,
  is_none, if◌then◌else◌, nat_eq, string_eq,
}
use fasti_kit.Base.Table.{any, find, update_where, delete_where}
use fasti_kit.Exceptions.{conflict_error, integrity_error}
use fasti_kit.Json.{Dict}
use fasti_kit.Model.{Uuid, DateTime, UserModel, User, user_entity}
use fasti_kit.World.{
  Db, Action, pure, raise, throw, gets, ◌>>=◌, ◌>>◌, utc_now, uuid4, pin_primary, source, stage,
  transaction,
}

-- A keyword of `stage_update`. The two columns that a request may set to null without being nullable
-- keep their `Option`.
pub data Field : Type 0 where
  full_name email : Option String → Field
  password_hash scopes : String → Field
  is_active is_verified : Bool → Field
  pending_verification_jti pending_password_reset_jti : Option String → Field

-- `setattr(user, key, value)`; a null in a column that has none is for the flush to refuse.
abbrev pub setattr : Field → UserModel → UserModel
setattr (full_name none) user = user
setattr (full_name (some v)) user = record user { full_name = v }
setattr (email none) user = user
setattr (email (some v)) user = record user { email = v }
setattr (password_hash v) user = record user { password_hash = v }
setattr (scopes v) user = record user { scopes = v }
setattr (is_active v) user = record user { is_active = v }
setattr (is_verified v) user = record user { is_verified = v }
setattr (pending_verification_jti v) user = record user { pending_verification_jti = v }
setattr (pending_password_reset_jti v) user = record user { pending_password_reset_jti = v }

unfoldable pub set_fields : List Field → UserModel → UserModel
set_fields [] user = user
set_fields (f ∷ fs) user = set_fields fs (setattr f user)

same_bool : Bool → Bool → Bool
same_bool true b = b
same_bool false b = not b

same_jti : Option String → Option String → Bool
same_jti none b = is_none b
same_jti (some a) b = holds b a

-- whether the flush finds a net change, and so emits an `UPDATE` with its `onupdate`
unfoldable pub same_columns : UserModel → UserModel → Bool
unfolding same_bool same_jti
same_columns a b =
    a.full_name == b.full_name
    && a.email == b.email
    && a.password_hash == b.password_hash
    && a.scopes == b.scopes
    && same_bool a.is_active b.is_active
    && same_bool a.is_verified b.is_verified
    && same_jti a.pending_verification_jti b.pending_verification_jti
    && same_jti a.pending_password_reset_jti b.pending_password_reset_jti

nulls_email : Field → Bool
nulls_email (email none) = true
nulls_email f = false

nulls_full_name : Field → Bool
nulls_full_name (full_name none) = true
nulls_full_name f = false

-- another row holds the email already
abbrev pub email_taken : UserModel → List UserModel → Bool
email_taken model = any (λ u. u.email == model.email && not (u.id == model.id))

-- `_flush_or_raise(model)`: the primary key comes first, then the unique email.
unfoldable pub flush_new : UserModel → Action Unit
flush_new model w =
    if any (λ u. u.id == model.id) w.working.users
    then throw integrity_error w
    else if any (λ u. u.email == model.email) w.working.users
    then raise (conflict_error "Email already in use") w
    else stage (λ db. record db { users = db.users ++ model ∷ [] }) w

-- `_flush_or_raise()` on a changed row: NOT NULL in the order of the columns, then the unique email. The
-- error is told by the column that it names; its DETAIL, in which a value of the row may read "email" as
-- well, is left out.
unfoldable pub flush_changed : List Field → UserModel → Action Unit
unfolding nulls_email nulls_full_name
flush_changed fields model w =
    if any nulls_email fields
    then raise (conflict_error "Email already in use") w
    else if any nulls_full_name fields
    then throw integrity_error w
    else if email_taken model w.working.users
    then raise (conflict_error "Email already in use") w
    else stage
        (λ db. record db { users = update_where (λ u. u.id == model.id) (λ _. model) db.users }) w

-- the `id or uuid4()` of `stage_add`
unfoldable pub id_or_uuid4 : Option Uuid → Action Uuid
id_or_uuid4 (some id) = pure id
id_or_uuid4 none = uuid4

unfoldable pub stage_add : String → String → String → Option Uuid → Option String → Action User
stage_add name address hash given_id jti = do
  pin_primary
  id ← id_or_uuid4 given_id
  now ← utc_now
  let model : UserModel = record {
    id = id;
    email = address;
    password_hash = hash;
    scopes = "";
    full_name = name;
    is_verified = false;
    pending_verification_jti = jti;
    pending_password_reset_jti = none;
    created_at = now;
    updated_at = now;
    is_active = true;
  }
  flush_new model
  pure (user_entity model)

abbrev pub touched : DateTime → List Field → UserModel → UserModel
touched now fields user =
    let user' = set_fields fields user in
    if same_columns user user' then user' else record user' { updated_at = now }

unfoldable pub change : List Field → Option UserModel → Action (Option User)
change fields none = pure none
change fields (some user) = do
  now ← utc_now
  let user' = touched now fields user
  flush_changed fields user'
  pure (some (user_entity user'))

unfoldable pub stage_update : Uuid → List Field → Action (Option User)
stage_update id fields = do
  pin_primary
  found ← gets (λ w. find (λ u. u.id == id) (source w).users)
  change fields found

unfoldable pub stage_deactivate : Uuid → Action (Option User)
stage_deactivate id = stage_update id (is_active false ∷ [])

unfoldable pub add : String → String → String → Action User
add name address hash = transaction (stage_add name address hash none none)

unfoldable pub register : Uuid → String → String → String → String → Dict → Action User
register id name address hash jti email_payload = transaction do
  user ← stage_add name address hash (some id) (some jti)
  Outbox.stage_add "send_email_task" email_payload
  pure user

abbrev pub pin_if : Bool → Action Unit
pin_if true = pin_primary
pin_if false = pure tt

abbrev pub to_entity : Option UserModel → Option User
to_entity none = none
to_entity (some model) = some (user_entity model)

unfoldable pub get : Uuid → Bool → Action (Option User)
get id consistent = do
  pin_if consistent
  gets (λ w. to_entity (find (λ u. u.id == id) (source w).users))

unfoldable pub get_by_email : String → Bool → Action (Option User)
get_by_email address consistent = do
  pin_if consistent
  gets (λ w. to_entity (find (λ u. u.email == address) (source w).users))

unfoldable pub update : Uuid → List Field → Action (Option User)
update id fields = transaction (stage_update id fields)

unfoldable pub delete : Uuid → Action (Option User)
delete id = transaction (stage_deactivate id)

-- `DELETE` on `users`, with the cascade to `refresh_sessions`
abbrev pub delete_user : Uuid → Db → Db
delete_user id db = record db {
  users = delete_where (λ u. u.id == id) db.users;
  refresh_sessions = delete_where (λ s. s.user_id == id) db.refresh_sessions;
}

unfoldable pub erase : Uuid → Option UserModel → Action (Option User)
erase id none = pure none
erase id (some user) = do transaction (stage (delete_user id)); pure (some (user_entity user))

unfoldable pub force_delete : Uuid → Action (Option User)
force_delete id = do
  pin_primary
  found ← gets (λ w. find (λ u. u.id == id) (source w).users)
  erase id found
