-- ===== src/UserService.antt =====
-- user/services/user_service.py
pub mod Sound
use fasti_kit.Users
use fasti_kit.Security
use fasti_kit.Users.{Field, full_name, email, password_hash}
use fasti_kit.Base.{String, Option, none, some, List, [], ◌∷◌, ◌++◌}
use fasti_kit.Exceptions.{entity_not_found_error}
use fasti_kit.Model.{Uuid, User}
use fasti_kit.World.{Action, pure, raise, uuid4, ◌>>=◌, ◌>>◌}
use fasti_kit.Env.{Env}

-- user/schemas/user_schema.py
pub record CreateUserRequest : Type 0 where
  pub name : String
  pub email : String
  pub password : String

-- A field of a `PATCH` body: left out, or set, perhaps to null.
pub data Patch : Type 0 where
  unset : Patch
  put : Option String → Patch

pub record UpdateUserRequest : Type 0 where
  pub full_name : Patch
  pub email : Patch
  pub password : Patch

-- `model_dump(exclude_unset=True)` on one field
abbrev set_field : (Option String → Field) → Patch → List Field
set_field make unset = []
set_field make (put v) = make v ∷ []

-- `model_dump(exclude_unset=True, exclude={"password"})`
abbrev pub dumped : UpdateUserRequest → List Field
dumped request = set_field full_name request.full_name ++ set_field email request.email

module _ (env : Env) where
  unfoldable pub register : CreateUserRequest → Action User
  register request = do
    user_id ← uuid4
    (token, jti) ← Security.create_verification_token env (env.uuid_text user_id)
    hash ← Security.hash_password env request.password
    Users.register user_id request.name request.email hash jti
        (Security.build_verification_email env request.email token)

  -- `if data.password is not None`
  abbrev pub hashed_field : Patch → Action (List Field)
  hashed_field (put (some password)) = do
    hash ← Security.hash_password env password
    pure (password_hash hash ∷ [])
  hashed_field password = pure []

  abbrev pub updated_or_raise : Uuid → Option User → Action User
  updated_or_raise user_id none = raise (entity_not_found_error "User" (env.uuid_text user_id))
  updated_or_raise user_id (some user) = pure user

  unfoldable pub update : Uuid → UpdateUserRequest → Action User
  update user_id request = do
    extra ← hashed_field request.password
    result ← Users.update user_id (dumped request ++ extra)
    updated_or_raise user_id result
