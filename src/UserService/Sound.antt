-- ===== src/UserService/Sound.antt =====
-- user/services/user_service.py: the validity of the database through each method.
use fasti_kit.UserService.{
  Patch, unset, put, CreateUserRequest, UpdateUserRequest, register, hashed_field, updated_or_raise,
  update,
}
use fasti_kit.AuthService.Sound.{hash_password-IsSettled, create_verification_token-IsSettled}
use fasti_kit.Users.Sound.{
  register-IsSettled as stored-IsSettled, update-IsSettled as changed-IsSettled,
}
use fasti_kit.World.Keeps.{Keeps, keeps_rules}
use fasti_kit.World.Valid.{IsSettled, IsSettled-stable}
use fasti_kit.Base.{Option, none, some}
use fasti_kit.Model.{Uuid, User}
use fasti_kit.Env.{Env}

module _ (env : Env) where
  pub register-IsSettled : (request : CreateUserRequest) → Keeps IsSettled (register env request)
  unfolding register
  register-IsSettled request =
      search
        (
          keeps_rules, IsSettled-stable, create_verification_token-IsSettled,
          hash_password-IsSettled, stored-IsSettled,
        )
        depth 9

  hashed_field-IsSettled : (password : Patch) → Keeps IsSettled (hashed_field env password)
  hashed_field-IsSettled (put (some password)) = search (keeps_rules, hash_password-IsSettled)
  hashed_field-IsSettled (put none) = search keeps_rules
  hashed_field-IsSettled unset = search keeps_rules

  updated_or_raise-IsSettled :
      (user_id : Uuid) (user : Option User) → Keeps IsSettled (updated_or_raise env user_id user)
  updated_or_raise-IsSettled user_id none = search keeps_rules
  updated_or_raise-IsSettled user_id (some user) = search keeps_rules

  pub update-IsSettled :
      (user_id : Uuid) (request : UpdateUserRequest) → Keeps IsSettled (update env user_id request)
  unfolding update
  update-IsSettled user_id request =
      search (keeps_rules, hashed_field-IsSettled, changed-IsSettled, updated_or_raise-IsSettled)
