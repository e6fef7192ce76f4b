-- ===== src/Security.antt =====
-- auth/services: password checks (security_service.py) and the two kinds of mailed tokens
-- (email_verification_service.py, password_reset_service.py).
use fasti_kit.Users
use fasti_kit.Base.{
  ℕ, ◌+◌, ◌*◌, ◌/◌, String, ◌<>◌, Bool, true, not, ◌||◌, Option, none, some, if◌then◌else◌,
}
use fasti_kit.Json.{text, arr, nil, cons, Dict, end, field}
use fasti_kit.Model.{User}
use fasti_kit.World.{Action, pure, ◌>>=◌, utc_now, uuid4}
use fasti_kit.Env.{Claims, Env}

abbrev pub seconds : ℕ → ℕ
seconds n = n * 1000000

-- `VERIFY_TOKEN_EXPIRY` and `RESET_TOKEN_EXPIRY`
abbrev pub verify_token_expiry : ℕ
verify_token_expiry = seconds 86400

abbrev pub reset_token_expiry : ℕ
reset_token_expiry = seconds 900

abbrev pub verify_type : String
verify_type = "email_verify"

abbrev pub reset_type : String
reset_type = "password_reset"

module _ (env : Env) where
  unfoldable pub hash_password : String → Action String
  hash_password password = do salt ← uuid4; pure (env.hashpw salt password)

  -- the hash that the password is checked against, whether or not there is a user
  abbrev pub password_hash_of : Option User → String
  password_hash_of none = env.dummy_password_hash
  password_hash_of (some user) = user.password_hash

  abbrev pub admit : Bool → Option User → Option User
  admit password_ok none = none
  admit password_ok (some user) =
      if not password_ok || not user.is_active || not user.is_verified then none else some user

  unfoldable pub authenticate : String → String → Action (Option User)
  authenticate email password = do
    user ← Users.get_by_email email true
    pure (admit (env.checkpw password (password_hash_of user)) user)

  -- the claims and the `jti` of a token that expires after `span`
  abbrev create_token : String → ℕ → String → Action (String × String)
  create_token kind span user_id = do
    now ← utc_now
    id ← uuid4
    let jti = env.uuid_hex id
    pure (
      env.jwt_encode (record {
        sub = user_id;
        type = some kind;
        jti = jti;
        iat = now / 1000000;
        exp = (now + span) / 1000000;
      }),
      jti,
    )

  -- `EmailVerificationService.create_verification_token`
  unfoldable pub create_verification_token : String → Action (String × String)
  create_verification_token user_id = create_token verify_type verify_token_expiry user_id

  -- `PasswordResetService.create_reset_token`
  unfoldable pub create_reset_token : String → Action (String × String)
  create_reset_token user_id = create_token reset_type reset_token_expiry user_id

  abbrev mail : String → String → String → Dict
  mail subject email body =
      field "subject" (text subject)
        (field "recipients" (arr (cons (text email) nil)) (field "body" (text body) end))

  -- `EmailVerificationService.build_email_payload`
  unfoldable pub build_verification_email : String → String → Dict
  build_verification_email email token =
      let link = env.backend_url <> "/api/v1/auth/verify-email?token=" <> token in
      mail "Verify your email" email
        ("<p>Click to verify your account: <a href=\"" <> link <> "\">" <> link <> "</a></p>")

  -- `PasswordResetService.build_email_payload`
  unfoldable pub build_reset_email : String → String → Dict
  build_reset_email email token =
      let link = env.backend_url <> "/api/v1/auth/reset-password?token=" <> token in
      mail "Reset your password" email
        ("<p>Click to reset your password: <a href=\"" <> link <> "\">" <> link <> "</a></p>")

  -- `decode_verification_token` and `decode_reset_token`
  unfoldable pub decode_token : String → Action (Option Claims)
  decode_token token = do now ← utc_now; pure (env.jwt_decode now token)
