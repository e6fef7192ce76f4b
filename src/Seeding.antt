-- ===== src/Seeding.antt =====
-- scripts/seed.py: users for development. The k-th request that the factory builds is a parameter.
pub mod Drawing
pub mod Guarded
use fasti_kit.Users
use fasti_kit.Users.{Field, scopes, is_active, is_verified}
use fasti_kit.Security
use fasti_kit.Base.{
  ℕ, zero, suc, ◌+◌, String, Bool, true, false, not, ◌&&◌, ◌||◌, Option, none, some, List, [], ◌∷◌,
  ltb, if◌then◌else◌, string_eq, nat_eq, ◌==◌,
}
use fasti_kit.Base.Lists.{length}
use fasti_kit.Base.Table.{any}
use fasti_kit.Exceptions.{Kind, conflict, DomainException, Error, domain, Result, ok, err}
use fasti_kit.Model.{Uuid, User}
use fasti_kit.World.{
  Db, World, Action, pure, gets, stage, pin_primary, source, commit_session, ◌>>=◌, ◌>>◌,
}
use fasti_kit.Env.{Env}
use fasti_kit.Safety.{Check, refused, malformed, allowed, ensure_safe_operation}
use fasti_kit.UserService.{CreateUserRequest}

abbrev pub admin_scopes : String
admin_scopes = "admin:read admin:write"

-- How the command ends: with exit code 1, with the error of a malformed URL of the database, with a loop of `_build_unique_user` that is still running, or
-- with the users seeded.
pub data Ending : Type 0 where
  exit_1 malformed_url running seeded : Ending

-- the arguments of the command
pub record Options : Type 0 where
  pub count : ℕ
  pub admin_email : String
  pub admin_password : String
  pub unverified_count : ℕ
  pub reset : Bool
  pub force : Bool

-- `email in used_emails`
abbrev pub is_used : String → List String → Bool
is_used email used_emails = any (λ e. e == email) used_emails

module _ (env : Env) (build : ℕ → CreateUserRequest) where
  -- `_build_unique_user` from the k-th build of the factory on, with the rounds of its loop: the
  -- request, and the number of the next build. `none` stands for a loop that is still running.
  unfoldable pub build_unique_user : ℕ → List String → ℕ → Option (CreateUserRequest × ℕ)
  build_unique_user zero used_emails k = none
  build_unique_user (suc rounds) used_emails k =
      let rest = build_unique_user rounds used_emails (k + 1) in
      if is_used (build k).email used_emails then rest else some (build k, k + 1)

  -- `delete(UserModel)`, with the cascade to `refresh_sessions`
  abbrev pub delete_users : Db → Db
  delete_users db = record db { users = []; refresh_sessions = [] }

  unfoldable pub reset_users : Action Unit
  reset_users = do pin_primary; stage delete_users; commit_session

  abbrev pub reset_if : Bool → Action Unit
  reset_if true = reset_users
  reset_if false = pure tt

  abbrev pub verified_fields : List Field
  verified_fields = is_verified true ∷ is_active true ∷ []

  unfoldable pub add_admin : String → String → Action Unit
  add_admin admin_email admin_password = do
    hash ← Security.hash_password env admin_password
    admin ← Users.add "Seed Admin" admin_email hash
    Users.update admin.id (is_verified true ∷ is_active true ∷ scopes admin_scopes ∷ [])
    pure tt

  abbrev is_conflict : Kind → Bool
  is_conflict conflict = true
  is_conflict k = false

  abbrev skip_conflict : Result (Unit {0}) → Result (Unit {0})
  skip_conflict (err (domain e)) = if is_conflict e.kind then ok tt else err (domain e)
  skip_conflict r = r

  -- `try: add_admin` and `except ConflictError`
  unfoldable pub ensure_admin : String → String → Action Unit
  ensure_admin admin_email admin_password w =
      let (r, w') = add_admin admin_email admin_password w in (skip_conflict r, w')

  abbrev pub verify_if : Bool → User → Action Unit
  verify_if true user = do Users.update user.id verified_fields; pure tt
  verify_if false user = pure tt

  abbrev pub add_request : Bool → CreateUserRequest → Action Unit
  add_request verified request = do
    hash ← Security.hash_password env request.password
    user ← Users.add request.name request.email hash
    verify_if verified user

  -- the emails used so far, and the number of the next build
  abbrev pub Drawn : Type 0
  Drawn = List String × ℕ

  abbrev pub add_next :
      Bool
      → (Drawn → Action (Option Drawn))
      → List String
      → Option (CreateUserRequest × ℕ)
      → Action (Option Drawn)
  add_next verified rest used_emails none = pure none
  add_next verified rest used_emails (some (request, k)) = do
    add_request verified request
    rest (request.email ∷ used_emails, k)

  -- The loops over `range(count)` and `range(unverified_count)`. Each `_build_unique_user` gets one round
  -- more than there are used emails.
  unfoldable pub add_users : Bool → ℕ → Drawn → Action (Option Drawn)
  add_users verified zero drawn = pure (some drawn)
  add_users verified (suc rounds) (used_emails, k) =
      add_next verified (add_users verified rounds) used_emails
        (build_unique_user (suc (length used_emails)) used_emails k)

  abbrev pub ended : Option Drawn → Action Ending
  ended none = pure running
  ended (some drawn) = pure seeded

  abbrev pub add_unverified : Options → Option Drawn → Action Ending
  add_unverified options none = pure running
  add_unverified options (some drawn) = do
    last ← add_users false options.unverified_count drawn
    ended last

  unfoldable pub fill : Options → Action Ending
  fill options = do
    ensure_admin options.admin_email options.admin_password
    drawn ← add_users true options.count (options.admin_email ∷ [], 0)
    add_unverified options drawn

  abbrev pub fill_unless : Bool → Options → Action Ending
  fill_unless true options = pure exit_1
  fill_unless false options = fill options

  -- `_seed`
  unfoldable pub seed_users : Options → Action Ending
  seed_users options = do
    reset_if options.reset
    user_count ← gets (λ w. length (source w).users)
    fill_unless (ltb 0 user_count && not options.reset && not options.force) options

  -- `seed_database` on a session of its own, whose end drops what is not committed
  unfoldable pub seed_database : Options → Action Ending
  seed_database options w =
      let (r, w') = seed_users options w in (r, record w' { working = w'.committed })

  abbrev pub if_allowed : Check → Options → Action Ending
  if_allowed refused options = pure exit_1
  if_allowed malformed options = pure malformed_url
  if_allowed (allowed warning) options = seed_database options

  -- the command
  unfoldable pub seed :
      (String → Option (Option String)) → String → String → Bool → Options → Action Ending
  seed host_of settings_environment settings_url allow_production options =
      if_allowed
        (ensure_safe_operation host_of settings_environment settings_url allow_production none none)
        options
