-- ===== src/Seeding/Guarded.antt =====
-- scripts/seed.py: the users that were there, after the command.
use fasti_kit.Base.{
  ℕ, zero, suc, String, Bool, true, false, not, ◌&&◌, ◌||◌, Option, none, some, List, [], ◌∷◌, ◌++◌,
  ◌≡◌, refl, sym, ◌∙◌, ap, subst, inl, inr, arith, Bool-cases, string_eq, nat_eq, ◌==◌,
}
use fasti_kit.Base.Lists.{length}
use fasti_kit.Base.Table.{update_where}
use fasti_kit.Base.Table.Queries.{any-append, any-update_where}
use fasti_kit.Model.{Uuid, User, UserModel}
use fasti_kit.World.{Db, World, Action, pure}
use fasti_kit.World.Both.{Both, Both-stable}
use fasti_kit.World.Keeps.{Keeps, Keeps-bind, Keeps-gets, keeps_rules}
use fasti_kit.World.Valid.{has_user}
use fasti_kit.Env.{Env}
use fasti_kit.Users.Keeping.{add-Both, update-Both}
use fasti_kit.Security.{hash_password}
use fasti_kit.Safety.{Check, refused, malformed, allowed, ensure_safe_operation}
use fasti_kit.UserService.{CreateUserRequest}
use fasti_kit.Seeding.{
  Options, Drawn, add_admin, ensure_admin, verify_if, add_request, add_next, add_users,
  build_unique_user, ended, add_unverified, fill, fill_unless, reset_if, seed_users, seed_database,
  if_allowed, seed,
}

-- every user of a list is there
abbrev Holds : List UserModel → Db → Type 0
Holds users db = (id : Uuid) → has_user users id ≡ true → has_user db.users id ≡ true

module _ (old : List UserModel) where
  insert-Holds :
      (model : UserModel) (db : Db)
      → Holds old db
      → Holds old (record db { users = db.users ++ model ∷ [] })
  insert-Holds model db h id known = any-append _ db.users model (h id known)

  same_user : (model r : UserModel) → (r.id == model.id) ≡ true → model.id ≡ r.id
  same_user model r h = ground arith

  replace-Holds :
      (model : UserModel) (db : Db)
      → Holds old db
      → Holds old (record db { users = update_where (λ u. u.id == model.id) (λ _. model) db.users })
  replace-Holds model db h id known =
      any-update_where (λ u. u.id == id) _ (λ _. model) db.users
        (λ r same. ap (λ i. i == id) (same_user model r same))
      ∙ h id known

  abbrev Keeping : {A : Type 0} → Action A → Type 0
  Keeping m = Keeps (Both (Holds old)) m

  module _ (env : Env) (build : ℕ → CreateUserRequest) where
    hash-Keeping : (password : String) → Keeping (hash_password env password)
    unfolding hash_password
    hash-Keeping password = search (keeps_rules, Both-stable)

    ruleset seeding_rules =
        (keeps_rules, Both-stable, hash-Keeping, add-Both, update-Both, insert-Holds, replace-Holds)

    admin-Keeping : (email password : String) → Keeping (add_admin env build email password)
    unfolding add_admin
    admin-Keeping email password = search seeding_rules depth 9

    ensure_admin-Keeping :
        (email password : String) → Keeping (ensure_admin env build email password)
    unfolding ensure_admin
    ensure_admin-Keeping email password = record {
      at = λ w h. (admin-Keeping email password).at w h;
    }

    verify_if-Keeping :
        (verified : Bool) (user : User) → Keeping (verify_if env build verified user)
    verify_if-Keeping true user = search seeding_rules depth 9
    verify_if-Keeping false user = search keeps_rules

    add_request-Keeping :
        (verified : Bool) (request : CreateUserRequest)
        → Keeping (add_request env build verified request)
    add_request-Keeping verified request = search (seeding_rules, verify_if-Keeping) depth 9

    add_next-Keeping :
        (verified : Bool) (rest : Drawn env build → Action (Option (Drawn env build)))
        (used_emails : List String) (found : Option (CreateUserRequest × ℕ))
        → ((drawn : Drawn env build) → Keeping (rest drawn))
        → Keeping (add_next env build verified rest used_emails found)
    add_next-Keeping verified rest used_emails none keep = search keeps_rules
    add_next-Keeping verified rest used_emails (some (request, k)) keep =
        search (keeps_rules, add_request-Keeping, keep)

    add_users-Keeping :
        (verified : Bool) (rounds : ℕ) (drawn : Drawn env build)
        → Keeping (add_users env build verified rounds drawn)
    unfolding add_users
    add_users-Keeping verified zero drawn = search keeps_rules
    add_users-Keeping verified (suc rounds) (used_emails, k) =
        add_next-Keeping verified (add_users env build verified rounds) used_emails
          (build_unique_user env build (suc (length used_emails)) used_emails k)
          (add_users-Keeping verified rounds)

    ended-Keeping : (last : Option (Drawn env build)) → Keeping (ended env build last)
    ended-Keeping none = search keeps_rules
    ended-Keeping (some drawn) = search keeps_rules

    add_unverified-Keeping :
        (options : Options) (drawn : Option (Drawn env build))
        → Keeping (add_unverified env build options drawn)
    add_unverified-Keeping options none = search keeps_rules
    add_unverified-Keeping options (some drawn) =
        search (keeps_rules, add_users-Keeping, ended-Keeping)

    fill-Keeping : (options : Options) → Keeping (fill env build options)
    unfolding fill
    fill-Keeping options =
        search (keeps_rules, ensure_admin-Keeping, add_users-Keeping, add_unverified-Keeping)

    fill_unless-Keeping :
        (test : Bool) (options : Options) → Keeping (fill_unless env build test options)
    fill_unless-Keeping true options = search keeps_rules
    fill_unless-Keeping false options = fill-Keeping options

    not_reset : (reset : Bool) → reset ≡ false → Keeping (reset_if env build reset)
    not_reset false h = search keeps_rules
    not_reset true h = cc

    seed_users-Keeping :
        (options : Options) → options.reset ≡ false → Keeping (seed_users env build options)
    unfolding seed_users
    seed_users-Keeping options h =
        Keeps-bind _ _ (not_reset options.reset h)
          (λ _. Keeps-bind _ _ (Keeps-gets _) (λ user_count. fill_unless-Keeping _ options))

    database-Keeping :
        (options : Options) → options.reset ≡ false → Keeping (seed_database env build options)
    unfolding seed_database
    database-Keeping options h = record {
      at = λ w before.
          let after = (seed_users-Keeping options h).at w before in
          record { committed = after.committed; working = after.committed };
    }

    checked-Keeping :
        (check : Check) (options : Options)
        → options.reset ≡ false
        → Keeping (if_allowed env build check options)
    checked-Keeping refused options h = search keeps_rules
    checked-Keeping malformed options h = search keeps_rules
    checked-Keeping (allowed warning) options h = database-Keeping options h

-- the guards of the command: `--reset` is given, and the environment is not production or
-- `--allow-production` is given
abbrev pub may_reset : String → Bool → Options → Bool
may_reset environment allow_production options =
    options.reset && (not (environment == "production") || allow_production)

module _ (env : Env) (build : ℕ → CreateUserRequest) (host_of : String → Option (Option String))
    (environment url : String) (allow_production : Bool) (options : Options) where
  in_production :
      (environment == "production") ≡ true
      → allow_production ≡ false
      → ensure_safe_operation host_of environment url allow_production none none ≡ refused
  unfolding ensure_safe_operation
  in_production here not_allowed = rw (here, not_allowed) refl

  guard_closed :
      options.reset ≡ true
      → may_reset environment allow_production options ≡ false
      → ((environment == "production") ≡ true) × (allow_production ≡ false)
  guard_closed reset guarded = ground arith

  -- Whatever the options, the database and the requests that are built, and whether the command ends
  -- or raises: unless it is told to reset, and the environment is not production or
  -- `--allow-production` is given, every user that was committed before is committed after it.
  pub seed_keeps_users :
      (w : World)
      → w.working ≡ w.committed
      → may_reset environment allow_production options ≡ false
      → (id : Uuid) → has_user w.committed.users id ≡ true
      → has_user
          (seed env build host_of environment url allow_production options w).1.committed.users
          id
        ≡ true
  unfolding seed pure
  seed_keeps_users w settled guarded id known = elim (Bool-cases options.reset) [
    | inr no_reset ↦
        ((checked-Keeping w.committed.users env build
              (ensure_safe_operation host_of environment url allow_production none none) options
              no_reset).at
            w
            (record {
              committed = λ i k. k;
              working = subst (Holds w.committed.users) (sym settled) (λ i k. k);
            })).committed
          id known
    | inl reset ↦
        let forbidden = guard_closed reset guarded in
        rw (in_production forbidden.0 forbidden.1) known
  ]
