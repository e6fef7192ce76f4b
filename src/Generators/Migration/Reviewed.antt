-- ===== src/Generators/Migration/Reviewed.antt =====
-- scripts/create_migration.py: what stands before a revision, and before an upgrade.
use fasti_kit.Base.{
  String, ◌<>◌, Bool, true, false, not, ◌&&◌, ◌||◌, Option, none, some, List, [], ◌∷◌, ◌++◌, map,
  ◌≡◌, refl, ap, ◌∙◌, arith, if◌then◌else◌, string_eq, ◌==◌,
}
use fasti_kit.Base.Table.{any}
use fasti_kit.Text.{contains}
use fasti_kit.Safety.{Check, refused, malformed, allowed, warn_on, ensure_safe_operation}
use fasti_kit.Generators.Migration.{
  LintWarning, drops_column, drops_table, lint_migration_file, check_domain_registered, Revision,
  script, scripts, revision_raised, Project, MigrationStep, unsafe, unregistered, not_imported,
  nothing_generated, raised, revised, created, warned, upgraded, if_safe, if_registered,
  lint_and_apply, after_revision, create_migration,
}

abbrev is_allowed : Check → Bool
is_allowed refused = false
is_allowed malformed = false
is_allowed (allowed warning) = true

abbrev pub is_revision : MigrationStep → Bool
is_revision (revised message) = true
is_revision _ = false

abbrev pub is_upgrade : MigrationStep → Bool
is_upgrade (upgraded succeeds) = true
is_upgrade _ = false

-- a warning that a column or a table is dropped
abbrev pub warns_of : Bool → MigrationStep → Bool
warns_of table (warned drops_column) = not table
warns_of table (warned drops_table) = table
warns_of table _ = false

abbrev pub drop_of : Bool → String
drop_of table = if table then "op.drop_table" else "op.drop_column"

-- the path of the script that was made, and its text
abbrev pub path_of : Revision → Option String
path_of (script path) = path
path_of (scripts []) = none
path_of (scripts (path ∷ paths)) = some path
path_of revision_raised = none

abbrev pub text_at : (String → Option String) → Option String → Option String
text_at read none = none
text_at read (some path) = read path

abbrev pub is_read : Option String → Bool
is_read none = false
is_read (some content) = true

abbrev pub mentions : String → Option String → Bool
mentions part none = false
mentions part (some content) = contains content part

abbrev pub is_registered_in : Option String → Option String → Bool
is_registered_in manifest none = true
is_registered_in none (some domain) = domain == ""
is_registered_in (some source) (some domain) =
    domain == "" || contains source ("from " <> domain <> ".models import")

-- whether `make_url` can read the URL of the database
abbrev pub is_url : Option (Option String) → Bool
is_url none = false
is_url (some host) = true

-- what a revision needs
abbrev pub may_revise : Project → String → Option (Option String) → Option String → Bool → Bool
may_revise project environment url_host domain allow_production =
    ((not (environment == "production") || allow_production) && is_url url_host)
    && is_registered_in (project.read_text "core/models.py") domain
    && project.imports_models

-- a test that only the steps after the guards can pass
record IsLate (test : MigrationStep → Bool) : Type 0 where
  at_unsafe : test unsafe ≡ false
  at_unregistered : test unregistered ≡ false
  at_not_imported : test not_imported ≡ false
  at_nothing : test nothing_generated ≡ false
  at_raised : test raised ≡ false

revision-IsLate : IsLate is_revision
revision-IsLate = record {
  at_unsafe = refl;
  at_unregistered = refl;
  at_not_imported = refl;
  at_nothing = refl;
  at_raised = refl;
}

upgrade-IsLate : IsLate is_upgrade
upgrade-IsLate = record {
  at_unsafe = refl;
  at_unregistered = refl;
  at_not_imported = refl;
  at_nothing = refl;
  at_raised = refl;
}

warns-IsLate : (table : Bool) → IsLate (warns_of table)
warns-IsLate table = record {
  at_unsafe = refl;
  at_unregistered = refl;
  at_not_imported = refl;
  at_nothing = refl;
  at_raised = refl;
}

warn_allows :
    (environment : String) (url_host : Option (Option String))
    → is_allowed (warn_on environment url_host) ≡ is_url url_host
warn_allows environment none = refl
warn_allows environment (some host) = ground arith

check_allows :
    (host_of : String → Option (Option String)) (environment url : String) (allow_production : Bool)
    → is_allowed (ensure_safe_operation host_of environment url allow_production none none)
      ≡ ((not (environment == "production") || allow_production) && is_url (host_of url))
unfolding ensure_safe_operation
check_allows host_of environment url allow_production =
    let warned_on = warn_allows environment (host_of url) in ground (arith, warned_on)

module _ (project : Project) (apply : Bool) (test : MigrationStep → Bool) (late : IsLate test) where
  any-if_safe :
      (check : Check) (next : List MigrationStep)
      → any test (if_safe check next) ≡ (is_allowed check && any test next)
  unfolding any
  any-if_safe refused next = rw late.at_unsafe refl
  any-if_safe malformed next = rw late.at_raised refl
  any-if_safe (allowed warning) next = refl

  any-if_registered :
      (domain manifest : Option String) (next : List MigrationStep)
      → any test (if_registered domain manifest next)
        ≡ (is_registered_in manifest domain && any test next)
  unfolding any check_domain_registered
  any-if_registered none manifest next = refl
  any-if_registered (some domain) none next = let off = late.at_raised in ground (arith, off)
  any-if_registered (some domain) (some source) next =
      let off = late.at_unregistered in ground (arith, off)

  if_imports_any :
      (imports : Bool) (next : List MigrationStep)
      → any test (if imports then next else not_imported ∷ []) ≡ (imports && any test next)
  unfolding any
  if_imports_any true next = refl
  if_imports_any false next = rw late.at_not_imported refl

  guarded_any :
      (host_of : String → Option (Option String)) (environment url message : String)
      → (domain : Option String) (allow_production : Bool)
      → any test
          (create_migration project apply host_of environment url message domain allow_production)
        ≡ (may_revise project environment (host_of url) domain allow_production
            && any test (revised message ∷ after_revision project apply (project.revision message)))
  unfolding create_migration
  guarded_any host_of environment url message domain allow_production =
      let after = revised message ∷ after_revision project apply (project.revision message) in
      let rest = if project.imports_models then after else not_imported ∷ [] in
      let manifest = project.read_text "core/models.py" in
      let check = ensure_safe_operation host_of environment url allow_production none none in
      let safe = any-if_safe check (if_registered domain manifest rest) in
      let registered = any-if_registered domain manifest rest in
      let imported = if_imports_any project.imports_models after in
      let allows = check_allows host_of environment url allow_production in
      ground (arith, safe, registered, imported, allows)

-- no test of the warnings in front of the last steps is met
no_upgrade_warned :
    (warnings : List LintWarning) (rest : List MigrationStep)
    → any is_upgrade (map warned warnings ++ rest) ≡ any is_upgrade rest
unfolding any
no_upgrade_warned [] rest = refl
no_upgrade_warned (w ∷ ws) rest = no_upgrade_warned ws rest

module _ (project : Project) (apply : Bool) where
  read_upgrades :
      (content : Option String)
      → any is_upgrade (lint_and_apply project apply content) ≡ (apply && is_read content)
  unfolding any
  read_upgrades none = ground arith
  read_upgrades (some content) =
      rw (no_upgrade_warned (lint_migration_file content) _) (ground arith)

  read_warns :
      (table : Bool) (content : Option String)
      → any (warns_of table) (lint_and_apply project apply content)
        ≡ mentions (drop_of table) content
  unfolding any lint_migration_file
  read_warns true none = refl
  read_warns false none = refl
  read_warns true (some content) = ground arith
  read_warns false (some content) = ground arith

  -- a test of the steps after a script, from the test of what follows its text
  of_script :
      (test : MigrationStep → Bool) (of_text : Option String → Bool)
      → ((path : String) → test (created path) ≡ false)
      → IsLate test
      → of_text none ≡ false
      → ((content : Option String)
          → any test (lint_and_apply project apply content) ≡ of_text content)
      → (r : Revision)
      → any test (after_revision project apply r) ≡ of_text (text_at project.read_text (path_of r))
  unfolding any
  of_script test of_text early late absent reads (script none) = rw (late.at_nothing, absent) refl
  of_script test of_text early late absent reads (script (some path)) =
      rw (early path) (reads (project.read_text path))
  of_script test of_text early late absent reads (scripts []) = rw (late.at_nothing, absent) refl
  of_script test of_text early late absent reads (scripts (path ∷ paths)) =
      rw (early path) (reads (project.read_text path))
  of_script test of_text early late absent reads revision_raised = rw (late.at_raised, absent) refl

  module _ (host_of : String → Option (Option String)) (environment url message : String)
      (domain : Option String) (allow_production : Bool) where
    abbrev steps : List MigrationStep
    steps = create_migration project apply host_of environment url message domain allow_production

    -- the text of the script that the revision made
    abbrev text : Option String
    text = text_at project.read_text (path_of (project.revision message))

    abbrev ready : Bool
    ready = may_revise project environment (host_of url) domain allow_production

    guarded :
        (test : MigrationStep → Bool)
        → IsLate test
        → any test steps ≡ (
            ready
            && any test (revised message ∷ after_revision project apply (project.revision message)))
    guarded test late =
        guarded_any project apply test late host_of environment url message domain allow_production

    warns : (table : Bool) → any (warns_of table) steps ≡ (ready && mentions (drop_of table) text)
    unfolding any
    warns table =
        guarded (warns_of table) (warns-IsLate table)
        ∙ ap (λ b. ready && b)
            (of_script (warns_of table) (mentions (drop_of table)) (λ path. refl)
              (warns-IsLate table) refl (read_warns table) (project.revision message))

    -- `create_migration` asks for a revision exactly if the environment is not production or
    -- `--allow-production` is given, the URL of the database can be read, the domain, if one is named, is imported by core/models.py, and
    -- core/models.py can be imported. It upgrades exactly if it asked for a revision, `--apply` is given
    -- and there is a script that can be read; and it warns of a dropped table, and of a dropped column,
    -- exactly if the script it asked for has the operation in its text.
    pub create_migration_guards :
        (any is_revision steps ≡ ready)
        × (any is_upgrade steps ≡ (ready && (apply && is_read text)))
        × (any (warns_of true) steps ≡ (ready && mentions "op.drop_table" text))
        × (any (warns_of false) steps ≡ (ready && mentions "op.drop_column" text))
    unfolding any
    create_migration_guards =
        let asked = guarded is_revision revision-IsLate in
        (
          ground (arith, asked),
          guarded is_upgrade upgrade-IsLate
              ∙ ap (λ b. ready && b)
                  (of_script is_upgrade (λ c. apply && is_read c) (λ path. refl) upgrade-IsLate
                    (ground arith) read_upgrades (project.revision message)),
          warns true,
          warns false,
        )
