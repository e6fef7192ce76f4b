-- ===== src/Generators/Migration.antt =====
-- scripts/create_migration.py: a migration that Alembic writes from the models, with the guards before it
-- and the warnings after it. Alembic and the files are parameters; the texts that it prints are left out.
pub mod Reviewed
use fasti_kit.Base.{
  String, ◌<>◌, Bool, not, ◌&&◌, Option, none, some, List, [], ◌∷◌, ◌++◌, map, if◌then◌else◌,
  string_eq, ◌==◌,
}
use fasti_kit.Text.{contains}
use fasti_kit.Safety.{Check, refused, malformed, allowed, ensure_safe_operation}

pub data LintWarning : Type 0 where
  no_changes drops_column drops_table not_nullable : LintWarning

abbrev pub warn_if : Bool → LintWarning → List LintWarning
warn_if test warning = if test then warning ∷ [] else []

unfoldable pub lint_migration_file : String → List LintWarning
lint_migration_file content =
    warn_if (not (contains content "op.")) no_changes
    ++ warn_if (contains content "op.drop_column") drops_column
    ++ warn_if (contains content "op.drop_table") drops_table
    ++ warn_if (contains content "nullable=False" && not (contains content "server_default"))
        not_nullable

-- `false` where the source raises
unfoldable pub check_domain_registered : String → String → Bool
check_domain_registered domain manifest_source =
    contains manifest_source ("from " <> domain <> ".models import")

-- what `command.revision` gives: the path of a script or none, a list of them, or an exception
pub data Revision : Type 0 where
  script : Option String → Revision
  scripts : List String → Revision
  revision_raised : Revision

-- whether `core.models` can be imported, `alembic.command`, and the files by their paths
pub record Project : Type 0 where
  pub imports_models : Bool
  pub revision : String → Revision
  pub upgrades : Bool
  pub read_text : String → Option String

-- what the command does and prints, up to an exception
pub data MigrationStep : Type 0 where
  unsafe unregistered not_imported nothing_generated raised : MigrationStep
  revised : String → MigrationStep
  created : String → MigrationStep
  warned : LintWarning → MigrationStep
  upgraded : Bool → MigrationStep

-- the calls of `ensure_safe_operation` and of `_check_domain_registered`, and what follows them
abbrev pub if_safe : Check → List MigrationStep → List MigrationStep
if_safe refused next = unsafe ∷ []
if_safe malformed next = raised ∷ []
if_safe (allowed warning) next = next

abbrev pub if_manifest : String → Option String → List MigrationStep → List MigrationStep
if_manifest domain none next = raised ∷ []
if_manifest domain (some source) next =
    if check_domain_registered domain source then next else unregistered ∷ []

abbrev pub if_registered : Option String → Option String → List MigrationStep → List MigrationStep
if_registered none manifest next = next
if_registered (some domain) manifest next =
    if domain == "" then next else if_manifest domain manifest next

-- `script[0] if script else None`
abbrev pub first_script : List String → Option String
first_script [] = none
first_script (path ∷ paths) = some path

module _ (project : Project) (apply : Bool) where
  abbrev pub lint_and_apply : Option String → List MigrationStep
  lint_and_apply none = raised ∷ []
  lint_and_apply (some content) =
      map warned (lint_migration_file content)
      ++ (if apply then upgraded project.upgrades ∷ [] else [])

  abbrev pub after_script : Option String → List MigrationStep
  after_script none = nothing_generated ∷ []
  after_script (some path) = created path ∷ lint_and_apply (project.read_text path)

  abbrev pub after_revision : Revision → List MigrationStep
  after_revision (script path) = after_script path
  after_revision (scripts paths) = after_script (first_script paths)
  after_revision revision_raised = raised ∷ []

  -- The function and the two texts in front are those of `ensure_safe_operation`.
  unfoldable pub create_migration :
      (String → Option (Option String))
      → String
      → String
      → String
      → Option String
      → Bool
      → List MigrationStep
  create_migration host_of environment url message domain allow_production =
      if_safe (ensure_safe_operation host_of environment url allow_production none none) (
        if_registered domain (project.read_text "core/models.py") (
          if project.imports_models
          then revised message ∷ after_revision (project.revision message)
          else not_imported ∷ []))
