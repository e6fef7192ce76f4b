-- ===== src/Generators/Files.antt =====
-- scripts: what the generators do to the files of a project. A path is its text, a file its content;
-- directories and the output are left out.
pub mod Keeping
use fasti_kit.Text.{join}
use fasti_kit.Generators.Fields.{Field}
use fasti_kit.Generators.Imports.{splitlines}
use fasti_kit.Base.{
  String, ◌<>◌, Bool, true, Option, none, some, List, [], ◌∷◌, ◌++◌, is_none, if◌then◌else◌,
  string_eq, ◌==◌,
}

abbrev pub Files : Type 0
Files = String → Option String

-- The paths that a generator returns, or the exception that it raises, with the files after it.
abbrev pub Generator : Type 0
Generator = Files → Option (List String) × Files

abbrev pub put : String → String → Files → Files
put path content files p = if path == p then some content else files p

abbrev pub and_after : Option (List String) → Generator → Generator
and_after none next files = (none, files)
and_after (some paths) next files =
    let (more, files') = next files in
    (elim more [ none ↦ none | some later ↦ some (paths ++ later) ], files')

-- `paths += next`
unfoldable pub then_paths : Generator → Generator → Generator
then_paths first next files = let (paths, files') = first files in and_after paths next files'

unfoldable pub write_new_file : String → String → Files → Files
write_new_file path content files = if is_none (files path) then put path content files else files

abbrev pub init_path : String → String → String
init_path domain layer = domain <> "/" <> layer <> "/__init__.py"

abbrev pub with_names : (String → String → Generator) → Option (String × String) → Generator
with_names generate none files = (none, files)
with_names generate (some (snake, pascal)) files = generate snake pascal files

abbrev pub with_fields : (List Field → Generator) → Option (List Field) → Generator
with_fields generate none files = (none, files)
with_fields generate (some parsed) files = generate parsed files

abbrev pub text_or_empty : Option String → String
text_or_empty none = ""
text_or_empty (some content) = content

abbrev pub dependencies_path : String → String
dependencies_path domain = domain <> "/dependencies.py"

-- the file after an edit, where `none` leaves it as it is
abbrev pub edited : String → Option String → Generator
edited path none files = (some [], files)
edited path (some content) files = (some (path ∷ []), put path content files)

abbrev pub router_text : Option (List String) × Bool → Option String
router_text (some lines, true) = some (join "\n" lines <> "\n")
router_text result = none

abbrev pub lines_of : Option String → Option (List String)
lines_of none = none
lines_of (some content) = some (splitlines content)

abbrev pub domain_layers : List String
domain_layers = "entities" ∷ "models" ∷ "repositories" ∷ "schemas" ∷ "services" ∷ "routes" ∷ []

-- `if not path.exists(): path.touch()` on the `__init__.py` of each layer
unfoldable pub touch_layers : String → List String → Files → Files
touch_layers domain [] files = files
touch_layers domain (layer ∷ layers) files =
    touch_layers domain layers (write_new_file (init_path domain layer) "" files)

abbrev pub packages : String → Generator
packages domain files = (
  some (dependencies_path domain ∷ []),
  write_new_file (dependencies_path domain) "" (touch_layers domain domain_layers files),
)
