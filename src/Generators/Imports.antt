-- ===== src/Generators/Imports.antt =====
-- scripts/_boilerplate.py: `merge_imports` and `register_model`, with `ast.parse` as a parameter.
use fasti_kit.Text.{split_by, join, replace}
use fasti_kit.Generators.Names.{lstrip_of, rstrip_of}
use fasti_kit.Generators.Router.{has}
use fasti_kit.Base.{
  ℕ, zero, suc, String, ◌<>◌, Bool, true, false, ◌&&◌, ◌||◌, Option, none, some, List, [], ◌∷◌,
  ◌++◌, map, if◌then◌else◌, string_eq, nat_eq, ◌==◌,
}
use fasti_kit.Base.Lists.{take}
use fasti_kit.Base.Table.{any}

-- A statement of a module, with the line it ends in: an `ImportFrom` with its module and its names, an
-- `Import` with its names, an expression that is a constant, or another.
pub data Statement : Type 0 where
  from_import : Option String → List String → ℕ → Statement
  plain_import : List String → ℕ → Statement
  constant : ℕ → Statement
  other : Statement

abbrev pub same_module : Option String → Option String → Bool
same_module none none = true
same_module (some a) (some b) = a == b
same_module a b = false

abbrev pub Name : Type 0
Name = Option String × String

abbrev pub same_import : Name → Name → Bool
same_import (module_, name) (other_module, other_name) =
    same_module module_ other_module && name == other_name

-- `_imported`
unfoldable pub imported : List Statement → List Name
imported [] = []
imported (from_import module_ names end_ ∷ tree) =
    map (λ name. (module_, name)) names ++ imported tree
imported (plain_import names end_ ∷ tree) = map (λ name. (none, name)) names ++ imported tree
imported (constant end_ ∷ tree) = imported tree
imported (other ∷ tree) = imported tree

-- `names <= present`
unfoldable pub is_subset : List Name → List Name → Bool
is_subset [] present = true
is_subset (name ∷ names) present = any (same_import name) present && is_subset names present

-- the line that the last import ends in
unfoldable pub last_import : List Statement → Option ℕ
last_import [] = none
last_import (from_import module_ names end_ ∷ tree) = elim (last_import tree) [
  | none ↦ some end_
  | some later ↦ some later
]
last_import (plain_import names end_ ∷ tree) = elim (last_import tree) [
  | none ↦ some end_
  | some later ↦ some later
]
last_import (constant end_ ∷ tree) = last_import tree
last_import (other ∷ tree) = last_import tree

abbrev pub is_break : ℕ → Bool
is_break c =
    c == 10
    || c == 11
    || c == 12
    || c == 13
    || c == 28
    || c == 29
    || c == 30
    || c == 133
    || c == 8232
    || c == 8233

unfoldable pub without_last_empty : List String → List String
without_last_empty [] = []
without_last_empty (part ∷ []) = if part == "" then [] else part ∷ []
without_last_empty (part ∷ next ∷ parts) = part ∷ without_last_empty (next ∷ parts)

-- `s.splitlines()`
unfoldable pub splitlines : String → List String
splitlines s = without_last_empty (split_by is_break (replace "\r\n" 2 "\n" s))

unfoldable pub drop_lines : ℕ → List String → List String
drop_lines zero lines = lines
drop_lines (suc n) [] = []
drop_lines (suc n) (line ∷ lines) = drop_lines n lines

-- the place of the missing lines, and the lines
abbrev pub place_after : Option ℕ → List Statement → List String → ℕ × List String
place_after (some end_) tree missing = (end_, missing)
place_after none (constant end_ ∷ tree) missing = (end_, "" ∷ missing)
place_after none tree missing = (0, missing)

abbrev pub insert_lines : ℕ × List String → List String → String
insert_lines (at, missing) lines =
    rstrip_of 10 (lstrip_of 10 (join "\n" (take at lines ++ missing ++ drop_lines at lines)))
    <> "\n"

abbrev pub insert_missing : String → List Statement → List String → String
insert_missing content tree [] = content
insert_missing content tree (line ∷ missing) =
    insert_lines (place_after (last_import tree) tree (line ∷ missing)) (splitlines content)

-- `parse` is `ast.parse`, where `none` is a `SyntaxError`.
module _ (parse : String → Option (List Statement)) where
  abbrev pub if_missing :
      String → List Name → Option (List Statement) → Option (List String) → Option (List String)
  if_missing line present (some tree) (some missing) =
      if is_subset (imported tree) present then some missing else some (line ∷ missing)
  if_missing line present tree missing = none

  unfoldable pub missing_lines : List Name → List String → Option (List String)
  missing_lines present [] = some []
  missing_lines present (line ∷ lines) =
      if_missing line present (parse line) (missing_lines present lines)

  abbrev pub insert_in : String → List Statement → Option (List String) → Option String
  insert_in content tree none = none
  insert_in content tree (some missing) = some (insert_missing content tree missing)

  abbrev pub merge_in : String → List String → Option (List Statement) → Option String
  merge_in content imports none = none
  merge_in content imports (some tree) =
      insert_in content tree (missing_lines (imported tree) imports)

  unfoldable pub merge_imports : String → List String → Option String
  merge_imports content imports = merge_in content imports (parse content)

-- an import of the model from the models of its domain
abbrev pub is_registered : String → String → Statement → Bool
is_registered module_ model_class (from_import (some m) names end_) =
    m == module_ && has model_class names
is_registered module_ model_class statement = false

-- the models manifest after `register_model`, where `none` is a file that is left as it is
unfoldable pub register_model : String → String → String → List Statement → Option String
register_model domain model_class content tree =
    if any (is_registered (domain <> ".models") model_class) tree
    then none
    else some (
        rstrip_of 10 content
        <> "\nfrom "
        <> domain
        <> ".models import "
        <> model_class
        <> "  # noqa: F401\n")
