-- ===== src/Generators/Init.antt =====
-- scripts/_boilerplate.py: `_module_names` and `update_init`, on the statements that `ast` finds in an
-- `__init__.py`, with `repr` of a text as a parameter.
use fasti_kit.Generators.Router.{has}
use fasti_kit.Text.{join}
use fasti_kit.Base.{
  ℕ, String, ◌<>◌, Option, none, some, List, [], ◌∷◌, ◌++◌, map, if◌then◌else◌, string_eq, nat_eq,
  ◌==◌,
}

pub data Node : Type 0 where
  -- an `ImportFrom` with its level, its module and its names
  import_from : ℕ → Option String → List String → Node
  -- an assignment to `__all__` of a list or a tuple, with its constants that are texts
  assign_all : List String → Node
  other_node : Node

pub record Init : Type 0 where
  pub imports : List (String × List String)
  pub all_names : List String

-- `imports.setdefault(module, [])`, then a change of the list
unfoldable pub at_module :
    String → (List String → List String) → List (String × List String) → List (String × List String)
at_module module_ change [] = (module_, change []) ∷ []
at_module module_ change ((name, names) ∷ imports) =
    let rest = at_module module_ change imports in
    if name == module_ then (name, change names) ∷ imports else (name, names) ∷ rest

abbrev pub with_import : ℕ → Option String → List String → Init → Init
with_import level none names init = init
with_import level (some module_) names init =
    if level == 1
    then if module_ == ""
      then init
      else record init { imports = at_module module_ (λ found. found ++ names) init.imports }
    else init

abbrev pub with_node : Node → Init → Init
with_node (import_from level module_ names) init = with_import level module_ names init
with_node (assign_all names) init = record init { all_names = names }
with_node other_node init = init

unfoldable pub module_names : List Node → Init → Init
module_names [] init = init
module_names (node ∷ nodes) init = module_names nodes (with_node node init)

-- `for symbol in symbols: if symbol not in names: names.append(symbol)`
unfoldable pub add_missing : List String → List String → List String
add_missing [] names = names
add_missing (symbol ∷ symbols) names =
    add_missing symbols (if has symbol names then names else names ++ symbol ∷ [])

unfoldable pub merge : String → List String → Init → Init
merge module_ symbols init = record {
  imports = at_module module_ (add_missing symbols) init.imports;
  all_names = add_missing symbols init.all_names;
}

unfoldable pub import_lines : List (String × List String) → List String
import_lines [] = []
import_lines ((module_, []) ∷ imports) = import_lines imports
import_lines ((module_, name ∷ names) ∷ imports) =
    ("from ." <> module_ <> " import " <> join ", " (name ∷ names)) ∷ import_lines imports

module _ (repr : String → String) where
  abbrev pub all_line : List String → String
  all_line [] = ""
  all_line (name ∷ names) = "\n__all__ = [" <> join ", " (map repr (name ∷ names)) <> "]\n"

  unfoldable pub init_text : Init → String
  init_text init = join "\n" (import_lines init.imports) <> "\n" <> all_line init.all_names

  abbrev pub read : Option (List Node) → Init
  read none = record { imports = []; all_names = [] }
  read (some nodes) = module_names nodes (record { imports = []; all_names = [] })

  -- what is written; `none` is a file that is missing
  unfoldable pub update_init : Option (List Node) → String → List String → String
  update_init file module_ symbols = init_text (merge module_ symbols (read file))
