-- ===== src/Generators/Pyproject.antt =====
-- scripts/_boilerplate.py: `register_pyproject`. `tomllib` with `_pyproject_lists` is a parameter: the
-- lists of a text, or `none` where it does not parse.
use fasti_kit.Text.{split, join, contains}
use fasti_kit.Generators.Fields.{split_once}
use fasti_kit.Generators.Router.{has}
use fasti_kit.Base.{
  String, ◌<>◌, Bool, true, not, ◌&&◌, Option, none, some, List, [], ◌∷◌, ◌++◌, map, if◌then◌else◌,
  string_eq, nat_eq, ◌==◌,
}
use fasti_kit.Base.Table.{any}

-- the parts between a quotation mark and the next one, of a text that was split at the marks
unfoldable pub quoted : List String → List String
quoted (before ∷ value ∷ next ∷ parts) = value ∷ quoted (next ∷ parts)
quoted parts = []

-- `_list_values`
abbrev pub list_values : String → List String
list_values literal = quoted (split literal 34)

pub data Edit : Type 0 where
  next_line found_there : Edit
  replaced : String → Edit

abbrev pub accepts : Option String → List String → Bool
accepts none values = true
accepts (some part) values = any (λ v. contains v part) values

abbrev pub quote : String → String
quote v = "\"" <> v <> "\""

abbrev pub edit_values : String → String → Option String → List String → String → Edit
edit_values key value must_contain values tail =
    if not (accepts must_contain values)
    then next_line
    else if has value values
    then found_there
    else replaced (key <> " = [" <> join ", " (map quote (values ++ value ∷ [])) <> "]" <> tail)

-- the body of a list and what stands behind it in the line
abbrev pub edit_body : String → String → Option String → Option (String × String) → Edit
edit_body key value must_contain none = next_line
edit_body key value must_contain (some (body, tail)) =
    edit_values key value must_contain (list_values body) tail

-- `s` without a prefix
unfoldable pub after_prefix : String → String → Option String
after_prefix String.[] s = some s
after_prefix (String.◌∷◌ c prefix) String.[] = none
after_prefix (String.◌∷◌ c prefix) (String.◌∷◌ d s) =
    let rest = after_prefix prefix s in
    if String.◌∷◌ c String.[] == String.◌∷◌ d String.[] then rest else none

abbrev pub edit_rest : String → String → Option String → Option String → Edit
edit_rest key value must_contain none = next_line
edit_rest key value must_contain (some rest) = edit_body key value must_contain (split_once 93 rest)

-- a match of the pattern in one line
abbrev pub edit_line : String → String → Option String → String → Edit
edit_line key value must_contain line =
    edit_rest key value must_contain (after_prefix (key <> " = [") line)

abbrev pub with_edit : Edit → String → List String → List String → List String
with_edit next_line line lines rest = line ∷ rest
with_edit found_there line lines rest = line ∷ lines
with_edit (replaced line') line lines rest = line' ∷ lines

unfoldable pub add_to_lines : String → String → Option String → List String → List String
add_to_lines key value must_contain [] = []
add_to_lines key value must_contain (line ∷ lines) =
    with_edit (edit_line key value must_contain line) line lines
      (add_to_lines key value must_contain lines)

-- `_add_to_list`
abbrev pub add_to_list : String → String → String → Option String → String
add_to_list content key value must_contain =
    join "\n" (add_to_lines key value must_contain (split content 10))

abbrev pub Target : Type 0
Target = String × String × Option String

-- `_pyproject_targets`
abbrev pub pyproject_targets : String → List Target
pyproject_targets domain =
    ("include", domain <> "*", none)
    ∷ ("known-first-party", domain, none)
    ∷ ("source", domain, none)
    ∷ ("known_first_party", domain, none)
    ∷ ("root_packages", domain, none)
    ∷ ("containers", domain, none)
    ∷ ("source_modules", domain <> ".entities", some ".entities")
    ∷ []

unfoldable pub add_targets : List Target → String → String
add_targets [] content = content
add_targets ((key, value, must_contain) ∷ targets) content =
    add_targets targets (add_to_list content key value must_contain)

-- `value in found` for each target and its list
unfoldable pub all_found : List Target → List (List String) → Bool
all_found ((key, value, must_contain) ∷ targets) (found ∷ lists) =
    has value found && all_found targets lists
all_found targets lists = true

abbrev pub written_if : List Target → String → String → Option (List (List String)) → Option String
written_if targets original content none = none
written_if targets original content (some lists) =
    if not (all_found targets lists)
    then none
    else if content == original
    then none
    else some content

-- what is written, where `none` is a file that is left as it is
unfoldable pub register_pyproject :
    (String → Option (List (List String))) → String → String → Option String
register_pyproject lists_of domain original =
    let content = add_targets (pyproject_targets domain) original in
    written_if (pyproject_targets domain) original content (lists_of content)
