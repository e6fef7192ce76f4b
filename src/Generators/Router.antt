-- ===== src/Generators/Router.antt =====
-- scripts/_boilerplate.py: `register_router`, on the lines of core/api_versions.py.
use fasti_kit.Text.{starts_with}
use fasti_kit.Base.{
  ℕ, ◌+◌, ◌-◌, String, ◌<>◌, Bool, true, false, not, ◌&&◌, ◌||◌, Option, none, some, List, [], ◌∷◌,
  if◌then◌else◌, string_eq, nat_eq, ◌==◌,
}
use fasti_kit.Base.Lists.{length}
use fasti_kit.Base.Table.{any}

abbrev pub import_line : String → String → String
import_line domain router_var = "from " <> domain <> ".routes import " <> router_var

abbrev pub include_line : String → String
include_line router_var = "v1_router.include_router(" <> router_var <> ")"

abbrev pub is_import : String → Bool
is_import line = starts_with line "from " || starts_with line "import "

abbrev pub is_include : String → Bool
is_include line = starts_with line "v1_router.include_router("

abbrev pub is_router : String → Bool
is_router line = starts_with line "v1_router ="

-- `line in lines`
abbrev pub has : String → List String → Bool
has line lines = any (λ l. l == line) lines

abbrev pub shifted : Option ℕ → Bool → Option ℕ
shifted (some i) here = some (i + 1)
shifted none true = some 0
shifted none false = none

-- the last of the indices whose line passes the test
unfoldable pub last_index : (String → Bool) → List String → Option ℕ
last_index p [] = none
last_index p (line ∷ lines) = shifted (last_index p lines) (p line)

-- `lines.insert(at, line)`
unfoldable pub insert : ℕ → String → List String → List String
insert at line [] = line ∷ []
insert at line (l ∷ lines) =
    let rest = insert (at - 1) line lines in if at == 0 then line ∷ l ∷ lines else l ∷ rest

abbrev pub include_place : Option ℕ → List String → ℕ
include_place (some i) lines = i + 1
include_place none lines = length lines

unfoldable pub add_include : String → List String → List String
add_include line lines =
    if has line lines
    then lines
    else insert (include_place (last_index is_include lines) lines) line lines

unfoldable pub add_import : ℕ → String → List String → List String
add_import at line lines = if has line lines then lines else insert at line lines

-- the lines that are written, and whether they were; the index of the last import is that of the
-- lines as they were read
abbrev pub wire : String → String → Option ℕ → List String → List String × Bool
wire imported included none lines = (lines, false)
wire imported included (some i) lines =
    if not (any is_router lines)
    then (lines, false)
    else (add_import (i + 1) imported (add_include included lines), true)

unfoldable pub register_lines : String → String → List String → List String × Bool
register_lines imported included lines =
    if has imported lines && has included lines
    then (lines, false)
    else wire imported included (last_index is_import lines) lines

abbrev pub written : List String × Bool → Option (List String) × Bool
written (lines, wired) = (some lines, wired)

-- `none` where the file is missing
unfoldable pub register_router :
    String → String → Option (List String) → Option (List String) × Bool
register_router domain router_var none = (none, false)
register_router domain router_var (some lines) =
    written (register_lines (import_line domain router_var) (include_line router_var) lines)
