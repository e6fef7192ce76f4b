-- ===== src/Generators/Names.antt =====
-- scripts/_boilerplate.py: the names of domains and entities. `str.lower` is that of the letters that
-- an identifier takes: the capitals A to Z, and the Kelvin sign, whose small letter is "k".
use Prim.Native.Char.{Char, code}
use Prim.Native.String.{char_at}
use fasti_kit.Text.{split, join}
use fasti_kit.Base.{
  ℕ, ◌-◌, String, ◌<>◌, Bool, true, false, not, ◌&&◌, ◌||◌, Option, none, some, List, [], ◌∷◌, map,
  leb, if◌then◌else◌, string_eq, nat_eq, ◌==◌,
}
use fasti_kit.Generators.Router.{has}

abbrev pub is_upper : ℕ → Bool
is_upper c = leb 65 c && leb c 90

abbrev pub is_lower : ℕ → Bool
is_lower c = leb 97 c && leb c 122

abbrev pub is_digit : ℕ → Bool
is_digit c = leb 48 c && leb c 57

-- `name.replace("-", "_").replace(" ", "_")`
unfoldable pub normalized : String → String
normalized String.[] = String.[]
normalized (String.◌∷◌ c s) =
    let rest = normalized s in
    if code c == 45 || code c == 32 then String.◌∷◌ "_" rest else String.◌∷◌ c rest

abbrev pub starts_lower : String → Bool
starts_lower String.[] = false
starts_lower (String.◌∷◌ c s) = is_lower (code c)

-- `_ACRONYM_BOUNDARY.sub("_", s)`, where `after` tells whether a capital stands in front
unfoldable pub acronym_boundaries : Bool → String → String
acronym_boundaries after String.[] = String.[]
acronym_boundaries after (String.◌∷◌ c s) =
    let rest = String.◌∷◌ c (acronym_boundaries (is_upper (code c)) s) in
    if after && is_upper (code c) && starts_lower s then String.◌∷◌ "_" rest else rest

-- `_CAMEL_BOUNDARY.sub("_", s)`, where `after` tells whether a small letter or a digit stands in front
unfoldable pub camel_boundaries : Bool → String → String
camel_boundaries after String.[] = String.[]
camel_boundaries after (String.◌∷◌ c s) =
    let rest = String.◌∷◌ c (camel_boundaries (is_lower (code c) || is_digit (code c)) s) in
    if after && is_upper (code c) then String.◌∷◌ "_" rest else rest

abbrev pub lower_char : Char → Char
lower_char c =
    if is_upper (code c)
    then char_at "abcdefghijklmnopqrstuvwxyz" (code c - 65)
    else if code c == 8490
    then "k"
    else c

unfoldable pub lower : String → String
lower String.[] = String.[]
lower (String.◌∷◌ c s) = String.◌∷◌ (lower_char c) (lower s)

-- `s.lstrip(c)` and `s.rstrip(c)` of one character
unfoldable pub lstrip_of : ℕ → String → String
lstrip_of c String.[] = String.[]
lstrip_of c (String.◌∷◌ d s) =
    let rest = lstrip_of c s in if code d == c then rest else String.◌∷◌ d s

unfoldable pub rstrip_of : ℕ → String → String
rstrip_of c String.[] = String.[]
rstrip_of c (String.◌∷◌ d s) =
    let rest = rstrip_of c s in if code d == c && rest == "" then String.[] else String.◌∷◌ d rest

unfoldable pub to_snake_case : String → String
to_snake_case name =
    rstrip_of 95
      (lstrip_of 95 (lower (camel_boundaries false (acronym_boundaries false (normalized name)))))

abbrev pub upper_char : Char → Char
upper_char c = if is_lower (code c) then char_at "ABCDEFGHIJKLMNOPQRSTUVWXYZ" (code c - 97) else c

-- `part.capitalize()` of a part of a name in snake case
abbrev pub capitalize : String → String
capitalize String.[] = String.[]
capitalize (String.◌∷◌ c s) = String.◌∷◌ (upper_char c) (lower s)

unfoldable pub to_pascal_case : String → String
to_pascal_case name = join "" (map capitalize (split (to_snake_case name) 95))

unfoldable pub ends_in_s : String → Bool
ends_in_s String.[] = false
ends_in_s (String.◌∷◌ c s) = if s == "" then code c == 115 else ends_in_s s

unfoldable pub pluralize : String → String
pluralize word = if ends_in_s word then word else word <> "s"

-- the rest of `_IDENTIFIER`; its `$` stands in front of a last line break too
unfoldable pub is_identifier_tail : String → Bool
is_identifier_tail String.[] = true
is_identifier_tail (String.◌∷◌ c s) =
    ((is_lower (code c) || is_digit (code c) || code c == 95) && is_identifier_tail s)
    || (code c == 10 && s == "")

unfoldable pub is_identifier : String → Bool
is_identifier String.[] = false
is_identifier (String.◌∷◌ c s) = is_lower (code c) && is_identifier_tail s

abbrev pub reserved_domains : List String
reserved_domains = "alembic" ∷ "core" ∷ "docs" ∷ "main" ∷ "scripts" ∷ "tests" ∷ []

-- `validate_domain`, which raises where this is false
unfoldable pub is_domain : String → Bool
is_domain domain = is_identifier domain && not (has domain reserved_domains)

-- `none` is the `ValueError`
unfoldable pub resolve_names : String → String → Option (String × String)
resolve_names domain name =
    if is_domain domain && is_identifier (to_snake_case name)
    then some (to_snake_case name, to_pascal_case name)
    else none
