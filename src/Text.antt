-- ===== src/Text.antt =====
-- Python's methods of `str` that the program calls, on code points. The white space is that of
-- `str.isspace`.
pub mod Splitting
pub mod Words
pub mod Containing
use Prim.Native.Char.{Char, code}
use fasti_kit.Base.{
  ℕ, String, ◌<>◌, Bool, true, false, ◌&&◌, ◌||◌, List, [], ◌∷◌, leb, ltb, ◌-◌, if◌then◌else◌,
  string_eq, nat_eq, ◌==◌,
}

abbrev pub is_space : ℕ → Bool
is_space c =
    (leb 9 c && leb c 13)
    || (leb 28 c && leb c 32)
    || c == 133
    || c == 160
    || c == 5760
    || (leb 8192 c && leb c 8202)
    || c == 8232
    || c == 8233
    || c == 8239
    || c == 8287
    || c == 12288

-- a character in front of the first part
abbrev pub onto_first : Char → List String → List String
onto_first c [] = String.◌∷◌ c String.[] ∷ []
onto_first c (part ∷ parts) = String.◌∷◌ c part ∷ parts

-- the parts between the characters that pass the test
unfoldable pub split_by : (ℕ → Bool) → String → List String
split_by is_sep String.[] = String.[] ∷ []
split_by is_sep (String.◌∷◌ c s) =
    let rest = split_by is_sep s in if is_sep (code c) then String.[] ∷ rest else onto_first c rest

-- `s.split(sep)` at one character
abbrev pub split : String → ℕ → List String
split s sep = split_by (λ c. c == sep) s

unfoldable pub nonempty : List String → List String
nonempty [] = []
nonempty (part ∷ parts) = let rest = nonempty parts in if part == "" then rest else part ∷ rest

-- `s.split()`
unfoldable pub words : String → List String
words s = nonempty (split_by is_space s)

unfoldable pub lstrip : String → String
lstrip String.[] = String.[]
lstrip (String.◌∷◌ c s) = let rest = lstrip s in if is_space (code c) then rest else String.◌∷◌ c s

unfoldable pub rstrip : String → String
rstrip String.[] = String.[]
rstrip (String.◌∷◌ c s) =
    let rest = rstrip s in if is_space (code c) && rest == "" then String.[] else String.◌∷◌ c rest

-- `s.strip()`
abbrev pub strip : String → String
strip s = rstrip (lstrip s)

-- `sep.join(parts)`
unfoldable pub join : String → List String → String
join sep [] = ""
join sep (part ∷ []) = part
join sep (part ∷ next ∷ parts) = part <> sep <> join sep (next ∷ parts)

unfoldable pub starts_with : String → String → Bool
starts_with s String.[] = true
starts_with String.[] (String.◌∷◌ c prefix) = false
starts_with (String.◌∷◌ d s) (String.◌∷◌ c prefix) = code d == code c && starts_with s prefix

-- `part in s`
unfoldable pub contains : String → String → Bool
contains String.[] part = part == ""
contains (String.◌∷◌ c s) part = starts_with (String.◌∷◌ c s) part || contains s part

-- `s.replace(old, new)` for an `old` of `n` characters, not empty; `skip` characters of the text are
-- part of an `old` that was replaced.
unfoldable pub replace_from : String → ℕ → String → ℕ → String → String
replace_from old n new skip String.[] = String.[]
replace_from old n new skip (String.◌∷◌ c s) =
    if ltb 0 skip
    then replace_from old n new (skip - 1) s
    else if starts_with (String.◌∷◌ c s) old
    then new <> replace_from old n new (n - 1) s
    else String.◌∷◌ c (replace_from old n new 0 s)

abbrev pub replace : String → ℕ → String → String → String
replace old n new s = replace_from old n new 0 s
