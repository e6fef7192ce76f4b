-- ===== src/Generators/Parsing.antt =====
-- scripts/_boilerplate.py: `parse_fields` on fields that are written out.
use text.Mathlib.TextLemmas.{cons-append, nil-append, append-ne-nil_of_right_ne-nil, cons-ne-nil}
use fasti_kit.Text.{is_space, strip, split, join}
use fasti_kit.Text.Splitting.{
  Free, is_comma, comma-append, split_by-joined, split_by-Free, split-join,
}
use fasti_kit.Text.Words.{Free-append, Free-weaken, strip-Free, not_empty}
use fasti_kit.Generators.Fields.{
  Field, py_type_of, sqla_type_of, is_base_field, split_once, parsed, parse_item, parse_items,
  parse_fields,
}
use fasti_kit.Base.{
  ℕ, String, ◌<>◌, ◌≡◌, ◌≢◌, refl, sym, ◌∙◌, ap, Bool, false, ◌||◌, Option, none, some, List, [],
  ◌∷◌, map, arith, string_eq, nat_eq, ◌==◌,
}
use fasti_kit.Base.Lists.{All}

-- what a field is written as
pub record Spec : Type 0 where
  pub name : String
  pub type : String
  pub default : Option String

abbrev pub shown_default : Option String → String → String
shown_default none written = written
shown_default (some value) written = written <> "=" <> value

abbrev pub shown : Spec → String
shown spec = shown_default spec.default (spec.name <> ":" <> spec.type)

abbrev pub made : Spec → Field
made spec = record {
  name = spec.name;
  type = spec.type;
  default = spec.default;
  py_type = py_type_of spec.type;
  sqla_type = sqla_type_of spec.type;
}

-- white space, a comma, a colon or an equals sign
abbrev pub is_mark : ℕ → Bool
is_mark c = is_space c || (c == 44 || (c == 58 || c == 61))

abbrev pub GoodDefault : Option String → Type 0
GoodDefault none = Unit
GoodDefault (some value) = (value ≢ "") × Free is_mark value

-- no part has a mark, and the generators do not add the field themselves
abbrev pub Good : Spec → Type 0
Good spec =
    Free is_mark spec.name
    × Free is_mark spec.type
    × GoodDefault spec.default
    × (is_base_field spec.name ≡ false)

equals-append : (b : String) → "=" <> b ≡ String.◌∷◌ "=" b
equals-append b = cons-append "=" String.[] b ∙ ap (String.◌∷◌ "=") (nil-append b)

colon-append : (b : String) → ":" <> b ≡ String.◌∷◌ ":" b
colon-append b = cons-append ":" String.[] b ∙ ap (String.◌∷◌ ":") (nil-append b)

is_equals : ℕ → Bool
is_equals c = c == 61

split_once-none : (s : String) → Free is_equals s → split_once 61 s ≡ none
unfolding split_once is_equals
split_once-none String.[] h = refl
split_once-none (String.◌∷◌ c s) (h, hs) = rw (h, split_once-none s hs) refl

split_once-joined :
    (a b : String) → Free is_equals a → split_once 61 (a <> String.◌∷◌ "=" b) ≡ some (a, b)
unfolding split_once is_equals
split_once-joined String.[] b h = rw (nil-append (String.◌∷◌ "=" b)) refl
split_once-joined (String.◌∷◌ c a) b (h, hs) =
    rw (cons-append c a (String.◌∷◌ "=" b), h, split_once-joined a b hs) refl

is_colon : ℕ → Bool
is_colon c = c == 58

split-colon :
    (name type : String)
    → Free is_mark name
    → Free is_mark type
    → split (name <> ":" <> type) 58 ≡ name ∷ type ∷ []
unfolding is_colon
split-colon name type h k =
    let bare = λ (s : String) (free : Free is_mark s).
      split_by-Free is_colon s (Free-weaken is_mark is_colon s (λ c e. ground (arith, e)) free) in
    rw (colon-append type)
      (split_by-joined is_colon name ":" type refl ∙ rw (bare name h, bare type k) refl)

-- neither white space nor a comma
abbrev pub is_outer : ℕ → Bool
is_outer c = is_space c || c == 44

outer : (s : String) → Free is_mark s → Free is_outer s
outer s free = Free-weaken is_mark is_outer s (λ c e. ground (arith, e)) free

unspaced : (s : String) → Free is_outer s → Free is_space s
unspaced s free = Free-weaken is_outer is_space s (λ c e. ground (arith, e)) free

written-outer :
    (name type : String)
    → Free is_mark name
    → Free is_mark type
    → Free is_outer (name <> ":" <> type)
written-outer name type h k =
    Free-append is_outer name (":" <> type) (outer name h)
      (Free-append is_outer ":" type (refl, tt) (outer type k))

written-equals :
    (name type : String)
    → Free is_mark name
    → Free is_mark type
    → Free is_equals (name <> ":" <> type)
unfolding is_equals
written-equals name type h k =
    let bare = λ (s : String) (free : Free is_mark s).
      Free-weaken is_mark is_equals s (λ c e. ground (arith, e)) free in
    Free-append is_equals name (":" <> type) (bare name h)
      (Free-append is_equals ":" type (refl, tt) (bare type k))

shown-outer :
    (default : Option String) (written : String)
    → GoodDefault default
    → Free is_outer written
    → Free is_outer (shown_default default written)
shown-outer none written good free = free
shown-outer (some value) written (_, good) free =
    Free-append is_outer written ("=" <> value) free
      (Free-append is_outer "=" value (refl, tt) (outer value good))

written≢empty : (name type : String) → (name <> ":" <> type) ≢ ""
written≢empty name type =
    append-ne-nil_of_right_ne-nil name λ e. cons-ne-nil ":" type (sym (colon-append type) ∙ e)

shown≢empty :
    (default : Option String) (name type : String)
    → shown_default default (name <> ":" <> type) ≢ ""
shown≢empty none name type = written≢empty name type
shown≢empty (some value) name type =
    append-ne-nil_of_right_ne-nil (name <> ":" <> type)
      λ e. cons-ne-nil "=" value (sym (equals-append value) ∙ e)

stripped : (s : String) → Free is_outer s → strip s ≡ s
stripped s free = strip-Free s (unspaced s free)

parse_item-written :
    (name type : String) (default : Option String)
    → Free is_mark name
    → Free is_mark type
    → GoodDefault default
    → is_base_field name ≡ false
    → parse_item (shown_default default (name <> ":" <> type))
      ≡ parsed (made (record { name = name; type = type; default = default }))
unfolding parse_item
parse_item-written name type none h k good own =
    let free = written-outer name type h k in
    rw
      (
        stripped (name <> ":" <> type) free,
        not_empty (name <> ":" <> type) (written≢empty name type),
        split_once-none (name <> ":" <> type) (written-equals name type h k),
        split-colon name type h k,
        stripped name (outer name h),
        stripped type (outer type k),
        own,
      )
      refl
parse_item-written name type (some value) h k (full, good) own =
    let free =
      shown-outer (some value) (name <> ":" <> type) (full, good) (written-outer name type h k) in
    rw
      (
        stripped ((name <> ":" <> type) <> "=" <> value) free,
        not_empty ((name <> ":" <> type) <> "=" <> value) (shown≢empty (some value) name type),
        equals-append value,
        split_once-joined (name <> ":" <> type) value (written-equals name type h k),
        split-colon name type h k,
        stripped name (outer name h),
        stripped type (outer type k),
        own,
        not_empty value full,
        stripped value (outer value good),
      )
      refl

parse_item-shown : (spec : Spec) → Good spec → parse_item (shown spec) ≡ parsed (made spec)
parse_item-shown spec (h, k, good, own) =
    parse_item-written spec.name spec.type spec.default h k good own

parse_items-shown :
    (specs : List Spec) → All Good specs → parse_items (map shown specs) ≡ some (map made specs)
unfolding parse_items
parse_items-shown [] good = refl
parse_items-shown (spec ∷ specs) (good, rest) =
    rw (parse_item-shown spec good, parse_items-shown specs rest) refl

join≢empty : (part : String) (parts : List String) → part ≢ "" → join "," (part ∷ parts) ≢ ""
unfolding join
join≢empty part [] h = h
join≢empty part (next ∷ parts) h = append-ne-nil_of_right_ne-nil part λ e.
    cons-ne-nil "," (join "," (next ∷ parts)) (sym (comma-append (join "," (next ∷ parts))) ∙ e)

uncommaed : (specs : List Spec) → All Good specs → All (Free is_comma) (map shown specs)
uncommaed [] good = tt
uncommaed (spec ∷ specs) ((h, k, good, own), rest) = (
  Free-weaken is_outer is_comma (shown spec) (λ c e. ground (arith, e))
      (shown-outer spec.default _ good (written-outer spec.name spec.type h k)),
  uncommaed specs rest,
)

-- `parse_fields` reads any list of fields back from the text they are written as, with the Python and the SQL
-- type of each, if the list is not empty, no name, type or default has white space, a comma, a colon or an
-- equals sign, no default is empty, and none of the fields is one that the generators add themselves.
pub parse_fields-shown :
    (spec : Spec) (specs : List Spec)
    → All Good (spec ∷ specs)
    → parse_fields (join "," (map shown (spec ∷ specs))) ≡ some (map made (spec ∷ specs))
unfolding parse_fields
parse_fields-shown spec specs good =
    rw
      (
        not_empty (join "," (map shown (spec ∷ specs))) (
            join≢empty (shown spec) (map shown specs)
              (shown≢empty spec.default spec.name spec.type)),
        split-join (shown spec) (map shown specs) (uncommaed (spec ∷ specs) good),
      )
      (parse_items-shown (spec ∷ specs) good)
