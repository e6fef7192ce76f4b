-- ===== src/Generators/Fields.antt =====
-- scripts/_boilerplate.py: `parse_fields`, where `none` is the `ValueError` of an item without exactly
-- one colon.
use Prim.Native.Char.{Char, code}
use fasti_kit.Text.{split, strip}
use fasti_kit.Base.{
  ℕ, String, ◌<>◌, Bool, ◌||◌, Option, none, some, List, [], ◌∷◌, if◌then◌else◌, string_eq, nat_eq,
  ◌==◌,
}

pub record Field : Type 0 where
  pub name : String
  pub type : String
  pub default : Option String
  pub py_type : String
  pub sqla_type : String

-- `TYPE_MAPPING.get(type, TYPE_MAPPING["str"])["py"]`
abbrev pub py_type_of : String → String
py_type_of type =
    if type == "int"
    then "int"
    else if type == "float"
    then "float"
    else if type == "bool"
    then "bool"
    else if type == "uuid"
    then "uuid.UUID"
    else "str"

-- `TYPE_MAPPING.get(type, TYPE_MAPPING["str"])["sqla"]`
abbrev pub sqla_type_of : String → String
sqla_type_of type =
    if type == "int"
    then "Integer"
    else if type == "float"
    then "Float"
    else if type == "bool"
    then "Boolean"
    else if type == "uuid"
    then "UUID(as_uuid=True)"
    else "String"

-- the fields that the generators add themselves
abbrev pub is_base_field : String → Bool
is_base_field name =
    name == "id" || name == "created_at" || name == "updated_at" || name == "is_active"

abbrev pub behind : Char → Option (String × String) → Option (String × String)
behind c none = none
behind c (some (before, after)) = some (String.◌∷◌ c before, after)

-- `item.split(sep, 1)` of an item with the separator, and `none` without one
unfoldable pub split_once : ℕ → String → Option (String × String)
split_once sep String.[] = none
split_once sep (String.◌∷◌ c s) =
    let rest = split_once sep s in if code c == sep then some ("", s) else behind c rest

-- `default_val.strip() if default_val else None`
abbrev pub default_of : Option String → Option String
default_of none = none
default_of (some value) = if value == "" then none else some (strip value)

pub data Parsed : Type 0 where
  skipped failed : Parsed
  parsed : Field → Parsed

abbrev pub field_of : String → String → Option String → Parsed
field_of name type default =
    if is_base_field name
    then skipped
    else parsed (record {
      name = name;
      type = type;
      default = default_of default;
      py_type = py_type_of type;
      sqla_type = sqla_type_of type;
    })

-- `name, field_type = item.split(":")`
abbrev pub named : List String → Option String → Parsed
named (name ∷ type ∷ []) default = field_of (strip name) (strip type) default
named parts default = failed

abbrev pub parse_with : String → Option (String × String) → Parsed
parse_with item none = named (split item 58) none
parse_with item (some (before, default)) = named (split before 58) (some default)

abbrev pub parse_stripped : String → Parsed
parse_stripped item = if item == "" then skipped else parse_with item (split_once 61 item)

unfoldable pub parse_item : String → Parsed
parse_item item = parse_stripped (strip item)

abbrev pub push : Parsed → Option (List Field) → Option (List Field)
push failed rest = none
push skipped rest = rest
push (parsed field) none = none
push (parsed field) (some fields) = some (field ∷ fields)

unfoldable pub parse_items : List String → Option (List Field)
parse_items [] = some []
parse_items (item ∷ items) = push (parse_item item) (parse_items items)

unfoldable pub parse_fields : String → Option (List Field)
parse_fields fields_str = if fields_str == "" then some [] else parse_items (split fields_str 44)

-- `f"{f['name']}: {f['py_type']}"`
abbrev pub typed : Field → String
typed f = f.name <> ": " <> f.py_type
