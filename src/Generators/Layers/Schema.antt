-- ===== src/Generators/Layers/Schema.antt =====
-- scripts/create_schema.py: the text of the schemas of an entity.
use fasti_kit.Text.{join}
use fasti_kit.Base.{String, ◌<>◌, List, [], ◌∷◌, map, string_eq}
use fasti_kit.Generators.Fields.{Field, typed}

abbrev pub optional : Field → String
optional f = f.name <> ": " <> f.py_type <> " | None = None"

unfoldable pub create_fields : List Field → String
create_fields [] = "# TODO: add domain-specific fields here (e.g. name: str)\n    pass"
create_fields (f ∷ fs) = join "\n    " (map typed (f ∷ fs))

unfoldable pub update_fields : List Field → String
update_fields [] = "# TODO: add domain-specific fields here, all optional\n    pass"
update_fields (f ∷ fs) = join "\n    " (map optional (f ∷ fs))

unfoldable pub response_fields : List Field → String
response_fields [] = "# TODO: add domain-specific fields here (e.g. name: str)\n    "
response_fields (f ∷ fs) = join "\n    " (map typed (f ∷ fs)) <> "\n    "

-- the lines of the template
abbrev pub schema_lines : String → String → String → String → List String
schema_lines pascal create_fields update_fields response_fields =
    ("import uuid"
      ∷ "from datetime import datetime"
      ∷ ""
      ∷ "from pydantic import BaseModel"
      ∷ ""
      ∷ ""
      ∷ ("class Create" <> pascal <> "Request(BaseModel):")
      ∷ ("    " <> create_fields)
      ∷ ""
      ∷ ""
      ∷ ("class Update" <> pascal <> "Request(BaseModel):")
      ∷ ("    " <> update_fields)
      ∷ ""
      ∷ ""
      ∷ ("class " <> pascal <> "Response(BaseModel):")
      ∷ "    id: uuid.UUID"
      ∷ ("    " <> response_fields <> "is_active: bool")
      ∷ "    created_at: datetime"
      ∷ "    updated_at: datetime"
      ∷ ""
      ∷ "    model_config = {\"from_attributes\": True}"
      ∷ ""
      ∷ [])

unfoldable pub schema_text : String → String → String → String → String
schema_text pascal create_fields update_fields response_fields =
    join "\n" (schema_lines pascal create_fields update_fields response_fields)
