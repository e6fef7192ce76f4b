-- ===== src/Generators/Layers/Entity.antt =====
-- scripts/create_entity.py: the text of the entity of a domain.
use fasti_kit.Text.{join}
use fasti_kit.Base.{String, ◌<>◌, List, [], ◌∷◌, map, string_eq}
use fasti_kit.Generators.Fields.{Field, typed}

unfoldable pub entity_fields : List Field → String
entity_fields [] = "# TODO: add domain-specific fields here (e.g. name: str)"
entity_fields (f ∷ fs) = join "\n    " (map typed (f ∷ fs))

-- the lines of the template
abbrev pub entity_lines : String → String → List String
entity_lines pascal entity_fields =
    ("import uuid"
      ∷ "from dataclasses import dataclass"
      ∷ "from datetime import datetime"
      ∷ ""
      ∷ ""
      ∷ "@dataclass"
      ∷ ("class " <> pascal <> ":")
      ∷ "    id: uuid.UUID"
      ∷ ("    " <> entity_fields)
      ∷ "    is_active: bool"
      ∷ "    created_at: datetime"
      ∷ "    updated_at: datetime"
      ∷ ""
      ∷ [])

unfoldable pub entity_text : String → String → String
entity_text pascal entity_fields = join "\n" (entity_lines pascal entity_fields)
