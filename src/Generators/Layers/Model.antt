-- ===== src/Generators/Layers/Model.antt =====
-- scripts/create_model.py: the text of the model of an entity.
use fasti_kit.Text.{join}
use fasti_kit.Base.{
  String, ◌<>◌, Option, none, some, List, [], ◌∷◌, ◌++◌, map, if◌then◌else◌, string_eq, ◌==◌,
}
use fasti_kit.Base.Table.{any}
use fasti_kit.Generators.Fields.{Field}

abbrev pub default_argument : Option String → String
default_argument none = ""
default_argument (some default) = if default == "" then "" else ", default=" <> default

abbrev pub column : Field → String
column f =
    f.name
    <> ": Mapped["
    <> f.py_type
    <> "] = mapped_column("
    <> f.sqla_type
    <> default_argument f.default
    <> ")"

unfoldable pub model_fields : List Field → String
model_fields [] = "# TODO: add domain-specific columns here"
model_fields (f ∷ fs) = join "\n    " (map column (f ∷ fs))

abbrev pub column_if : String → List Field → List String
column_if type fields = if any (λ f. f.sqla_type == type) fields then type ∷ [] else []

-- the sorted set of the base types and those of the fields, whose only other type is that of a uuid
unfoldable pub column_types : List Field → List String
column_types fields =
    "Boolean" ∷ "DateTime" ∷ column_if "Float" fields
    ++ column_if "Integer" fields
    ++ column_if "String" fields

-- the lines of the template
abbrev pub model_lines : String → String → String → String → List String
model_lines pascal table_name model_fields column_types =
    ("import uuid"
      ∷ "from datetime import UTC, datetime"
      ∷ ""
      ∷ ("from sqlalchemy import " <> column_types)
      ∷ "from sqlalchemy.dialects.postgresql import UUID"
      ∷ "from sqlalchemy.orm import Mapped, mapped_column"
      ∷ ""
      ∷ "from core.database import Base"
      ∷ ""
      ∷ ""
      ∷ ("class " <> pascal <> "Model(Base):")
      ∷ ("    __tablename__ = \"" <> table_name <> "\"")
      ∷ ""
      ∷ "    id: Mapped[uuid.UUID] = mapped_column("
      ∷ "        UUID(as_uuid=True), primary_key=True, default=uuid.uuid4"
      ∷ "    )"
      ∷ ("    " <> model_fields)
      ∷ ""
      ∷ "    created_at: Mapped[datetime] = mapped_column("
      ∷ "        DateTime(timezone=True), default=lambda: datetime.now(UTC)"
      ∷ "    )"
      ∷ "    updated_at: Mapped[datetime] = mapped_column("
      ∷ "        DateTime(timezone=True),"
      ∷ "        default=lambda: datetime.now(UTC),"
      ∷ "        onupdate=lambda: datetime.now(UTC),"
      ∷ "    )"
      ∷ "    is_active: Mapped[bool] = mapped_column(Boolean, default=True)"
      ∷ ""
      ∷ [])

unfoldable pub model_text : String → String → String → String → String
model_text pascal table_name model_fields column_types =
    join "\n" (model_lines pascal table_name model_fields column_types)
