-- ===== src/Generators/Layers/Repository.antt =====
-- scripts/create_repository.py: the text of the repository of an entity.
use fasti_kit.Text.{join}
use fasti_kit.Base.{String, ◌<>◌, List, [], ◌∷◌, map, if◌then◌else◌, string_eq, ◌==◌}
use fasti_kit.Base.Table.{any}
use fasti_kit.Generators.Fields.{Field, typed}

abbrev pub keyword : Field → String
keyword f = f.name <> "=" <> f.name

abbrev pub copied : Field → String
copied f = f.name <> "=model." <> f.name <> ","

unfoldable pub add_signature : List Field → String
add_signature [] = "self, **fields"
add_signature (f ∷ fs) = "self, " <> join ", " (map typed (f ∷ fs))

unfoldable pub model_instantiation : String → List Field → String
model_instantiation pascal [] = pascal <> "Model(**fields)"
model_instantiation pascal (f ∷ fs) = pascal <> "Model(" <> join ", " (map keyword (f ∷ fs)) <> ")"

unfoldable pub to_entity_fields : List Field → String
to_entity_fields [] = "# TODO: map domain-specific fields here (e.g. name=model.name)\n            "
to_entity_fields (f ∷ fs) = join "\n            " (map copied (f ∷ fs)) <> "\n            "

unfoldable pub uuid_import : List Field → String
uuid_import fields = if any (λ f. f.type == "uuid") fields then "import uuid\n" else ""

-- the lines of the template
abbrev pub repository_lines :
    String → String → String → String → String → String → String → List String
repository_lines domain snake pascal add_signature model_instantiation to_entity_fields
      uuid_import =
    ((uuid_import <> "from uuid import UUID")
      ∷ ""
      ∷ "from fastapi_pagination.cursor import CursorPage, CursorParams"
      ∷ "from fastapi_pagination.ext.sqlalchemy import apaginate"
      ∷ "from sqlalchemy import select"
      ∷ "from sqlalchemy.exc import IntegrityError"
      ∷ "from sqlalchemy.ext.asyncio import AsyncSession"
      ∷ ""
      ∷ "from core.database import force_primary_var, transaction"
      ∷ "from core.exception import ConflictError"
      ∷ ("from " <> domain <> ".entities." <> snake <> " import " <> pascal)
      ∷ ("from " <> domain <> ".models import " <> pascal <> "Model")
      ∷ ""
      ∷ ""
      ∷ ("class " <> pascal <> "Repository:")
      ∷ "    def __init__(self, db: AsyncSession) -> None:"
      ∷ "        self.db: AsyncSession = db"
      ∷ ""
      ∷ ("    async def add(" <> add_signature <> ") -> " <> pascal <> ":")
      ∷ "        force_primary_var.set(True)"
      ∷ ("        model = " <> model_instantiation)
      ∷ ""
      ∷ "        async with transaction(self.db):"
      ∷ "            await self._flush_or_raise(model)"
      ∷ "            return self._to_entity(model)"
      ∷ ""
      ∷ ("    async def get(self, id: UUID) -> " <> pascal <> " | None:")
      ∷ ("        result = await self.db.scalar(select(" <> pascal <> "Model).where(" <> pascal
          <> "Model.id == id))")
      ∷ ""
      ∷ "        if result is None:"
      ∷ "            return None"
      ∷ ""
      ∷ "        return self._to_entity(result)"
      ∷ ""
      ∷ ("    async def update(self, id: UUID, **fields) -> " <> pascal <> " | None:")
      ∷ "        force_primary_var.set(True)"
      ∷ ("        record = await self.db.get(" <> pascal <> "Model, id)")
      ∷ ""
      ∷ "        if record is None:"
      ∷ "            return None"
      ∷ ""
      ∷ "        async with transaction(self.db):"
      ∷ "            for key, value in fields.items():"
      ∷ "                setattr(record, key, value)"
      ∷ "            await self._flush_or_raise()"
      ∷ "            return self._to_entity(record)"
      ∷ ""
      ∷ ("    async def delete(self, id: UUID) -> " <> pascal <> " | None:")
      ∷ "        force_primary_var.set(True)"
      ∷ ("        record = await self.db.get(" <> pascal <> "Model, id)")
      ∷ ""
      ∷ "        if record is None:"
      ∷ "            return None"
      ∷ ""
      ∷ "        async with transaction(self.db):"
      ∷ "            record.is_active = False"
      ∷ "            await self.db.flush()"
      ∷ "            return self._to_entity(record)"
      ∷ ""
      ∷ ("    async def force_delete(self, id: UUID) -> " <> pascal <> " | None:")
      ∷ "        force_primary_var.set(True)"
      ∷ ("        record = await self.db.get(" <> pascal <> "Model, id)")
      ∷ ""
      ∷ "        if record is None:"
      ∷ "            return None"
      ∷ "        result = self._to_entity(record)"
      ∷ ""
      ∷ "        async with transaction(self.db):"
      ∷ "            await self.db.delete(record)"
      ∷ "            await self.db.flush()"
      ∷ ""
      ∷ "        return result"
      ∷ ""
      ∷ ("    async def list(self, params: CursorParams | None = None) -> CursorPage[" <> pascal
          <> "]:")
      ∷ "        return await apaginate("
      ∷ "            self.db,"
      ∷ ("            select(" <> pascal <> "Model).order_by(")
      ∷ ("                " <> pascal <> "Model.created_at.desc(), " <> pascal <> "Model.id.desc()")
      ∷ "            ),"
      ∷ "            params=params or CursorParams(),"
      ∷ "            transformer=lambda models: [self._to_entity(model) for model in models],"
      ∷ "        )"
      ∷ ""
      ∷ ("    async def _flush_or_raise(self, model: " <> pascal <> "Model | None = None) -> None:")
      ∷ "        try:"
      ∷ "            if model is not None:"
      ∷ "                self.db.add(model)"
      ∷ "            await self.db.flush()"
      ∷ "        except IntegrityError as err:"
      ∷ ("            raise ConflictError(\"" <> pascal
          <> " violates a uniqueness constraint\") from err")
      ∷ ""
      ∷ "    @staticmethod"
      ∷ ("    def _to_entity(model: " <> pascal <> "Model) -> " <> pascal <> ":")
      ∷ ("        return " <> pascal <> "(")
      ∷ "            id=model.id,"
      ∷ ("            " <> to_entity_fields <> "is_active=model.is_active,")
      ∷ "            created_at=model.created_at,"
      ∷ "            updated_at=model.updated_at,"
      ∷ "        )"
      ∷ ""
      ∷ [])

unfoldable pub repository_text :
    String → String → String → String → String → String → String → String
repository_text domain snake pascal add_signature model_instantiation to_entity_fields uuid_import =
    join "\n" (
      repository_lines domain snake pascal add_signature model_instantiation to_entity_fields
        uuid_import)
