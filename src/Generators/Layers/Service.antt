-- ===== src/Generators/Layers/Service.antt =====
-- scripts/create_service.py: the text of the service of an entity.
use fasti_kit.Text.{join}
use fasti_kit.Base.{String, ◌<>◌, [], ◌∷◌, string_eq}

unfoldable pub service_text : String → String → String → String
service_text domain snake pascal = join "\n" (
    "from uuid import UUID"
    ∷ ""
    ∷ "from fastapi_pagination.cursor import CursorPage, CursorParams"
    ∷ ""
    ∷ "from core.exception import EntityNotFoundError"
    ∷ ("from " <> domain <> ".entities." <> snake <> " import " <> pascal)
    ∷ ("from " <> domain <> ".repositories." <> snake <> "_repository import " <> pascal
        <> "Repository")
    ∷ ("from " <> domain <> ".schemas." <> snake <> "_schema import Create" <> pascal
        <> "Request, Update" <> pascal <> "Request")
    ∷ ""
    ∷ ""
    ∷ ("class " <> pascal <> "Service:")
    ∷ ("    def __init__(self, repo: " <> pascal <> "Repository) -> None:")
    ∷ "        self.repo = repo"
    ∷ ""
    ∷ ("    async def create(self, data: Create" <> pascal <> "Request) -> " <> pascal <> ":")
    ∷ "        return await self.repo.add(**data.model_dump())"
    ∷ ""
    ∷ ("    async def get(self, id: UUID) -> " <> pascal <> ":")
    ∷ "        record = await self.repo.get(id)"
    ∷ ""
    ∷ "        if record is None:"
    ∷ ("            raise EntityNotFoundError(\"" <> pascal <> "\", str(id))")
    ∷ ""
    ∷ "        return record"
    ∷ ""
    ∷ ("    async def update(self, id: UUID, data: Update" <> pascal <> "Request) -> " <> pascal
        <> ":")
    ∷ "        record = await self.repo.update(id=id, **data.model_dump(exclude_unset=True))"
    ∷ ""
    ∷ "        if record is None:"
    ∷ ("            raise EntityNotFoundError(\"" <> pascal <> "\", str(id))")
    ∷ ""
    ∷ "        return record"
    ∷ ""
    ∷ ("    async def delete(self, id: UUID, force: bool = False) -> " <> pascal <> ":")
    ∷ "        if force:"
    ∷ "            record = await self.repo.force_delete(id)"
    ∷ "        else:"
    ∷ "            record = await self.repo.delete(id)"
    ∷ ""
    ∷ "        if record is None:"
    ∷ ("            raise EntityNotFoundError(\"" <> pascal <> "\", str(id))")
    ∷ ""
    ∷ "        return record"
    ∷ ""
    ∷ ("    async def list(self, params: CursorParams | None = None) -> CursorPage[" <> pascal
        <> "]:")
    ∷ "        return await self.repo.list(params)"
    ∷ ""
    ∷ [])
