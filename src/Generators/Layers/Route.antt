-- ===== src/Generators/Layers/Route.antt =====
-- scripts/create_route.py: the text of the routes of an entity.
use fasti_kit.Text.{join}
use fasti_kit.Base.{String, ◌<>◌, [], ◌∷◌, string_eq}

unfoldable pub route_text : String → String → String → String → String → String → String
route_text domain snake pascal plural route_var prefix = join "\n" (
    "from uuid import UUID"
    ∷ ""
    ∷ "from fastapi import APIRouter, Depends"
    ∷ "from fastapi_pagination.cursor import CursorPage, CursorParams"
    ∷ ""
    ∷ "from auth.dependencies import auth"
    ∷ ("from " <> domain <> ".dependencies import get_" <> snake <> "_service")
    ∷ ("from " <> domain <> ".entities." <> snake <> " import " <> pascal)
    ∷ ("from " <> domain <> ".schemas." <> snake <> "_schema import (")
    ∷ ("    Create" <> pascal <> "Request,")
    ∷ ("    " <> pascal <> "Response,")
    ∷ ("    Update" <> pascal <> "Request,")
    ∷ ")"
    ∷ ("from " <> domain <> ".services." <> snake <> "_service import " <> pascal <> "Service")
    ∷ ""
    ∷ (route_var <> " = APIRouter(prefix=\"/" <> prefix <> "\", tags=[\"" <> pascal <> "\"])")
    ∷ ""
    ∷ "requires_access_token = ["
    ∷ "    Depends(auth.token_required(type=\"access\", locations=[\"headers\"]))"
    ∷ "]"
    ∷ ""
    ∷ ""
    ∷ ("@" <> route_var <> ".post(")
    ∷ ("    \"\", response_model=" <> pascal <> "Response, dependencies=requires_access_token")
    ∷ ")"
    ∷ ("async def create_" <> snake <> "(")
    ∷ ("    data: Create" <> pascal <> "Request,")
    ∷ ("    service: " <> pascal <> "Service = Depends(get_" <> snake <> "_service),")
    ∷ (") -> " <> pascal <> ":")
    ∷ "    return await service.create(data)"
    ∷ ""
    ∷ ""
    ∷ ("@" <> route_var <> ".get(\"/{id}\", response_model=" <> pascal <> "Response)")
    ∷ ("async def get_" <> snake <> "(")
    ∷ "    id: UUID,"
    ∷ ("    service: " <> pascal <> "Service = Depends(get_" <> snake <> "_service),")
    ∷ (") -> " <> pascal <> ":")
    ∷ "    return await service.get(id)"
    ∷ ""
    ∷ ""
    ∷ ("@" <> route_var <> ".patch(")
    ∷ ("    \"/{id}\", response_model=" <> pascal <> "Response, dependencies=requires_access_token")
    ∷ ")"
    ∷ ("async def update_" <> snake <> "(")
    ∷ "    id: UUID,"
    ∷ ("    data: Update" <> pascal <> "Request,")
    ∷ ("    service: " <> pascal <> "Service = Depends(get_" <> snake <> "_service),")
    ∷ (") -> " <> pascal <> ":")
    ∷ "    return await service.update(id, data)"
    ∷ ""
    ∷ ""
    ∷ ("@" <> route_var <> ".delete(\"/{id}\", dependencies=requires_access_token)")
    ∷ ("async def delete_" <> snake <> "(")
    ∷ "    id: UUID,"
    ∷ ("    service: " <> pascal <> "Service = Depends(get_" <> snake <> "_service),")
    ∷ ") -> dict[str, str]:"
    ∷ "    await service.delete(id)"
    ∷ ""
    ∷ ("    return {\"message\": \"" <> pascal <> " deleted\"}")
    ∷ ""
    ∷ ""
    ∷ ("@" <> route_var <> ".get(\"\", response_model=CursorPage[" <> pascal <> "Response])")
    ∷ ("async def list_" <> plural <> "(")
    ∷ "    params: CursorParams = Depends(),"
    ∷ ("    service: " <> pascal <> "Service = Depends(get_" <> snake <> "_service),")
    ∷ (") -> CursorPage[" <> pascal <> "]:")
    ∷ "    return await service.list(params)"
    ∷ ""
    ∷ [])
