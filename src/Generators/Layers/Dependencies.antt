-- ===== src/Generators/Layers/Dependencies.antt =====
-- scripts/create_dependencies.py: the text of the dependencies of an entity.
use fasti_kit.Text.{join}
use fasti_kit.Base.{String, ◌<>◌, List, [], ◌∷◌, string_eq}

unfoldable pub required_imports : String → String → String → List String
required_imports domain snake pascal =
    "from fastapi import Depends"
    ∷ "from sqlalchemy.ext.asyncio import AsyncSession"
    ∷ "from core.database import get_db"
    ∷ ("from " <> domain <> ".repositories." <> snake <> "_repository import " <> pascal
        <> "Repository")
    ∷ ("from " <> domain <> ".services." <> snake <> "_service import " <> pascal <> "Service")
    ∷ []

unfoldable pub render_block : String → String → String
render_block snake pascal = join "\n" (
    ("def get_" <> snake <> "_repository(db: AsyncSession = Depends(get_db)) -> " <> pascal
      <> "Repository:")
    ∷ ("    return " <> pascal <> "Repository(db)")
    ∷ ""
    ∷ ""
    ∷ ("def get_" <> snake <> "_service(")
    ∷ ("    repo: " <> pascal <> "Repository = Depends(get_" <> snake <> "_repository),")
    ∷ (") -> " <> pascal <> "Service:")
    ∷ ("    return " <> pascal <> "Service(repo)")
    ∷ ""
    ∷ [])
