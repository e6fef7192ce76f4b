-- ===== src/Generators/Layers/Written.antt =====
-- scripts/create_*.py: the fields of the command line in the texts of the layers.
use fasti_kit.Base.{ℕ, zero, suc, ◌<>◌, ◌++◌, String, true, List, [], ◌∷◌, ◌≡◌, string_eq, nat_eq}
use fasti_kit.Text.{contains, join}

-- the text has the lines of the header, and right behind them a line with the part
abbrev pub Under : String → List String → String → Type 0
Under text header part =
    (line : String) × (before : List String) × (after : List String) × (text
      ≡ join "\n" (before ++ (header ++ line ∷ after)))
    × (contains line part ≡ true)

-- the first lines, and those behind them
abbrev upto : ℕ → List String → List String
upto zero lines = []
upto (suc n) [] = []
upto (suc n) (line ∷ lines) = line ∷ upto n lines

abbrev beyond : ℕ → List String → List String
beyond zero lines = lines
beyond (suc n) [] = []
beyond (suc n) (line ∷ lines) = beyond n lines

-- where the fields of each text stand
abbrev pub entity_head : String → List String
entity_head pascal = ("class " <> pascal <> ":") ∷ "    id: uuid.UUID" ∷ []

abbrev pub model_head : String → String → List String
model_head pascal table_name =
    ("class " <> pascal <> "Model(Base):")
    ∷ ("    __tablename__ = \"" <> table_name <> "\"")
    ∷ ""
    ∷ "    id: Mapped[uuid.UUID] = mapped_column("
    ∷ "        UUID(as_uuid=True), primary_key=True, default=uuid.uuid4"
    ∷ "    )"
    ∷ []

abbrev pub request_head : String → String → List String
request_head opening pascal = (opening <> pascal <> "Request(BaseModel):") ∷ []

abbrev pub repository_head : String → List String
repository_head pascal =
    ("class " <> pascal <> "Repository:")
    ∷ "    def __init__(self, db: AsyncSession) -> None:"
    ∷ "        self.db: AsyncSession = db"
    ∷ ""
    ∷ []

abbrev pub add_head : String → String → List String
add_head pascal signature =
    ("    async def add(" <> signature <> ") -> " <> pascal <> ":")
    ∷ "        force_primary_var.set(True)"
    ∷ []

abbrev pub to_entity_head : String → List String
to_entity_head pascal =
    ("    def _to_entity(model: " <> pascal <> "Model) -> " <> pascal <> ":")
    ∷ ("        return " <> pascal <> "(")
    ∷ "            id=model.id,"
    ∷ []
