-- ===== src/Examples/Generators.antt =====
-- The generators on a small project.
use fasti_kit.Base.{
  String, Option, ◌<>◌, true, false, ◌&&◌, ◌≡◌, refl, none, some, [], ◌∷◌, if◌then◌else◌, string_eq,
  ◌==◌,
}
use fasti_kit.Base.Table.{any}
use fasti_kit.Text.{contains, join, split_by}
use fasti_kit.Generators.Names.{
  normalized, acronym_boundaries, camel_boundaries, lower, lstrip_of, rstrip_of, to_snake_case,
  is_domain, is_identifier, is_identifier_tail,
}
use fasti_kit.Generators.Fields.{Field, split_once}
use fasti_kit.Generators.Files.{Files}
use fasti_kit.Generators.Pyproject.{add_to_lines, quoted, after_prefix}
use fasti_kit.Generators.Migration.{script, Project, create_migration}
use fasti_kit.Generators.Migration.Reviewed.{
  is_revision, is_upgrade, warns_of, is_read, mentions, may_revise, create_migration_guards,
}
use fasti_kit.Generators.Project.{Tools, generate_all}
use fasti_kit.Generators.Project.Layered.{is_shared}
use fasti_kit.Generators.Project.Kept.{generate_all_keeps}

snake_of_acronym : to_snake_case "HTTPServer Item" ≡ "http_server_item"
unfolding to_snake_case normalized acronym_boundaries camel_boundaries lower lstrip_of rstrip_of
snake_of_acronym = refl

pyproject_line :
    add_to_lines "source" "shop" none ("x" ∷ "source = [\"auth\", \"user\"] # domains" ∷ "y" ∷ [])
    ≡ "x" ∷ "source = [\"auth\", \"user\", \"shop\"] # domains" ∷ "y" ∷ []
unfolding add_to_lines quoted after_prefix split_once split_by join any contains
pyproject_line = refl

abbrev price : Field
price = record {
  name = "price";
  type = "float";
  default = some "0";
  py_type = "float";
  sqla_type = "Float";
}

abbrev tools : Tools
tools = record {
  parse = λ text. some [];
  nodes = λ text. none;
  repr = λ text. "'" <> text <> "'";
  lists_of = λ text. none;
}

abbrev project : Files
project path = if path == "shop/models/item_model.py" then some "class ItemModel: ..." else none

generate_all_keeps_example :
    (generate_all tools "shop" "item" "price:float" project).1 "shop/models/item_model.py"
    ≡ some "class ItemModel: ..."
unfolding is_shared
generate_all_keeps_example =
    generate_all_keeps tools "shop" "item" "price:float" "shop/models/item_model.py"
      "class ItemModel: ..." project refl refl

-- `$` in the pattern of an identifier stands in front of a last line break too.
domain_with_line_break : is_domain "shop\n" ≡ true
unfolding is_domain is_identifier is_identifier_tail any
domain_with_line_break = refl

abbrev dropping : Option String
dropping = some "    op.drop_table(\"items\")"

-- a project with the domain shop, and a migration that drops a table
abbrev migrated : Project
migrated = record {
  imports_models = true;
  revision = λ message. script (some "alembic/versions/1.py");
  upgrades = true;
  read_text = λ path.
      if path == "core/models.py" then some "from shop.models import ItemModel" else dropping;
}

create_migration_guards_example :
    let steps =
      create_migration migrated true
        (λ url. some none)
        "local"
        ""
        "drop items"
        (some "shop")
        false in
    let ready = may_revise migrated "local" (some none) (some "shop") false in
    let text = dropping in
    (any is_revision steps ≡ ready)
    × (any is_upgrade steps ≡ (ready && (true && is_read text)))
    × (any (warns_of true) steps ≡ (ready && mentions "op.drop_table" text))
    × (any (warns_of false) steps ≡ (ready && mentions "op.drop_column" text))
create_migration_guards_example =
    create_migration_guards migrated true (λ url. some none) "local" "" "drop items" (some "shop")
      false
