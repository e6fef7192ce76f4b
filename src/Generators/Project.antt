-- ===== src/Generators/Project.antt =====
-- scripts/create_*.py: the generators of the layers, and `generate_all`.
pub mod Kept
pub mod Layered
use fasti_kit.Text.{contains, join, replace}
use fasti_kit.Generators.Files.{
  Files, Generator, put, then_paths, write_new_file, init_path, with_names, with_fields,
  text_or_empty, dependencies_path, edited, router_text, lines_of, domain_layers, touch_layers,
  packages,
}
use fasti_kit.Generators.Names.{rstrip_of, pluralize, normalized, is_domain, resolve_names}
use fasti_kit.Generators.Fields.{Field, parse_fields}
use fasti_kit.Generators.Init.{Node, update_init}
use fasti_kit.Generators.Imports.{Statement, splitlines, merge_imports, register_model}
use fasti_kit.Generators.Pyproject.{register_pyproject}
use fasti_kit.Generators.Router.{register_router}
use fasti_kit.Generators.Layers.Entity.{entity_fields, entity_text}
use fasti_kit.Generators.Layers.Model.{model_fields, column_types, model_text}
use fasti_kit.Generators.Layers.Schema.{create_fields, update_fields, response_fields, schema_text}
use fasti_kit.Generators.Layers.Repository.{
  add_signature, model_instantiation, to_entity_fields, uuid_import, repository_text,
}
use fasti_kit.Generators.Layers.Service.{service_text}
use fasti_kit.Generators.Layers.Route.{route_text}
use fasti_kit.Generators.Layers.Dependencies.{required_imports, render_block}
use fasti_kit.Base.{
  ℕ, String, ◌<>◌, Bool, true, false, Option, none, some, List, [], ◌∷◌, ◌++◌, map, is_none,
  if◌then◌else◌, string_eq, nat_eq, ◌==◌,
}

-- `ast.parse` on a text, with the statements that `merge_imports` and `_module_names` read of it, and
-- `none` for a `SyntaxError`; `repr`; and what `register_pyproject` takes.
pub record Tools : Type 0 where
  pub parse : String → Option (List Statement)
  pub nodes : String → Option (List Node)
  pub repr : String → String
  pub lists_of : String → Option (List (List String))

module _ (tools : Tools) where
  abbrev merged_init : String → String → List String → Option (List Node) → Generator
  merged_init path module_ symbols none files = (none, files)
  merged_init path module_ symbols (some nodes) files =
      (some (path ∷ []), put path (update_init tools.repr (some nodes) module_ symbols) files)

  abbrev init_from : String → String → List String → Option String → Generator
  init_from path module_ symbols none files =
      (some (path ∷ []), put path (update_init tools.repr none module_ symbols) files)
  init_from path module_ symbols (some content) files =
      merged_init path module_ symbols (tools.nodes content) files

  unfoldable pub update_init_file : String → String → List String → Generator
  update_init_file path module_ symbols files = init_from path module_ symbols (files path) files

  -- `write_new_file` and `update_init`, as each layer calls them
  unfoldable pub write_layer : String → String → String → String → List String → Generator
  write_layer domain layer module_ content symbols files =
      let path = domain <> "/" <> layer <> "/" <> module_ <> ".py" in
      then_paths (λ f. (some (path ∷ []), write_new_file path content f))
        (update_init_file (init_path domain layer) module_ symbols) files

  unfoldable pub generate_entity : String → String → String → Generator
  generate_entity domain name fields =
      with_names
        (λ snake pascal.
          with_fields
            (λ parsed.
              write_layer domain "entities" snake (entity_text pascal (entity_fields parsed))
                (pascal ∷ []))
            (parse_fields fields))
        (resolve_names domain name)

  unfoldable pub generate_model : String → String → String → Generator
  generate_model domain name fields =
      with_names
        (λ snake pascal.
          with_fields
            (λ parsed.
              write_layer domain "models" (snake <> "_model")
                (model_text pascal (pluralize snake) (model_fields parsed)
                  (join ", " (column_types parsed)))
                ((pascal <> "Model") ∷ []))
            (parse_fields fields))
        (resolve_names domain name)

  unfoldable pub generate_repository : String → String → String → Generator
  generate_repository domain name fields =
      with_names
        (λ snake pascal.
          with_fields
            (λ parsed.
              write_layer domain "repositories" (snake <> "_repository")
                (repository_text domain snake pascal (add_signature parsed)
                  (model_instantiation pascal parsed) (to_entity_fields parsed)
                  (uuid_import parsed))
                ((pascal <> "Repository") ∷ []))
            (parse_fields fields))
        (resolve_names domain name)

  unfoldable pub generate_schema : String → String → String → Generator
  generate_schema domain name fields =
      with_names
        (λ snake pascal.
          with_fields
            (λ parsed.
              write_layer domain "schemas" (snake <> "_schema")
                (schema_text pascal (create_fields parsed) (update_fields parsed)
                  (response_fields parsed))
                (("Create" <> pascal <> "Request")
                  ∷ ("Update" <> pascal <> "Request")
                  ∷ (pascal <> "Response")
                  ∷ []))
            (parse_fields fields))
        (resolve_names domain name)

  unfoldable pub generate_service : String → String → String → Generator
  generate_service domain name fields =
      with_names
        (λ snake pascal.
          write_layer domain "services" (snake <> "_service") (service_text domain snake pascal)
            ((pascal <> "Service") ∷ []))
        (resolve_names domain name)

  -- with `pluralize(snake).replace("_", "-")` as the prefix
  unfoldable pub generate_route : String → String → String → Generator
  generate_route domain name fields =
      with_names
        (λ snake pascal.
          write_layer domain "routes" (snake <> "_router")
            (route_text domain snake pascal (pluralize snake) (snake <> "_router")
              (replace "_" 1 "-" (pluralize snake)))
            ((snake <> "_router") ∷ []))
        (resolve_names domain name)

  abbrev merged_dependencies : String → String → String → Option String → Generator
  merged_dependencies path snake pascal none files = (none, files)
  merged_dependencies path snake pascal (some content) files = (
    some (path ∷ []),
    put path (rstrip_of 10 content <> "\n\n\n" <> render_block snake pascal) files,
  )

  abbrev dependencies_from : String → String → String → String → String → Generator
  dependencies_from domain path snake pascal content files =
      if contains content ("def get_" <> snake <> "_service(")
      then (some (path ∷ []), files)
      else merged_dependencies path snake pascal
          (merge_imports tools.parse content (required_imports domain snake pascal)) files

  unfoldable pub generate_dependencies : String → String → Generator
  generate_dependencies domain name =
      with_names
        (λ snake pascal files.
          dependencies_from domain (dependencies_path domain) snake pascal
            (text_or_empty (files (dependencies_path domain))) files)
        (resolve_names domain name)

  abbrev manifest_from : String → String → String → Option (List Statement) → Generator
  manifest_from domain model_class content none files = (none, files)
  manifest_from domain model_class content (some tree) files =
      edited "core/models.py" (register_model domain model_class content tree) files

  abbrev register_model_in : String → String → Option String → Generator
  register_model_in domain model_class none files = (some [], files)
  register_model_in domain model_class (some content) files =
      manifest_from domain model_class content (tools.parse content) files

  unfoldable pub register_model_file : String → String → Generator
  register_model_file domain model_class files =
      register_model_in domain model_class (files "core/models.py") files

  unfoldable pub register_router_file : String → String → Generator
  register_router_file domain router_var files =
      edited "core/api_versions.py"
        (router_text (register_router domain router_var (lines_of (files "core/api_versions.py"))))
        files

  abbrev pyproject_from : String → Option String → Generator
  pyproject_from domain none files = (some [], files)
  pyproject_from domain (some content) files =
      edited "pyproject.toml" (register_pyproject tools.lists_of domain content) files

  unfoldable pub register_pyproject_file : String → Generator
  register_pyproject_file domain files = pyproject_from domain (files "pyproject.toml") files

  unfoldable pub generate_domain : String → Generator
  generate_domain domain =
      if is_domain domain
      then then_paths (packages domain) (register_pyproject_file domain)
      else λ files. (none, files)

  unfoldable pub generate_layers : String → String → String → Generator
  generate_layers domain name fields = then_paths (generate_entity domain name fields) (
      then_paths (generate_model domain name fields) (
        then_paths (generate_repository domain name fields) (
          then_paths (generate_schema domain name fields) (
            then_paths (generate_service domain name fields) (generate_route domain name fields)))))

  unfoldable pub generate_all : String → String → String → Generator
  generate_all domain name fields =
      with_names
        (λ snake pascal. then_paths (generate_domain domain) (
          then_paths (generate_layers domain name fields) (
            then_paths (generate_dependencies domain name) (
              then_paths (register_model_file domain (pascal <> "Model"))
                (register_router_file domain (snake <> "_router"))))))
        (resolve_names domain name)
