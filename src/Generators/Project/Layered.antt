-- ===== src/Generators/Project/Layered.antt =====
-- scripts/create_*.py: the files that were there, after the layers of an entity.
use fasti_kit.Base.{
  String, ◌<>◌, Bool, false, Option, none, some, List, ◌∷◌, map, ◌≡◌, arith, string_eq, ◌==◌,
}
use fasti_kit.Base.Table.{any}
use fasti_kit.Generators.Fields.{Field, parse_fields}
use fasti_kit.Generators.Init.{Node, update_init}
use fasti_kit.Generators.Names.{resolve_names}
use fasti_kit.Generators.Files.{
  init_path, with_names, with_fields, dependencies_path, domain_layers,
}
use fasti_kit.Generators.Project.{
  Tools, merged_init, init_from, update_init_file, write_layer, generate_entity, generate_model,
  generate_repository, generate_schema, generate_service, generate_route, generate_layers,
}
use fasti_kit.Generators.Files.Keeping.{
  Keeps, put-Holds, write_new_file-Holds, then-Keeps, names-Keeps, fields-Keeps,
}

-- The files that the generators edit: the dependencies of the domain, the manifest of the models, the
-- routers, pyproject.toml, and the `__init__.py` of the layers.
abbrev shared_paths : String → List String
shared_paths domain =
    dependencies_path domain
    ∷ "core/models.py"
    ∷ "core/api_versions.py"
    ∷ "pyproject.toml"
    ∷ map (init_path domain) domain_layers

unfoldable pub is_shared : String → String → Bool
unfolding any
is_shared domain path = any (λ s. s == path) (shared_paths domain)

module _ (path content : String) (tools : Tools) where
  merged-Keeps :
      (q module_ : String) (symbols : List String) (nodes : Option (List Node))
      → (q == path) ≡ false
      → Keeps path content (merged_init tools q module_ symbols nodes)
  merged-Keeps q module_ symbols none apart files h = h
  merged-Keeps q module_ symbols (some nodes) apart files h =
      put-Holds path content q (update_init tools.repr (some nodes) module_ symbols) files apart h

  init-Keeps :
      (q module_ : String) (symbols : List String) (text : Option String)
      → (q == path) ≡ false
      → Keeps path content (init_from tools q module_ symbols text)
  init-Keeps q module_ symbols none apart files h =
      put-Holds path content q (update_init tools.repr none module_ symbols) files apart h
  init-Keeps q module_ symbols (some text) apart files h =
      merged-Keeps q module_ symbols (tools.nodes text) apart files h

  layer-Keeps :
      (domain layer module_ text : String) (symbols : List String)
      → (init_path domain layer == path) ≡ false
      → Keeps path content (write_layer tools domain layer module_ text symbols)
  unfolding write_layer update_init_file
  layer-Keeps domain layer module_ text symbols apart files h =
      then-Keeps path content _ _
        (λ f k.
          write_new_file-Holds path content (domain <> "/" <> layer <> "/" <> module_ <> ".py") text
            f k)
        (λ f k.
          init-Keeps (init_path domain layer) module_ symbols (f (init_path domain layer)) apart f
            k)
        files h

  module _ (domain : String) (unshared : is_shared domain path ≡ false) where
    -- the path is none of the shared ones
    pub apart_from :
        ((dependencies_path domain == path) ≡ false)
        × (("core/models.py" == path) ≡ false)
        × (("core/api_versions.py" == path) ≡ false)
        × (("pyproject.toml" == path) ≡ false)
        × ((init_path domain "entities" == path) ≡ false)
        × ((init_path domain "models" == path) ≡ false)
        × ((init_path domain "repositories" == path) ≡ false)
        × ((init_path domain "schemas" == path) ≡ false)
        × ((init_path domain "services" == path) ≡ false)
        × ((init_path domain "routes" == path) ≡ false)
    unfolding is_shared
    apart_from = ground (arith, unshared)

    -- a layer that is made from the parsed fields
    parsed-Keeps :
        (module_of : String → String)
        → (symbols_of : String → String → List String)
        → (text_of : String → String → List Field → String) → (layer : String)
        → (init_path domain layer == path) ≡ false
        → (names : Option (String × String)) (parsed : Option (List Field))
        → Keeps path content (
            with_names
              (λ snake pascal.
                with_fields
                  (λ fields.
                    write_layer tools domain layer
                      (module_of snake)
                      (text_of snake pascal fields)
                      (symbols_of snake pascal))
                  parsed)
              names)
    parsed-Keeps module_of symbols_of text_of layer apart names parsed files h =
        names-Keeps path content _
          (λ snake pascal.
            fields-Keeps path content _ (λ fields. layer-Keeps domain layer _ _ _ apart) parsed)
          names files h

    entity-Keeps :
        (name fields : String) → Keeps path content (generate_entity tools domain name fields)
    unfolding generate_entity
    entity-Keeps name fields =
        parsed-Keeps _ _ _ "entities" apart_from.4 (resolve_names domain name) (parse_fields fields)

    model-Keeps :
        (name fields : String) → Keeps path content (generate_model tools domain name fields)
    unfolding generate_model
    model-Keeps name fields =
        parsed-Keeps _ _ _ "models" apart_from.5 (resolve_names domain name) (parse_fields fields)

    repository-Keeps :
        (name fields : String) → Keeps path content (generate_repository tools domain name fields)
    unfolding generate_repository
    repository-Keeps name fields =
        parsed-Keeps _ _ _ "repositories" apart_from.6 (resolve_names domain name)
          (parse_fields fields)

    schema-Keeps :
        (name fields : String) → Keeps path content (generate_schema tools domain name fields)
    unfolding generate_schema
    schema-Keeps name fields =
        parsed-Keeps _ _ _ "schemas" apart_from.7 (resolve_names domain name) (parse_fields fields)

    service-Keeps :
        (name fields : String) → Keeps path content (generate_service tools domain name fields)
    unfolding generate_service
    service-Keeps name fields files h =
        names-Keeps path content _
          (λ snake pascal. layer-Keeps domain "services" _ _ _ apart_from.8)
          (resolve_names domain name) files h

    route-Keeps :
        (name fields : String) → Keeps path content (generate_route tools domain name fields)
    unfolding generate_route
    route-Keeps name fields files h =
        names-Keeps path content _ (λ snake pascal. layer-Keeps domain "routes" _ _ _ apart_from.9)
          (resolve_names domain name) files h

    pub layers-Keeps :
        (name fields : String) → Keeps path content (generate_layers tools domain name fields)
    unfolding generate_layers
    layers-Keeps name fields = then-Keeps path content _ _ (entity-Keeps name fields) (
        then-Keeps path content _ _ (model-Keeps name fields) (
          then-Keeps path content _ _ (repository-Keeps name fields) (
            then-Keeps path content _ _ (schema-Keeps name fields)
              (then-Keeps path content _ _ (service-Keeps name fields) (route-Keeps name fields)))))
