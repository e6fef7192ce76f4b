-- ===== src/Generators/Project/Kept.antt =====
-- scripts/create_all.py: the files that were there, after `generate_all`.
use fasti_kit.Base.{
  String, ◌<>◌, false, Option, none, some, List, ◌≡◌, inl, inr, string_eq, Bool-cases,
}
use fasti_kit.Generators.Imports.{Statement, merge_imports, register_model}
use fasti_kit.Generators.Pyproject.{register_pyproject}
use fasti_kit.Generators.Router.{register_router}
use fasti_kit.Generators.Layers.Dependencies.{required_imports}
use fasti_kit.Generators.Names.{is_domain, resolve_names}
use fasti_kit.Text.{contains}
use fasti_kit.Generators.Files.{Files, text_or_empty, dependencies_path, router_text, lines_of}
use fasti_kit.Generators.Project.{
  Tools, merged_dependencies, dependencies_from, generate_dependencies, manifest_from,
  register_model_in, register_model_file, register_router_file, pyproject_from,
  register_pyproject_file, generate_domain, generate_all,
}
use fasti_kit.Generators.Files.Keeping.{
  Holds, Keeps, put-Holds, then-Keeps, names-Keeps, edited-Keeps, packages-Keeps,
}
use fasti_kit.Generators.Project.Layered.{is_shared, apart_from, layers-Keeps}

module _ (path content : String) (tools : Tools) (domain : String)
    (unshared : is_shared domain path ≡ false) where
  merged_dependencies-Keeps :
      (snake pascal : String) (text : Option String)
      → Keeps path content (merged_dependencies tools (dependencies_path domain) snake pascal text)
  merged_dependencies-Keeps snake pascal none files h = h
  merged_dependencies-Keeps snake pascal (some text) files h =
      put-Holds path content (dependencies_path domain) _ files
        (apart_from path content tools domain unshared).0 h

  dependencies_from-Keeps :
      (snake pascal text : String)
      → Keeps path content
          (dependencies_from tools domain (dependencies_path domain) snake pascal text)
  dependencies_from-Keeps snake pascal text files h =
      elim (Bool-cases (contains text ("def get_" <> snake <> "_service("))) [
        | inl there ↦ rw there h
        | inr missing ↦ rw missing (
            merged_dependencies-Keeps snake pascal
              (merge_imports tools.parse text (required_imports domain snake pascal)) files h)
      ]

  dependencies-Keeps :
      (name : String) → Keeps path content (generate_dependencies tools domain name)
  unfolding generate_dependencies
  dependencies-Keeps name files h =
      names-Keeps path content _
        (λ snake pascal f k.
          dependencies_from-Keeps snake pascal (text_or_empty (f (dependencies_path domain))) f k)
        (resolve_names domain name) files h

  manifest-Keeps :
      (model_class text : String) (tree : Option (List Statement))
      → Keeps path content (manifest_from tools domain model_class text tree)
  manifest-Keeps model_class text none files h = h
  manifest-Keeps model_class text (some tree) files h =
      edited-Keeps path content "core/models.py" (register_model domain model_class text tree)
        (apart_from path content tools domain unshared).1 files h

  register_model-Keeps :
      (model_class : String) → Keeps path content (register_model_file tools domain model_class)
  unfolding register_model_file
  register_model-Keeps model_class files h = from_text (files "core/models.py")
    where
      from_text :
          (text : Option String)
          → Holds path content (register_model_in tools domain model_class text files).1
      from_text none = h
      from_text (some text) = manifest-Keeps model_class text (tools.parse text) files h

  router-Keeps :
      (router_var : String) → Keeps path content (register_router_file tools domain router_var)
  unfolding register_router_file
  router-Keeps router_var files h =
      edited-Keeps path content "core/api_versions.py"
        (router_text (register_router domain router_var (lines_of (files "core/api_versions.py"))))
        (apart_from path content tools domain unshared).2 files h

  pyproject-Keeps : Keeps path content (register_pyproject_file tools domain)
  unfolding register_pyproject_file
  pyproject-Keeps files h = from_text (files "pyproject.toml")
    where
      from_text :
          (text : Option String) → Holds path content (pyproject_from tools domain text files).1
      from_text none = h
      from_text (some text) =
          edited-Keeps path content "pyproject.toml" (register_pyproject tools.lists_of domain text)
            (apart_from path content tools domain unshared).3 files h

  domain-Keeps : Keeps path content (generate_domain tools domain)
  unfolding generate_domain
  domain-Keeps files h = elim (Bool-cases (is_domain domain)) [
    | inl valid ↦
        rw valid
          (then-Keeps path content _ _ (packages-Keeps path content domain) pyproject-Keeps files h)
    | inr invalid ↦ rw invalid h
  ]

-- `generate_all` overwrites no file that is there, whatever is parsed and however it ends: but for the
-- dependencies of the domain, the `__init__.py` of its layers, core/models.py,
-- core/api_versions.py and pyproject.toml, each file keeps its content.
pub generate_all_keeps :
    (tools : Tools) (domain name fields path content : String) (files : Files)
    → is_shared domain path ≡ false
    → files path ≡ some content
    → (generate_all tools domain name fields files).1 path ≡ some content
unfolding generate_all
generate_all_keeps tools domain name fields path content files unshared h =
    names-Keeps path content _
      (λ snake pascal.
        then-Keeps path content _ _ (domain-Keeps path content tools domain unshared) (
          then-Keeps path content _ _ (layers-Keeps path content tools domain unshared name fields)
            (then-Keeps path content _ _
              (dependencies-Keeps path content tools domain unshared name)
              (then-Keeps path content _ _
                (register_model-Keeps path content tools domain unshared (pascal <> "Model"))
                (router-Keeps path content tools domain unshared (snake <> "_router"))))))
      (resolve_names domain name) files h
