-- ===== src/Generators/Files/Keeping.antt =====
-- What leaves the content of one file as it is.
use fasti_kit.Base.{
  String, false, Option, none, some, List, [], ◌∷◌, ◌≡◌, ap, ◌∙◌, inl, inr, is_none, string_eq,
  ◌==◌, Bool-cases,
}
use fasti_kit.Generators.Fields.{Field}
use fasti_kit.Generators.Files.{
  Files, Generator, put, and_after, then_paths, write_new_file, init_path, with_names, with_fields,
  dependencies_path, edited, domain_layers, touch_layers, packages,
}

module _ (path content : String) where
  -- the file stays as it is
  abbrev pub Holds : Files → Type 0
  Holds files = files path ≡ some content

  abbrev pub Keeps : Generator → Type 0
  Keeps generate = (files : Files) → Holds files → Holds (generate files).1

  pub put-Holds :
      (q text : String) (files : Files)
      → (q == path) ≡ false
      → Holds files
      → Holds (put q text files)
  put-Holds q text files apart h = rw apart h

  pub write_new_file-Holds :
      (q text : String) (files : Files) → Holds files → Holds (write_new_file q text files)
  unfolding write_new_file
  write_new_file-Holds q text files h = elim (Bool-cases (q == path)) [
    | inl same ↦
        let there : files q ≡ some content = ap files ((string_eq.decides q path).0 same) ∙ h in
        rw there h
    | inr apart ↦ elim (Bool-cases (is_none (files q))) [
      | inr there ↦ rw there h
      | inl missing ↦ rw missing (put-Holds q text files apart h)
    ]
  ]

  pub after-Keeps :
      (next : Generator)
      → Keeps next
      → (paths : Option (List String)) (files : Files) → Holds files
      → Holds (and_after paths next files).1
  after-Keeps next keep none files h = h
  after-Keeps next keep (some paths) files h = keep files h

  pub then-Keeps :
      (first next : Generator) → Keeps first → Keeps next → Keeps (then_paths first next)
  unfolding then_paths
  then-Keeps first next keep_first keep_next files h =
      after-Keeps next keep_next (first files).0 (first files).1 (keep_first files h)

  pub names-Keeps :
      (generate : String → String → Generator)
      → ((snake pascal : String) → Keeps (generate snake pascal))
      → (names : Option (String × String)) → Keeps (with_names generate names)
  names-Keeps generate keep none files h = h
  names-Keeps generate keep (some (snake, pascal)) files h = keep snake pascal files h

  pub fields-Keeps :
      (generate : List Field → Generator)
      → ((parsed : List Field) → Keeps (generate parsed))
      → (fields : Option (List Field)) → Keeps (with_fields generate fields)
  fields-Keeps generate keep none files h = h
  fields-Keeps generate keep (some parsed) files h = keep parsed files h

  pub edited-Keeps :
      (q : String) (text : Option String) → (q == path) ≡ false → Keeps (edited q text)
  edited-Keeps q none apart files h = h
  edited-Keeps q (some text) apart files h = put-Holds q text files apart h

  pub touch_layers-Holds :
      (domain : String) (layers : List String) (files : Files)
      → Holds files
      → Holds (touch_layers domain layers files)
  unfolding touch_layers
  touch_layers-Holds domain [] files h = h
  touch_layers-Holds domain (layer ∷ layers) files h =
      touch_layers-Holds domain layers (write_new_file (init_path domain layer) "" files)
        (write_new_file-Holds (init_path domain layer) "" files h)

  pub packages-Keeps : (domain : String) → Keeps (packages domain)
  packages-Keeps domain files h =
      write_new_file-Holds (dependencies_path domain) "" (touch_layers domain domain_layers files)
        (touch_layers-Holds domain domain_layers files h)
