-- ===== src/Generators/Merging.antt =====
-- What `update_init` makes of the names of a package.
use fasti_kit.Generators.Router.{has}
use fasti_kit.Generators.Init.{Init, at_module, add_missing, merge}
use fasti_kit.Base.{
  String, ◌≡◌, refl, sym, subst, ◌∙◌, false, Bool, true, List, [], ◌∷◌, ◌++◌, Bool-cases, inl, inr,
  arith, if◌then◌else◌, string_eq, nat_eq, ◌==◌,
}
use mathlib.Core.List.{append-nil, append_assoc}
use fasti_kit.Base.Table.{any}
use fasti_kit.Base.Table.Queries.{any-append}
use fasti_kit.Base.Lists.{All}
use text.Mathlib.TextPositions.{eq_refl}

any-last :
    {A : Type 0} (p : A → Bool) (xs : List A) (x : A) → p x ≡ true → any p (xs ++ x ∷ []) ≡ true
unfolding any
any-last p [] x h = rw h refl
any-last p (y ∷ xs) x h = ground (arith, any-last p xs x h)

-- a name that is there stays
grown :
    (symbol other : String) (names : List String)
    → has other names ≡ true
    → has other (if has symbol names then names else names ++ symbol ∷ []) ≡ true
grown symbol other names h = elim (Bool-cases (has symbol names)) [
  | inl e ↦ rw e h
  | inr e ↦ rw e (any-append _ names symbol h)
]

added :
    (symbol : String) (names : List String)
    → has symbol (if has symbol names then names else names ++ symbol ∷ []) ≡ true
added symbol names = elim (Bool-cases (has symbol names)) [
  | inl e ↦ rw e e
  | inr e ↦ rw e (any-last _ names symbol (eq_refl symbol))
]

add_missing-keeps :
    (symbols names : List String) (other : String)
    → has other names ≡ true
    → has other (add_missing symbols names) ≡ true
unfolding add_missing
add_missing-keeps [] names other h = h
add_missing-keeps (symbol ∷ symbols) names other h =
    add_missing-keeps symbols _ other (grown symbol other names h)

add_missing-All :
    (symbols names : List String) → All (λ s. has s (add_missing symbols names) ≡ true) symbols
unfolding add_missing
add_missing-All [] names = tt
add_missing-All (symbol ∷ symbols) names =
    (add_missing-keeps symbols _ symbol (added symbol names), add_missing-All symbols _)

add_missing-none :
    (symbols names : List String)
    → All (λ s. has s names ≡ true) symbols
    → add_missing symbols names ≡ names
unfolding add_missing
add_missing-none [] names h = refl
add_missing-none (symbol ∷ symbols) names (h, hs) = rw h (add_missing-none symbols names hs)

add_missing_idem :
    (symbols names : List String)
    → add_missing symbols (add_missing symbols names) ≡ add_missing symbols names
add_missing_idem symbols names =
    add_missing-none symbols (add_missing symbols names) (add_missing-All symbols names)

-- the names that are there stay in their order, in front of the new ones
add_missing-extends :
    (symbols names : List String) → (new : List String) × (add_missing symbols names ≡ names ++ new)
unfolding add_missing
add_missing-extends [] names = ([], sym (append-nil names))
add_missing-extends (symbol ∷ symbols) names = elim (Bool-cases (has symbol names)) [
  | inl e ↦ rw e (add_missing-extends symbols names)
  | inr e ↦
      let (new, h) = add_missing-extends symbols (names ++ symbol ∷ []) in
      rw e (symbol ∷ new, h ∙ append_assoc names (symbol ∷ []) new)
]

at_module_idem :
    (module_ : String) (change : List String → List String) (imports : List (String × List String))
    → ((names : List String) → change (change names) ≡ change names)
    → at_module module_ change (at_module module_ change imports) ≡ at_module module_ change imports
unfolding at_module
at_module_idem module_ change [] h = rw (eq_refl module_, h []) refl
at_module_idem module_ change ((name, names) ∷ imports) h = elim (Bool-cases (name == module_)) [
  | inl e ↦ rw e (rw (e, h names) refl)
  | inr e ↦ rw e (rw (e, at_module_idem module_ change imports h) refl)
]

-- the names that the imports give a module
unfoldable pub names_of : String → List (String × List String) → List String
names_of module_ [] = []
names_of module_ ((name, names) ∷ imports) =
    let rest = names_of module_ imports in if name == module_ then names else rest

names_of-at_module :
    (module_ : String) (change : List String → List String) (imports : List (String × List String))
    → names_of module_ (at_module module_ change imports) ≡ change (names_of module_ imports)
unfolding names_of at_module
names_of-at_module module_ change [] = rw (eq_refl module_) refl
names_of-at_module module_ change ((name, names) ∷ imports) = elim (Bool-cases (name == module_)) [
  | inl e ↦ rw e (rw e refl)
  | inr e ↦ rw e (rw e (names_of-at_module module_ change imports))
]

other-at_module :
    (module_ other : String) (change : List String → List String)
    (imports : List (String × List String))
    → (module_ == other) ≡ false
    → names_of other (at_module module_ change imports) ≡ names_of other imports
unfolding names_of at_module
other-at_module module_ other change [] apart = rw apart refl
other-at_module module_ other change ((name, names) ∷ imports) apart =
    elim (Bool-cases (name == module_)) [
      | inl e ↦
          let same = (string_eq.decides name module_).0 e in
          let off : (name == other) ≡ false = subst (λ n. (n == other) ≡ false) (sym same) apart in
          rw e (rw off refl)
      | inr e ↦ rw e (elim (Bool-cases (name == other)) [
        | inl k ↦ rw k refl
        | inr k ↦ rw k (other-at_module module_ other change imports apart)
      ])
    ]

-- After a merge, every symbol is imported from its module and stands in `__all__`. The names that the module
-- and `__all__` had stay in front, in their order; those of every other module are as before; and a second
-- merge of the same symbols changes nothing.
pub merge_adds :
    (module_ other : String) (symbols : List String) (init : Init)
    → (module_ == other) ≡ false
    → let after = merge module_ symbols init in
      All (λ s. has s (names_of module_ after.imports) ≡ true) symbols
      × All (λ s. has s after.all_names ≡ true) symbols
      × ((new : List String) × (names_of module_ after.imports
            ≡ names_of module_ init.imports ++ new))
      × (names_of other after.imports ≡ names_of other init.imports)
      × ((new : List String) × (after.all_names ≡ init.all_names ++ new))
      × (merge module_ symbols after ≡ after)
unfolding merge
merge_adds module_ other symbols init apart = (
  rw (names_of-at_module module_ (add_missing symbols) init.imports)
      (add_missing-All symbols (names_of module_ init.imports)),
  add_missing-All symbols init.all_names,
  rw (names_of-at_module module_ (add_missing symbols) init.imports)
      (add_missing-extends symbols (names_of module_ init.imports)),
  other-at_module module_ other (add_missing symbols) init.imports apart,
  add_missing-extends symbols init.all_names,
  cc (
    at_module_idem module_ (add_missing symbols) init.imports (add_missing_idem symbols),
    add_missing_idem symbols init.all_names,
  ),
)
