-- ===== src/Generators/Wiring.antt =====
-- scripts/_boilerplate.py: the lines of core/api_versions.py after `register_router`.
use fasti_kit.Generators.Router.{
  import_line, include_line, is_import, is_router, has, insert, add_include, add_import, wire,
  register_lines, register_router, last_index,
}
use fasti_kit.Base.{
  ℕ, ◌+◌, ◌-◌, String, ◌≡◌, refl, ◌∙◌, Bool, true, false, ◌&&◌, Option, none, some, List, [], ◌∷◌,
  string_eq, nat_eq, ◌==◌, arith, Bool-cases, inl, inr, ◌⊎◌,
}
use fasti_kit.Base.Table.{any, select}
use text.Mathlib.TextPositions.{eq_refl}

insert-has : (at : ℕ) (line : String) (lines : List String) → has line (insert at line lines) ≡ true
unfolding insert any
insert-has at line [] = simp (eq_refl)
insert-has at line (l ∷ lines) = elim (Bool-cases (at == 0)) [
  | inl e ↦ rw e (ground (arith, eq_refl line))
  | inr e ↦ rw e (ground (arith, insert-has (at - 1) line lines))
]

insert-keeps :
    (at : ℕ) (line other : String) (lines : List String)
    → has other lines ≡ true
    → has other (insert at line lines) ≡ true
unfolding insert any
insert-keeps at line other [] h = ground (arith, h)
insert-keeps at line other (l ∷ lines) h = elim (Bool-cases (at == 0)) [
  | inl e ↦ rw e (ground (arith, h))
  | inr e ↦ rw e (ground (arith, h, insert-keeps (at - 1) line other lines))
]

insert-select :
    (p : String → Bool) (at : ℕ) (line : String) (lines : List String)
    → p line ≡ false
    → select p (insert at line lines) ≡ select p lines
unfolding insert select
insert-select p at line [] h = rw h refl
insert-select p at line (l ∷ lines) h = elim (Bool-cases (at == 0)) [
  | inl e ↦ rw (e, h) refl
  | inr e ↦ rw (e, insert-select p (at - 1) line lines h) refl
]

add_include-has : (line : String) (lines : List String) → has line (add_include line lines) ≡ true
unfolding add_include
add_include-has line lines = elim (Bool-cases (has line lines)) [
  | inl e ↦ rw e e
  | inr e ↦ rw e (insert-has _ line lines)
]

add_include-select :
    (p : String → Bool) (line : String) (lines : List String)
    → p line ≡ false
    → select p (add_include line lines) ≡ select p lines
unfolding add_include
add_include-select p line lines h = elim (Bool-cases (has line lines)) [
  | inl e ↦ rw e refl
  | inr e ↦ rw e (insert-select p _ line lines h)
]

add_import-has :
    (at : ℕ) (line : String) (lines : List String) → has line (add_import at line lines) ≡ true
unfolding add_import
add_import-has at line lines = elim (Bool-cases (has line lines)) [
  | inl e ↦ rw e e
  | inr e ↦ rw e (insert-has at line lines)
]

add_import-keeps :
    (at : ℕ) (line other : String) (lines : List String)
    → has other lines ≡ true
    → has other (add_import at line lines) ≡ true
unfolding add_import
add_import-keeps at line other lines h = elim (Bool-cases (has line lines)) [
  | inl e ↦ rw e h
  | inr e ↦ rw e (insert-keeps at line other lines h)
]

add_import-select :
    (p : String → Bool) (at : ℕ) (line : String) (lines : List String)
    → p line ≡ false
    → select p (add_import at line lines) ≡ select p lines
unfolding add_import
add_import-select p at line lines h = elim (Bool-cases (has line lines)) [
  | inl e ↦ rw e refl
  | inr e ↦ rw e (insert-select p at line lines h)
]

-- the lines have both of the lines to be wired, and are else what they were
pub record Wired (imported included : String) (before after : List String) : Type 0 where
  pub has_import : has imported after ≡ true
  pub has_include : has included after ≡ true
  pub others :
      (p : String → Bool)
      → p imported ≡ false
      → p included ≡ false
      → select p after ≡ select p before

wire_cases :
    (imported included : String) (at : Option ℕ) (lines : List String)
    → (wire imported included at lines ≡ (lines, false))
      ⊎ ((after : List String) × (wire imported included at lines ≡ (after, true))
          × Wired imported included lines after)
wire_cases imported included none lines = inl refl
wire_cases imported included (some i) lines = elim (Bool-cases (any is_router lines)) [
  | inl e ↦ rw e (
      inr (
        _,
        refl,
        record {
          has_import = add_import-has (i + 1) imported (add_include included lines);
          has_include =
              add_import-keeps (i + 1) imported included _ (add_include-has included lines);
          others = λ p a b.
              add_import-select p (i + 1) imported (add_include included lines) a
              ∙ add_include-select p included lines b;
        },
      ))
  | inr e ↦ rw e (inl refl)
]

register_cases :
    (imported included : String) (lines : List String)
    → (register_lines imported included lines ≡ (lines, false))
      ⊎ ((after : List String) × (register_lines imported included lines ≡ (after, true))
          × Wired imported included lines after)
unfolding register_lines
register_cases imported included lines =
    elim (Bool-cases (has imported lines && has included lines)) [
      | inl e ↦ rw e (inl refl)
      | inr e ↦ rw e (wire_cases imported included (last_index is_import lines) lines)
    ]

wired_before :
    (imported included : String) (lines : List String)
    → has imported lines ≡ true
    → has included lines ≡ true
    → register_lines imported included lines ≡ (lines, false)
unfolding register_lines
wired_before imported included lines h k = rw (h, k) refl

-- To register a router a second time changes nothing, and writes no file.
pub register_router_again :
    (domain router_var : String) (file : Option (List String))
    → let first = (register_router domain router_var file).0 in
      register_router domain router_var first ≡ (first, false)
unfolding register_router
register_router_again domain router_var none = refl
register_router_again domain router_var (some lines) =
    let imported = import_line domain router_var in
    let included = include_line router_var in
    elim (register_cases imported included lines) [
      | inl same ↦ rw same (rw same refl)
      | inr (after, done, wired) ↦
          rw done
            (rw (wired_before imported included after wired.has_import wired.has_include) refl)
    ]

-- If `register_router` reports a file as written, it has both lines of the router now, and all other lines
-- in their order as before; if it reports none, the file is as before.
pub register_router_writes :
    (domain router_var : String) (lines : List String)
    → ((after : List String) × (register_router domain router_var (some lines) ≡ (some after, true))
        × Wired (import_line domain router_var) (include_line router_var) lines after)
      ⊎ (register_router domain router_var (some lines) ≡ (some lines, false))
unfolding register_router
register_router_writes domain router_var lines =
    elim (register_cases (import_line domain router_var) (include_line router_var) lines) [
      | inl same ↦ inr (rw same refl)
      | inr (after, done, wired) ↦ inl (after, rw done refl, wired)
    ]
