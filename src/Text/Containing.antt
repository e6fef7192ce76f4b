-- ===== src/Text/Containing.antt =====
-- Parts of texts.
use text.Mathlib.TextLemmas.{cons-append, nil-append}
use fasti_kit.Base.{
  ℕ, zero, suc, String, ◌<>◌, true, Option, none, some, List, [], ◌∷◌, map, ◌≡◌, refl, sym, subst,
  inl, inr, arith, string_eq, nat_eq, Bool-cases,
}
use fasti_kit.Text.{starts_with, contains, join}

abbrev pub get_elem? {ℓ} : {A : Type ℓ} → List A → ℕ → Option A
get_elem? [] i = none
get_elem? (x ∷ xs) zero = some x
get_elem? (x ∷ xs) (suc i) = get_elem? xs i

pub get_elem?-map :
    {A B : Type 0} (f : A → B) (xs : List A) (i : ℕ) (x : A)
    → get_elem? xs i ≡ some x
    → get_elem? (map f xs) i ≡ some (f x)
get_elem?-map f [] i x h = cc
get_elem?-map f (y ∷ ys) zero x h = cc
get_elem?-map f (y ∷ ys) (suc i) x h = get_elem?-map f ys i x h

starts_with-append :
    (s t prefix : String) → starts_with s prefix ≡ true → starts_with (s <> t) prefix ≡ true
unfolding starts_with
starts_with-append s t String.[] h = refl
starts_with-append String.[] t (String.◌∷◌ c prefix) h = cc
starts_with-append (String.◌∷◌ d s) t (String.◌∷◌ c prefix) h =
    rw cons-append (ground (arith, starts_with-append s t prefix))

contains-empty : (s : String) → contains s "" ≡ true
unfolding contains starts_with
contains-empty String.[] = refl
contains-empty (String.◌∷◌ c s) = refl

pub contains-append : (s t part : String) → contains s part ≡ true → contains (s <> t) part ≡ true
unfolding contains starts_with
contains-append String.[] t part h =
    subst (λ p. contains ("" <> t) p ≡ true) (sym ((string_eq.decides part "").0 h))
      (contains-empty ("" <> t))
contains-append (String.◌∷◌ c s) t part h = elim (Bool-cases (starts_with (String.◌∷◌ c s) part)) [
  | inl here ↦
      let later : starts_with (String.◌∷◌ c s <> t) part ≡ true =
        starts_with-append (String.◌∷◌ c s) t part here in
      rw cons-append (ground (arith, rw cons-append at later))
  | inr behind ↦ rw cons-append (ground (arith, contains-append s t part))
]

pub append-contains : (s t part : String) → contains t part ≡ true → contains (s <> t) part ≡ true
unfolding contains
append-contains String.[] t part h = rw nil-append h
append-contains (String.◌∷◌ c s) t part h =
    rw cons-append (ground (arith, append-contains s t part))

starts_with_self : (s : String) → starts_with s s ≡ true
unfolding starts_with
starts_with_self String.[] = refl
starts_with_self (String.◌∷◌ c s) = ground (arith, starts_with_self s)

pub contains_self : (s : String) → contains s s ≡ true
unfolding contains
contains_self String.[] = refl
contains_self (String.◌∷◌ c s) = ground (arith, starts_with_self (String.◌∷◌ c s))

pub contains-join :
    (sep : String) (lines : List String) (i : ℕ) (line part : String)
    → get_elem? lines i ≡ some line
    → contains line part ≡ true
    → contains (join sep lines) part ≡ true
unfolding join
contains-join sep [] i line part at h = cc
contains-join sep (l ∷ []) zero line part at h = ground (arith, at, h)
contains-join sep (l ∷ []) (suc i) line part at h = cc
contains-join sep (l ∷ next ∷ lines) zero line part at h =
    contains-append l (sep <> join sep (next ∷ lines)) part (ground (arith, at, h))
contains-join sep (l ∷ next ∷ lines) (suc i) line part at h =
    append-contains l (sep <> join sep (next ∷ lines)) part (
      append-contains sep (join sep (next ∷ lines)) part
        (contains-join sep (next ∷ lines) i line part at h))
