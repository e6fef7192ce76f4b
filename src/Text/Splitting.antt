-- ===== src/Text/Splitting.antt =====
-- Joining and splitting: what `split` makes of the texts that `join` puts together.
use Prim.Native.Char.{Char, code}
use text.Mathlib.TextLemmas.{nil-append, cons-append}
use fasti_kit.Text.{split_by, split, join}
use fasti_kit.Base.{
  ℕ, String, ◌<>◌, ◌≡◌, refl, inl, inr, Bool, true, false, List, [], ◌∷◌, ◌++◌, Bool-cases, nat_eq,
  ◌==◌, ap, ◌∙◌,
}
use fasti_kit.Base.Lists.{All}

-- no character of the text passes the test
abbrev pub Free : (ℕ → Bool) → String → Type 0
Free is_sep String.[] = Unit
Free is_sep (String.◌∷◌ c s) = (is_sep (code c) ≡ false) × Free is_sep s

split_by-part :
    (is_sep : ℕ → Bool) (s : String)
    → (part : String) × (parts : List String) × (split_by is_sep s ≡ part ∷ parts)
unfolding split_by
split_by-part is_sep String.[] = (String.[], [], refl)
split_by-part is_sep (String.◌∷◌ c s) = elim (Bool-cases (is_sep (code c))) [
  | inl e ↦ rw e (String.[], split_by is_sep s, refl)
  | inr e ↦
      let (part, parts, h) = split_by-part is_sep s in rw (e, h) (String.◌∷◌ c part, parts, refl)
]

pub split_by-joined :
    (is_sep : ℕ → Bool) (a : String) (c : Char) (b : String)
    → is_sep (code c) ≡ true
    → split_by is_sep (a <> String.◌∷◌ c b) ≡ split_by is_sep a ++ split_by is_sep b
unfolding split_by
split_by-joined is_sep String.[] c b h = rw (nil-append (String.◌∷◌ c b), h) refl
split_by-joined is_sep (String.◌∷◌ d a) c b h =
    let ih = split_by-joined is_sep a c b h in
    elim (Bool-cases (is_sep (code d))) [
      | inl e ↦ rw (cons-append d a (String.◌∷◌ c b), e, ih) refl
      | inr e ↦
          let (part, parts, k) = split_by-part is_sep a in
          rw (cons-append d a (String.◌∷◌ c b), e, ih, k) refl
    ]

pub split_by-Free : (is_sep : ℕ → Bool) (a : String) → Free is_sep a → split_by is_sep a ≡ a ∷ []
unfolding split_by
split_by-Free is_sep String.[] free = refl
split_by-Free is_sep (String.◌∷◌ c a) (keeps, free) = rw (keeps, split_by-Free is_sep a free) refl

-- the test of `split` at a comma
abbrev pub is_comma : ℕ → Bool
is_comma c = c == 44

pub comma-append : (b : String) → "," <> b ≡ String.◌∷◌ "," b
comma-append b = cons-append "," String.[] b ∙ ap (String.◌∷◌ ",") (nil-append b)

pub split-comma : (a b : String) → split (a <> "," <> b) 44 ≡ split a 44 ++ split b 44
split-comma a b = rw (comma-append b) (split_by-joined is_comma a "," b refl)

pub split-join :
    (part : String) (parts : List String)
    → All (Free is_comma) (part ∷ parts)
    → split (join "," (part ∷ parts)) 44 ≡ part ∷ parts
unfolding join
split-join part [] (free, _) = split_by-Free is_comma part free
split-join part (next ∷ parts) (free, rest) =
    split-comma part (join "," (next ∷ parts))
    ∙ rw (split_by-Free is_comma part free, split-join next parts rest) refl
