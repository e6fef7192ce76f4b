-- ===== src/Text/Words.antt =====
-- Texts without white space or marks.
use Prim.Native.Char.{code}
use text.Mathlib.TextEquality.{eq_iff}
use text.Mathlib.TextLemmas.{nil-append, cons-append}
use fasti_kit.Text.{is_space, lstrip, rstrip, strip}
use fasti_kit.Text.Splitting.{Free}
use fasti_kit.Base.{
  ℕ, String, ◌<>◌, ◌≡◌, refl, ◌∙◌, ap, Bool, false, arith, string_eq, nat_eq, ◌==◌, ◌≢◌,
}

pub Free-append : (p : ℕ → Bool) (a b : String) → Free p a → Free p b → Free p (a <> b)
Free-append p String.[] b h k = rw (nil-append b) k
Free-append p (String.◌∷◌ c a) b (h, hs) k = rw (cons-append c a b) (h, Free-append p a b hs k)

pub Free-weaken :
    (p q : ℕ → Bool) (a : String) → ((c : ℕ) → p c ≡ false → q c ≡ false) → Free p a → Free q a
Free-weaken p q String.[] w h = tt
Free-weaken p q (String.◌∷◌ c a) w (h, hs) = (w (code c) h, Free-weaken p q a w hs)

lstrip-Free : (s : String) → Free is_space s → lstrip s ≡ s
unfolding lstrip
lstrip-Free String.[] h = refl
lstrip-Free (String.◌∷◌ c s) (h, hs) = rw h refl

rstrip-Free : (s : String) → Free is_space s → rstrip s ≡ s
unfolding rstrip
rstrip-Free String.[] h = refl
rstrip-Free (String.◌∷◌ c s) (h, hs) = rw (rstrip-Free s hs, h) refl

pub strip-Free : (s : String) → Free is_space s → strip s ≡ s
strip-Free s h = ap rstrip (lstrip-Free s h) ∙ rstrip-Free s h

pub not_empty : (s : String) → s ≢ "" → (s == "") ≡ false
not_empty s h = ground (arith, eq_iff s "", h)
