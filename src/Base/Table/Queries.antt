-- ===== src/Base/Table/Queries.antt =====
-- What the statements on a table do to a predicate on its rows, and to a search.
use mathlib.Core.Path.{◌≡◌, refl}
use mathlib.Core.Logic.{inl, inr}
use mathlib.Core.Bool.{Bool, true, false}
use mathlib.Core.Option.{some}
use mathlib.Core.List.{List, [], ◌∷◌, ◌++◌}
use native.Mathlib.Omega.{arith}
use fasti_kit.Base.Tests.{Bool-cases}
use fasti_kit.Base.Lists.{All}
use fasti_kit.Base.Table.{find, update_where, delete_where, any}

module _ {ℓ κ} {R : Type ℓ} (P : R → Type κ) where
  -- An update keeps a predicate that it keeps on the rows of its `WHERE`.
  pub All-update_where :
      (p : R → Bool) (f : R → R) (rs : List R)
      → ((r : R) → p r ≡ true → P r → P (f r))
      → All P rs
      → All P (update_where p f rs)
  unfolding update_where
  All-update_where p f [] keep h = tt
  All-update_where p f (r ∷ rs) keep h = elim (Bool-cases (p r)) [
    | inl e ↦ rw e (keep r e h.0, All-update_where p f rs keep h.1)
    | inr e ↦ rw e (h.0, All-update_where p f rs keep h.1)
  ]

  pub All-delete_where : (p : R → Bool) (rs : List R) → All P rs → All P (delete_where p rs)
  unfolding delete_where
  All-delete_where p [] h = tt
  All-delete_where p (r ∷ rs) h = elim (Bool-cases (p r)) [
    | inl e ↦ rw e (All-delete_where p rs h.1)
    | inr e ↦ rw e (h.0, All-delete_where p rs h.1)
  ]

  -- what a delete leaves did not pass its `WHERE`
  pub All-kept :
      (p : R → Bool) (rs : List R) → All P rs → All (λ r. P r × (p r ≡ false)) (delete_where p rs)
  unfolding delete_where
  All-kept p [] h = tt
  All-kept p (r ∷ rs) h = elim (Bool-cases (p r)) [
    | inl e ↦ rw e (All-kept p rs h.1)
    | inr e ↦ rw e ((h.0, e), All-kept p rs h.1)
  ]

  -- a row that is found has the predicate of all rows
  pub All-find :
      (p : R → Bool) (rs : List R) (r : R) → All P rs → find p rs ≡ some r → P r × (p r ≡ true)
  unfolding find
  All-find p [] r h e = cc
  All-find p (x ∷ rs) r h e = elim (Bool-cases (p x)) [
    | inl t ↦ ground (arith, t)
    | inr t ↦ All-find p rs r h.1 (ground (arith, t))
  ]

module _ {ℓ} {R : Type ℓ} where
  -- no row passes the test
  pub All-any : (p : R → Bool) (rs : List R) → any p rs ≡ false → All (λ r. p r ≡ false) rs
  unfolding any
  All-any p [] h = tt
  All-any p (r ∷ rs) h = elim (Bool-cases (p r)) [
    | inl e ↦ ground (arith, e)
    | inr e ↦ (e, All-any p rs (ground (arith, e)))
  ]

  pub any-append :
      (p : R → Bool) (rs : List R) (r : R) → any p rs ≡ true → any p (rs ++ r ∷ []) ≡ true
  unfolding any
  any-append p [] r h = cc
  any-append p (x ∷ rs) r h = ground (arith, any-append p rs r)

  -- the rows that a test sees are the same after an update that the test does not see
  pub any-update_where :
      (q p : R → Bool) (f : R → R) (rs : List R)
      → ((r : R) → p r ≡ true → q (f r) ≡ q r)
      → any q (update_where p f rs) ≡ any q rs
  unfolding any update_where
  any-update_where q p f [] same = refl
  any-update_where q p f (r ∷ rs) same = elim (Bool-cases (p r)) [
    | inl e ↦ rw (e, same r e, any-update_where q p f rs same)
    | inr e ↦ rw (e, any-update_where q p f rs same)
  ]

  pub any-delete_where :
      (q p : R → Bool) (rs : List R)
      → ((r : R) → q r ≡ true → p r ≡ false)
      → any q rs ≡ true
      → any q (delete_where p rs) ≡ true
  unfolding any delete_where
  any-delete_where q p [] apart h = h
  any-delete_where q p (r ∷ rs) apart h = ground (arith, apart r, any-delete_where q p rs apart)

  pub find-any : (p : R → Bool) (rs : List R) (r : R) → find p rs ≡ some r → any p rs ≡ true
  unfolding find any
  find-any p [] r h = cc
  find-any p (x ∷ rs) r h = ground (arith, find-any p rs r)
