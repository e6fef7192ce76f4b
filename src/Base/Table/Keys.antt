-- ===== src/Base/Table/Keys.antt =====
-- A column whose values are distinct, through each statement.
use mathlib.Core.Path.{◌≡◌, refl, sym, ◌∙◌, subst}
use mathlib.Core.Logic.{◌≢◌, ◌⊎◌, inl, inr}
use mathlib.Core.Bool.{Bool, true, false, false≢true}
use mathlib.Core.Option.{none, some}
use mathlib.Core.List.{List, [], ◌∷◌, ◌++◌}
use fasti_kit.Base.Tests.{Bool-cases, Eq, ◌==◌}
use fasti_kit.Base.Lists.{All, All-append, All-mono}
use fasti_kit.Base.Table.{find, select, update_where, delete_where, any}
use fasti_kit.Base.Table.Queries.{All-any, All-update_where, All-delete_where}

module _ {ℓ κ} {R : Type ℓ} {K : Type κ} (key : R → K) where
  -- no row has the key
  abbrev pub Lacks : K → List R → Type κ
  Lacks k = All (λ r. key r ≢ k)

  abbrev pub Unique : List R → Type κ
  Unique [] = Unit
  Unique (r ∷ rs) = Lacks (key r) rs × Unique rs

  pub Unique-insert : (rs : List R) (r : R) → Unique rs → Lacks (key r) rs → Unique (rs ++ r ∷ [])
  Unique-insert [] r u h = (tt, tt)
  Unique-insert (x ∷ rs) r u h = (
    All-append (λ y. key y ≢ key x) rs (r ∷ []) u.0 ((λ e. h.0 (sym e)), tt),
    Unique-insert rs r u.1 h.1,
  )

  pub Unique-delete_where : (p : R → Bool) (rs : List R) → Unique rs → Unique (delete_where p rs)
  unfolding delete_where
  Unique-delete_where p [] u = tt
  Unique-delete_where p (r ∷ rs) u = elim (Bool-cases (p r)) [
    | inl e ↦ rw e (Unique-delete_where p rs u.1)
    | inr e ↦ rw e (All-delete_where _ p rs u.0, Unique-delete_where p rs u.1)
  ]

  -- an update that leaves the column alone
  pub Unique-update_where :
      (p : R → Bool) (f : R → R) (rs : List R)
      → ((r : R) → p r ≡ true → key (f r) ≡ key r)
      → Unique rs
      → Unique (update_where p f rs)
  unfolding update_where
  Unique-update_where p f [] same u = tt
  Unique-update_where p f (r ∷ rs) same u = elim (Bool-cases (p r)) [
    | inl e ↦ rw (e, same r e) (lacks, Unique-update_where p f rs same u.1)
    | inr e ↦ rw e (lacks, Unique-update_where p f rs same u.1)
  ]
    where
      lacks : Lacks (key r) (update_where p f rs)
      lacks = All-update_where _ p f rs (λ y t ne e. ne (sym (same y t) ∙ e)) u.0

  module _ ⦃e : Eq K⦄ where
    -- the guard of an insert
    pub Lacks-any : (k : K) (rs : List R) → any (λ r. key r == k) rs ≡ false → Lacks k rs
    Lacks-any k rs h =
        All-mono (λ r t same. false≢true (sym t ∙ (e.decides _ _).1 same)) rs (All-any _ rs h)

module _ {ℓ} {R : Type ℓ} where
  pub update_where-none :
      (p : R → Bool) (f : R → R) (rs : List R)
      → All (λ r. p r ≡ false) rs
      → update_where p f rs ≡ rs
  unfolding update_where
  update_where-none p f [] h = refl
  update_where-none p f (r ∷ rs) h = rw (h.0, update_where-none p f rs h.1)

module _ {ℓ κ} {R : Type ℓ} {I K : Type κ} ⦃e : Eq I⦄ (col : R → I) (key : R → K) (m : R) where
  others_lack : (rs : List R) → Lacks col (col m) rs → All (λ r. (col r == col m) ≡ false) rs
  others_lack [] h = tt
  others_lack (r ∷ rs) h = elim (Bool-cases (col r == col m)) [
    | inl t ↦ absurd (h.0 ((e.decides _ _).0 t))
    | inr t ↦ (t, others_lack rs h.1)
  ]

  unaffected_key :
      (rs : List R)
      → All (λ r. (col r == col m) ≡ false) rs
      → All (λ r. (col r == col m) ≡ false → key r ≢ key m) rs
      → Lacks key (key m) rs
  unaffected_key [] a b = tt
  unaffected_key (r ∷ rs) a b = (b.0 a.0, unaffected_key rs a.1 b.1)

  -- A row that is found by a unique column is replaced: another column stays unique if the other
  -- rows lack the new value.
  pub Unique-replace :
      (rs : List R)
      → Unique col rs
      → Unique key rs
      → All (λ r. (col r == col m) ≡ false → key r ≢ key m) rs
      → Unique key (update_where (λ r. col r == col m) (λ _. m) rs)
  unfolding update_where
  Unique-replace [] c u h = tt
  Unique-replace (r ∷ rs) c u h = elim (Bool-cases (col r == col m)) [
    | inl t ↦
        let rest = others_lack rs (subst (λ k. Lacks col k rs) ((e.decides _ _).0 t) c.0) in
        rw (t, update_where-none (λ r. col r == col m) (λ _. m) rs rest)
          (unaffected_key rs rest h.1, u.1)
    | inr t ↦ rw t (
      All-update_where (λ y. key y ≢ key r) (λ r. col r == col m) (λ _. m) rs
          (λ y _ _ same. h.0 t (sym same)) u.0,
      Unique-replace rs c.1 u.1 h.1,
    )
  ]

module _ {ℓ} {R : Type ℓ} where
  pub select-none : (p : R → Bool) (rs : List R) → All (λ r. p r ≡ false) rs → select p rs ≡ []
  unfolding select
  select-none p [] h = refl
  select-none p (r ∷ rs) h = rw (h.0, select-none p rs h.1)

  pub any-none : (p : R → Bool) (rs : List R) → All (λ r. p r ≡ false) rs → any p rs ≡ false
  unfolding any
  any-none p [] h = refl
  any-none p (r ∷ rs) h = rw (h.0, any-none p rs h.1)

  pub find-none : (p : R → Bool) (rs : List R) → All (λ r. p r ≡ false) rs → find p rs ≡ none
  unfolding find
  find-none p [] h = refl
  find-none p (r ∷ rs) h = rw (h.0, find-none p rs h.1)

module _ {ℓ κ} {R : Type ℓ} {K : Type κ} (col : R → K) where
  -- a test on rows of one key fails on the others
  pub fails_elsewhere :
      (k : K) (p : R → Bool) (rs : List R)
      → ((r : R) → p r ≡ true → col r ≡ k)
      → Lacks col k rs
      → All (λ r. p r ≡ false) rs
  fails_elsewhere k p [] only h = tt
  fails_elsewhere k p (r ∷ rs) only h = elim (Bool-cases (p r)) [
    | inl t ↦ absurd (h.0 (only r t))
    | inr t ↦ (t, fails_elsewhere k p rs only h.1)
  ]

  -- A test that holds of one key only selects at most one row of a table where the keys are distinct.
  pub select_cases :
      (k : K) (p : R → Bool) (rs : List R)
      → ((r : R) → p r ≡ true → col r ≡ k)
      → Unique col rs
      → ((select p rs ≡ []) × (find p rs ≡ none) × All (λ r. p r ≡ false) rs)
        ⊎ ((r : R) × (select p rs ≡ r ∷ []) × (find p rs ≡ some r))
  unfolding select find
  select_cases k p [] only u = inl (refl, refl, tt)
  select_cases k p (r ∷ rs) only u = elim (Bool-cases (p r)) [
    | inl t ↦
        let rest = fails_elsewhere k p rs only (subst (λ j. Lacks col j rs) (only r t) u.0) in
        inr (r, rw (t, select-none p rs rest) refl, rw t refl)
    | inr t ↦ rw t (elim (select_cases k p rs only u.1) [
      | inl (a, b, c) ↦ inl (a, b, (refl, c))
      | inr s ↦ inr s
    ])
  ]
