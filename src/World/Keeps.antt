-- ===== src/World/Keeps.antt =====
-- Predicates on the world that an action keeps, whether it returns or raises: one rule for each way to
-- build an action.
use fasti_kit.Base.{ℕ, ◌+◌, ◌≡◌, refl, Bool, true, false, List, [], ◌∷◌, if◌then◌else◌}
use fasti_kit.Exceptions.{DomainException, Error, Result, ok, err}
use fasti_kit.World.{
  World, Action, pure, throw, gets, utc_now, uuid4, pin_primary, one_or_none, continue, ◌>>=◌,
  pinned, except_conflict,
}

pub record Keeps {A : Type 0} (P : World → Type 0) (m : Action A) : Type 0 where
  pub at : (w : World) → P w → P (m w).1

-- `P` does not look at the clock, the random numbers or the routing flag.
pub record IsStable (P : World → Type 0) : Type 0 where
  pub at :
      (w : World) (reads draws : ℕ) (force_primary : Bool)
      → P w
      → P (record w { reads = reads; draws = draws; force_primary = force_primary })

module _ {P : World → Type 0} where
  pub Keeps-pure : {A : Type 0} (a : A) → Keeps P (pure a)
  unfolding pure
  Keeps-pure a = record { at = λ w h. h }

  pub Keeps-throw : {A : Type 0} (e : Error) → Keeps P (throw {A = A} e)
  unfolding throw
  Keeps-throw e = record { at = λ w h. h }

  pub Keeps-gets : {A : Type 0} (f : World → A) → Keeps P (gets f)
  unfolding gets
  Keeps-gets f = record { at = λ w h. h }

  pub Keeps-one_or_none : {A : Type 0} (xs : List A) → Keeps P (one_or_none xs)
  unfolding one_or_none
  Keeps-one_or_none [] = record { at = λ w h. h }
  Keeps-one_or_none (x ∷ []) = record { at = λ w h. h }
  Keeps-one_or_none (x ∷ y ∷ xs) = record { at = λ w h. h }

  pub Keeps-utc_now : IsStable P → Keeps P utc_now
  unfolding utc_now
  Keeps-utc_now s = record { at = λ w h. s.at w (w.reads + 1) w.draws w.force_primary h }

  pub Keeps-uuid4 : IsStable P → Keeps P uuid4
  unfolding uuid4
  Keeps-uuid4 s = record { at = λ w h. s.at w w.reads (w.draws + 1) w.force_primary h }

  pub Keeps-pin_primary : IsStable P → Keeps P pin_primary
  unfolding pin_primary
  Keeps-pin_primary s = record { at = λ w h. s.at w w.reads w.draws true h }

  pub Keeps-pinned : {A : Type 0} (m : Action A) → IsStable P → Keeps P m → Keeps P (pinned m)
  unfolding pinned
  Keeps-pinned m s k = record {
    at = λ w h.
        let w' = (m (record w { force_primary = true })).1 in
        s.at w' w'.reads w'.draws w.force_primary (k.at _ (s.at w w.reads w.draws true h));
  }

  pub Keeps-if :
      {A : Type 0} (taken passed : Action A) (test : Bool)
      → (test ≡ false → Keeps P passed)
      → (test ≡ true → Keeps P taken)
      → Keeps P (if test then taken else passed)
  Keeps-if taken passed false keep_no keep_yes = keep_no refl
  Keeps-if taken passed true keep_no keep_yes = keep_yes refl

  pub Keeps-bind :
      {A B : Type 0} (m : Action A) (rest : A → Action B)
      → Keeps P m
      → ((result : A) → Keeps P (rest result))
      → Keeps P (m >>= rest)
  unfolding ◌>>=◌
  Keeps-bind {B} m rest first after = record {
    at = λ w h. let (r, w') = m w in goes_on r w' (first.at w h);
  }
    where
      goes_on : (r : Result _) (w : World) → P w → P (continue {B = B} r rest w).1
      goes_on (ok a) w h = (after a).at w h
      goes_on (err e) w h = h

  pub Keeps-except_conflict :
      {A : Type 0} (e : DomainException) (m : Action A) → Keeps P m → Keeps P (except_conflict e m)
  unfolding except_conflict
  Keeps-except_conflict e m k = record { at = λ w h. k.at w h }

pub ruleset keeps_rules = (
  Keeps-pure, Keeps-throw, Keeps-gets, Keeps-one_or_none, Keeps-utc_now, Keeps-uuid4,
  Keeps-pin_primary, Keeps-pinned, Keeps-if, Keeps-bind, Keeps-except_conflict,
)
