-- ===== src/Seeding/Drawing.antt =====
-- scripts/seed.py: the loop of `_build_unique_user`.
use text.Mathlib.TextEquality.{eq_iff}
use fasti_kit.Base.{
  ℕ, zero, suc, ◌+◌, ◌≤◌, ◌<◌, String, true, false, some, List, [], ◌∷◌, ◌≡◌, ◌≢◌, refl, inl, inr,
  arith, Bool-cases, string_eq, ◌==◌,
}
use fasti_kit.Base.Lists.{length}
use fasti_kit.Base.Table.{any, delete_where}
use fasti_kit.Base.Table.Queries.{any-delete_where}
use fasti_kit.Env.{Env}
use fasti_kit.UserService.{CreateUserRequest}
use fasti_kit.Seeding.{is_used, build_unique_user}

-- no two of a number of builds of the factory, from the k-th on, have one email
abbrev pub Distinct : (ℕ → CreateUserRequest) → ℕ → ℕ → Type 0
Distinct build k count =
    (i j : ℕ) → k ≤ i → i < j → j < k + count → (build i).email ≢ (build j).email

length-delete_where-le :
    (email : String) (pool : List String)
    → length (delete_where (λ e. e == email) pool) ≤ length pool
unfolding delete_where
length-delete_where-le email [] = omega arith
length-delete_where-le email (e ∷ pool) = ground (arith, length-delete_where-le email pool)

length-delete_where-lt :
    (email : String) (pool : List String)
    → is_used email pool ≡ true
    → length (delete_where (λ e. e == email) pool) < length pool
unfolding delete_where any
length-delete_where-lt email [] h = cc
length-delete_where-lt email (e ∷ pool) h =
    ground (arith, length-delete_where-le email pool, length-delete_where-lt email pool)

apart :
    (first later : String)
    → first ≢ later
    → (email : String) → (email == later) ≡ true
    → (email == first) ≡ false
apart first later differ email h = ground (arith, eq_iff email later, eq_iff email first)

module _ (env : Env) (build : ℕ → CreateUserRequest) (used_emails : List String) where
  -- `pool` has the used emails that builds from the k-th on may still have.
  build_within :
      (rounds : ℕ) (pool : List String) (k : ℕ)
      → Distinct build k rounds
      → ((i : ℕ)
          → k ≤ i
          → i < k + rounds
          → is_used (build i).email used_emails ≡ true
          → is_used (build i).email pool ≡ true)
      → length pool < rounds
      → (request : CreateUserRequest) × (next : ℕ) × (build_unique_user env build rounds used_emails
            k
          ≡ some (request, next))
        × (is_used request.email used_emails ≡ false)
        × (k < next)
        × (next ≤ k + rounds)
  unfolding build_unique_user
  build_within zero pool k distinct held few = absurd (omega arith)
  build_within (suc rounds) pool k distinct held few =
      elim (Bool-cases (is_used (build k).email used_emails)) [
        | inl used ↦
            let (request, next, e, fresh, later, soon) =
              build_within rounds (delete_where (λ e. e == (build k).email) pool) (k + 1)
                (λ i j after order soon. distinct i j (omega arith) order (omega arith))
                (λ i after soon taken.
                  any-delete_where (λ e. e == (build i).email) (λ e. e == (build k).email) pool
                    (apart (build k).email (build i).email
                      (distinct k i (omega arith) (omega arith) (omega arith)))
                    (held i (omega arith) (omega arith) taken))
                (omega (
                  arith,
                  length-delete_where-lt (build k).email pool
                      (held k (omega arith) (omega arith) used),
                )) in
            (request, next, rw used e, fresh, omega arith, omega arith)
        | inr free ↦ (build k, k + 1, rw free refl, free, omega arith, omega arith)
      ]

  -- If no two of the next builds of the factory have one email, as many as there are used emails and one
  -- more, then `_build_unique_user` ends within these, at a request whose email is not used.
  pub build_unique_user_ends :
      (k : ℕ)
      → Distinct build k (suc (length used_emails))
      → (request : CreateUserRequest) × (next : ℕ) × (build_unique_user env build
            (suc (length used_emails))
            used_emails
            k
          ≡ some (request, next))
        × (is_used request.email used_emails ≡ false)
        × (k < next)
        × (next ≤ k + suc (length used_emails))
  build_unique_user_ends k distinct =
      build_within (suc (length used_emails)) used_emails k distinct (λ i after soon taken. taken)
        (omega arith)
