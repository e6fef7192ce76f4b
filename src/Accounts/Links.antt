-- ===== src/Accounts/Links.antt =====
-- auth/repositories/account_repository.py: the jti that a write spends.
use fasti_kit.Tokens
use fasti_kit.Users.{Field, flush_changed, change, stage_update}
use fasti_kit.Tokens.{has_jti, insert_token}
use fasti_kit.Sessions.{revoke_where, stage_revoke_all_for_user}
use fasti_kit.Accounts.{found_or_raise, reset_password, verify_email}
use fasti_kit.World.Inversion.{bind_ok, transaction_ok}
use fasti_kit.World.Keeps.{Keeps, IsStable, keeps_rules}
use fasti_kit.Base.{
  string_eq, String, ◌≡◌, Bool, true, false, Option, none, some, List, [], ◌∷◌, ◌++◌, arith, ◌+◌,
  refl, sym, subst,
}
use fasti_kit.Base.Table.{any}
use fasti_kit.Exceptions.{ok}
use fasti_kit.Model.{
  Uuid, DateTime, UserModel, User, RevokedTokenModel, RevokedToken, revoked_token_entity,
}
use fasti_kit.World.{World, throw, stage, pure, ◌>>=◌}

abbrev HasTokens : List RevokedTokenModel → World → Type 0
HasTokens tokens w = w.working.revoked_tokens ≡ tokens

HasTokens-stable : (tokens : List RevokedTokenModel) → IsStable (HasTokens tokens)
HasTokens-stable tokens = record { at = λ w r d f h. h }

-- the jti is among the used ones
abbrev pub is_spent : String → List RevokedTokenModel → Bool
is_spent jti = any (has_jti jti)

module _ (tokens : List RevokedTokenModel) where
  flush_changed-HasTokens :
      (fields : List Field) (model : UserModel)
      → Keeps (HasTokens tokens) (flush_changed fields model)
  unfolding flush_changed throw stage
  flush_changed-HasTokens fields model = record { at = λ w h. ground arith }

  change-HasTokens :
      (fields : List Field) (found : Option UserModel)
      → Keeps (HasTokens tokens) (change fields found)
  unfolding change
  change-HasTokens fields none = search (keeps_rules, HasTokens-stable)
  change-HasTokens fields (some user) =
      search (keeps_rules, HasTokens-stable, flush_changed-HasTokens)

  stage_update-HasTokens :
      (id : Uuid) (fields : List Field) → Keeps (HasTokens tokens) (stage_update id fields)
  unfolding stage_update
  stage_update-HasTokens id fields = search (keeps_rules, HasTokens-stable, change-HasTokens)

  found-HasTokens :
      (uuid_text : Uuid → String) (id : Uuid) (found : Option User)
      → Keeps (HasTokens tokens) (found_or_raise uuid_text id found)
  found-HasTokens uuid_text id none = search keeps_rules
  found-HasTokens uuid_text id (some user) = search keeps_rules

-- revoking sessions leaves the used tokens alone
tokens_stay :
    (user_id : Uuid) (w : World)
    → (stage_revoke_all_for_user user_id w).1.working.revoked_tokens ≡ w.working.revoked_tokens
unfolding stage_revoke_all_for_user revoke_where ◌>>=◌
tokens_stay user_id w = refl

pub has-added :
    (tokens : List RevokedTokenModel) (model : RevokedTokenModel)
    → any (has_jti model.jti) (tokens ++ model ∷ []) ≡ true
unfolding any
has-added [] model = rw ((string_eq.decides model.jti model.jti).1 refl) refl
has-added (t ∷ tokens) model = ground (arith, has-added tokens model)

inserted :
    (model : RevokedTokenModel) (w : World) (made : Unit)
    → (insert_token model w).0 ≡ ok made
    → (is_spent model.jti w.working.revoked_tokens ≡ false)
      × (is_spent model.jti (insert_token model w).1.working.revoked_tokens ≡ true)
unfolding insert_token throw stage
inserted model w made h = ground (arith, has-added w.working.revoked_tokens model)

-- `stage_add` accepts a jti only once
spent :
    (jti : String) (expires_at : DateTime) (w : World) (token : RevokedToken)
    → (Tokens.stage_add jti expires_at w).0 ≡ ok token
    → (is_spent jti w.working.revoked_tokens ≡ false)
      × (is_spent jti (Tokens.stage_add jti expires_at w).1.working.revoked_tokens ≡ true)
unfolding Tokens.stage_add ◌>>=◌
spent jti expires_at w token h =
    let model : RevokedTokenModel = record {
      id = w.random w.draws;
      jti = jti;
      expires_at = expires_at;
    } in
    let w' = record w { force_primary = true; draws = w.draws + 1 } in
    let (made, done, _, ends) =
      bind_ok (insert_token model) (λ _. pure (revoked_token_entity model)) w' token h in
    let (fresh, kept) = inserted model w' made done in
    (fresh, subst (λ v. is_spent jti v.working.revoked_tokens ≡ true) (sym ends) kept)

module _ (uuid_text : Uuid → String) (user_id : Uuid) (jti : String) (expires_at : DateTime) where
  -- the jti of a link was unspent, and the write has spent it
  abbrev pub Spends : World → World → Type 0
  Spends w w' =
      (is_spent jti w.working.revoked_tokens ≡ false)
      × (is_spent jti w'.committed.revoked_tokens ≡ true)

  -- the part up to the token leaves the used tokens alone
  before_token :
      (fields : List Field) (w : World)
      → let w₁ = (stage_update user_id fields w).1 in
        (found : Option User)
        → (found_or_raise uuid_text user_id found w₁).1.working.revoked_tokens
          ≡ w.working.revoked_tokens
  before_token fields w found =
      (found-HasTokens _ uuid_text user_id found).at _
        ((stage_update-HasTokens w.working.revoked_tokens user_id fields).at w refl)

  -- If `verify_email` of the accounts returns, the jti of its link was not among the used tokens before,
  -- and it is among the committed ones after.
  pub verify_email-Spends :
      (w : World) (user : User)
      → (verify_email uuid_text user_id jti expires_at w).0 ≡ ok user
      → Spends w (verify_email uuid_text user_id jti expires_at w).1
  unfolding verify_email pure
  verify_email-Spends w user h =
      let (ran, commits) = transaction_ok _ w user h in
      let (found, _, h₁, q₁) = bind_ok (stage_update user_id _) _ w user ran in
      let (u, _, h₂, q₂) = bind_ok (found_or_raise uuid_text user_id found) _ _ user h₁ in
      let (token, done, _, q₃) = bind_ok (Tokens.stage_add jti expires_at) _ _ user h₂ in
      let (fresh, kept) = spent jti expires_at _ token done in
      (
        subst (λ ts. is_spent jti ts ≡ false) (before_token _ w found) fresh,
        rw (commits, q₁, q₂, q₃) kept,
      )

  -- If `reset_password` of the accounts returns, the jti of its link was not among the used tokens before,
  -- and it is among the committed ones after.
  pub reset_password-Spends :
      (hash : String) (w : World) (user : User)
      → (reset_password uuid_text user_id hash jti expires_at w).0 ≡ ok user
      → Spends w (reset_password uuid_text user_id hash jti expires_at w).1
  unfolding reset_password pure
  reset_password-Spends hash w user h =
      let (ran, commits) = transaction_ok _ w user h in
      let (found, _, h₁, q₁) = bind_ok (stage_update user_id _) _ w user ran in
      let (u, _, h₂, q₂) = bind_ok (found_or_raise uuid_text user_id found) _ _ user h₁ in
      let (token, done, h₃, q₃) = bind_ok (Tokens.stage_add jti expires_at) _ _ user h₂ in
      let (_, _, _, q₄) = bind_ok (stage_revoke_all_for_user user_id) _ _ user h₃ in
      let (fresh, kept) = spent jti expires_at _ token done in
      (
        subst (λ ts. is_spent jti ts ≡ false) (before_token _ w found) fresh,
        rw (commits, q₁, q₂, q₃, q₄, tokens_stay user_id) kept,
      )
