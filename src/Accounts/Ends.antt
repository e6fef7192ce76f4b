-- ===== src/Accounts/Ends.antt =====
-- auth/repositories/account_repository.py: the sessions and the tokens that a write ends.
use fasti_kit.Tokens
use fasti_kit.Tokens.{has_jti, insert_if_absent, stage_add_if_absent}
use fasti_kit.Sessions.{
  is_session_of, belongs_to, mark_revoked, revoke_where, stage_revoke, stage_revoke_all_for_user,
}
use fasti_kit.Accounts.{
  add_all_if_absent, found_or_raise, revoke_given, close_found, reset_password, logout,
  close_account,
}
use fasti_kit.Accounts.Links.{is_spent, has-added}
use fasti_kit.World.Inversion.{bind_ok, transaction_ok}
use fasti_kit.World.Keeps.{Keeps, IsStable, keeps_rules, Keeps-bind}
use fasti_kit.Base.{
  String, ◌≡◌, refl, inl, inr, Bool, true, false, ◌&&◌, List, [], ◌∷◌, arith, is_none, Bool-cases,
  sym, ◌∙◌, ap, subst, Option, none, some,
}
use fasti_kit.Base.Lists.{All}
use fasti_kit.Base.Table.Queries.{any-append}
use fasti_kit.Base.Table.{update_where}
use fasti_kit.Exceptions.{ok}
use fasti_kit.Model.{Uuid, DateTime, User, RefreshSessionModel, RevokedTokenModel, TokenRef}
use fasti_kit.World.{World, pure, throw, stage, ◌>>=◌, Db}

-- every session that passes the test is revoked
abbrev pub AllRevoked : (RefreshSessionModel → Bool) → List RefreshSessionModel → Type 0
AllRevoked p = All (λ s. p s ≡ true → is_none s.revoked_at ≡ false)

update-AllRevoked :
    (p : RefreshSessionModel → Bool) (now : DateTime) (sessions : List RefreshSessionModel)
    → ((s : RefreshSessionModel) → p (mark_revoked now s) ≡ p s)
    → AllRevoked p (update_where (λ s. p s && is_none s.revoked_at) (mark_revoked now) sessions)
unfolding update_where
update-AllRevoked p now [] same = tt
update-AllRevoked p now (s ∷ sessions) same = elim (Bool-cases (p s && is_none s.revoked_at)) [
  | inl e ↦ rw e ((λ _. refl), update-AllRevoked p now sessions same)
  | inr e ↦ rw e ((λ h. ground (arith, h, e)), update-AllRevoked p now sessions same)
]

-- after `_revoke_where`, on the open transaction
revoke_where-AllRevoked :
    (p : RefreshSessionModel → Bool) (w : World)
    → ((now : DateTime) (s : RefreshSessionModel) → p (mark_revoked now s) ≡ p s)
    → AllRevoked p (revoke_where p w).1.working.refresh_sessions
unfolding revoke_where ◌>>=◌
revoke_where-AllRevoked p w same =
    update-AllRevoked p (w.clock w.reads) w.working.refresh_sessions (same (w.clock w.reads))

-- If `reset_password` of the accounts returns, every session of the user is committed as revoked.
pub reset_password-AllRevoked :
    (uuid_text : Uuid → String) (user_id : Uuid) (hash jti : String) (expires_at : DateTime)
    (w : World) (user : User)
    → (reset_password uuid_text user_id hash jti expires_at w).0 ≡ ok user
    → AllRevoked
        (belongs_to user_id)
        (reset_password uuid_text user_id hash jti expires_at w).1.committed.refresh_sessions
unfolding reset_password stage_revoke_all_for_user pure
reset_password-AllRevoked uuid_text user_id hash jti expires_at w user h =
    let (ran, commits) = transaction_ok _ w user h in
    let (found, _, h₁, q₁) = bind_ok _ _ w user ran in
    let (u, _, h₂, q₂) = bind_ok (found_or_raise uuid_text user_id found) _ _ user h₁ in
    let (token, _, h₃, q₃) = bind_ok (Tokens.stage_add jti expires_at) _ _ user h₂ in
    let (_, _, _, q₄) = bind_ok (revoke_where (belongs_to user_id)) _ _ user h₃ in
    rw (commits, q₁, q₂, q₃, q₄) (revoke_where-AllRevoked (belongs_to user_id) _ (λ now s. refl))

-- A spent jti stays spent.
Spent : String → World → Type 0
Spent jti w = is_spent jti w.working.revoked_tokens ≡ true

module _ (jti : String) where
  Spent-stable : IsStable (Spent jti)
  unfolding Spent
  Spent-stable = record { at = λ w r d f h. h }

  insert_if_absent-Spent : (model : RevokedTokenModel) → Keeps (Spent jti) (insert_if_absent model)
  unfolding insert_if_absent throw stage pure Spent
  insert_if_absent-Spent model = record {
    at = λ w h. ground (arith, h, any-append (has_jti jti) w.working.revoked_tokens model);
  }

  if_absent-Spent :
      (other : String) (expires_at : DateTime)
      → Keeps (Spent jti) (stage_add_if_absent other expires_at)
  unfolding stage_add_if_absent
  if_absent-Spent other expires_at = search (keeps_rules, Spent-stable, insert_if_absent-Spent)

  add_all-Spent : (tokens : List TokenRef) → Keeps (Spent jti) (add_all_if_absent tokens)
  unfolding add_all_if_absent
  add_all-Spent [] = search keeps_rules
  add_all-Spent (t ∷ ts) =
      Keeps-bind _ _ (if_absent-Spent t.jti t.expires_at) (λ _. add_all-Spent ts)

inserted_or_there :
    (model : RevokedTokenModel) (w : World) (made : Unit)
    → (insert_if_absent model w).0 ≡ ok made
    → is_spent model.jti (insert_if_absent model w).1.working.revoked_tokens ≡ true
unfolding insert_if_absent throw stage pure
inserted_or_there model w made h = ground (arith, has-added w.working.revoked_tokens model)

if_absent_spends :
    (jti : String) (expires_at : DateTime) (w : World) (made : Unit)
    → (stage_add_if_absent jti expires_at w).0 ≡ ok made
    → is_spent jti (stage_add_if_absent jti expires_at w).1.working.revoked_tokens ≡ true
unfolding stage_add_if_absent ◌>>=◌
if_absent_spends jti expires_at w made h = inserted_or_there _ _ made h

add_all_spends :
    (tokens : List TokenRef) (w : World) (made : Unit)
    → (add_all_if_absent tokens w).0 ≡ ok made
    → All (λ t. is_spent t.jti (add_all_if_absent tokens w).1.working.revoked_tokens ≡ true) tokens
unfolding add_all_if_absent Spent
add_all_spends [] w made h = tt
add_all_spends (t ∷ ts) w made h =
    let (one, first, rest, q) = bind_ok (stage_add_if_absent t.jti t.expires_at) _ w made h in
    subst (λ v. All (λ u. is_spent u.jti v.working.revoked_tokens ≡ true) (t ∷ ts)) (sym q)
      (
        (add_all-Spent t.jti ts).at _ (if_absent_spends t.jti t.expires_at w one first),
        add_all_spends ts _ made rest,
      )

-- the session that a logout names, if it names one
abbrev pub NamedRevoked : Option Uuid → Uuid → List RefreshSessionModel → Type 0
NamedRevoked none user_id sessions = Unit
NamedRevoked (some session_id) user_id sessions =
    AllRevoked (is_session_of session_id user_id) sessions

abbrev pub AllSpent : List TokenRef → List RevokedTokenModel → Type 0
AllSpent tokens table = All (λ t. is_spent t.jti table ≡ true) tokens

revoke_given_ends :
    (session_id : Option Uuid) (user_id : Uuid) (w : World)
    → NamedRevoked session_id user_id (revoke_given session_id user_id w).1.working.refresh_sessions
unfolding stage_revoke
revoke_given_ends none user_id w = tt
revoke_given_ends (some session_id) user_id w =
    revoke_where-AllRevoked (is_session_of session_id user_id) w (λ now s. refl)

revoke_given_keeps :
    (session_id : Option Uuid) (user_id : Uuid) (w : World)
    → (revoke_given session_id user_id w).1.working.revoked_tokens ≡ w.working.revoked_tokens
unfolding stage_revoke revoke_where ◌>>=◌
revoke_given_keeps none user_id w = refl
revoke_given_keeps (some session_id) user_id w = refl

-- If `logout` of the accounts returns, every given token is committed as used, and the refresh session
-- that it names, if any, is committed as revoked where it is the user's.
pub logout_ends :
    (user_id : Uuid) (tokens : List TokenRef) (session_id : Option Uuid) (w : World) (made : Unit)
    → (logout user_id tokens session_id w).0 ≡ ok made
    → let db = (logout user_id tokens session_id w).1.committed in
      AllSpent tokens db.revoked_tokens × NamedRevoked session_id user_id db.refresh_sessions
unfolding logout
logout_ends user_id tokens session_id w made h =
    let (ran, commits) = transaction_ok _ w made h in
    let (one, added, _, q) = bind_ok (add_all_if_absent tokens) _ w made ran in
    let w₁ = (add_all_if_absent tokens w).1 in
    let kept = revoke_given_keeps session_id user_id w₁ in
    let spent = add_all_spends tokens w one added in
    subst
      (λ db.
        AllSpent tokens db.revoked_tokens × NamedRevoked session_id user_id db.refresh_sessions)
      (sym (commits ∙ ap (λ v. v.working) q))
      (subst (AllSpent tokens) (sym kept) spent, revoke_given_ends session_id user_id w₁)

abbrev Closed : Uuid → List TokenRef → Db → Type 0
Closed user_id tokens db =
    AllSpent tokens db.revoked_tokens × AllRevoked (belongs_to user_id) db.refresh_sessions

revoke_all_keeps :
    (user_id : Uuid) (w : World)
    → (stage_revoke_all_for_user user_id w).1.working.revoked_tokens ≡ w.working.revoked_tokens
unfolding stage_revoke_all_for_user revoke_where ◌>>=◌
revoke_all_keeps user_id w = refl

close_found_ends :
    (user_id : Uuid) (tokens : List TokenRef) (found : Option User) (w : World) (user : User)
    → (close_found user_id tokens found w).0 ≡ ok (some user)
    → Closed user_id tokens (close_found user_id tokens found w).1.working
unfolding pure stage_revoke_all_for_user
close_found_ends user_id tokens none w user h = cc
close_found_ends user_id tokens (some u) w user h =
    let (one, added, h₁, q₁) = bind_ok (add_all_if_absent tokens) _ w _ h in
    let (_, _, _, q₂) = bind_ok (stage_revoke_all_for_user user_id) _ _ _ h₁ in
    let w₁ = (add_all_if_absent tokens w).1 in
    subst (λ v. Closed user_id tokens v.working) (sym (q₁ ∙ q₂))
      (
        subst (AllSpent tokens) (sym (revoke_all_keeps user_id w₁))
            (add_all_spends tokens w one added),
        revoke_where-AllRevoked (belongs_to user_id) w₁ (λ now s. refl),
      )

-- If `close_account` of the accounts returns a user, every given token is committed as used, and every
-- refresh session of the user is committed as revoked.
pub close_account_ends :
    (user_id : Uuid) (tokens : List TokenRef) (w : World) (user : User)
    → (close_account user_id tokens w).0 ≡ ok (some user)
    → let db = (close_account user_id tokens w).1.committed in
      AllSpent tokens db.revoked_tokens × AllRevoked (belongs_to user_id) db.refresh_sessions
unfolding close_account
close_account_ends user_id tokens w user h =
    let (ran, commits) = transaction_ok _ w _ h in
    let (found, _, h₁, q₁) = bind_ok _ _ w _ ran in
    subst (Closed user_id tokens) (sym (commits ∙ ap (λ v. v.working) q₁))
      (close_found_ends user_id tokens found _ user h₁)
