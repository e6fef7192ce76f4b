-- ===== src/AuthService/Refresh.antt =====
-- auth/services/auth_service.py: what `refresh` hands out.
use fasti_kit.Users
use fasti_kit.Sessions
use fasti_kit.Sessions.{is_claimable, advance, claim, rotate}
use fasti_kit.AuthService.{
  judge_live, is_live, was_just_rotated_from, rotate_for, after_claim, judge_reuse, refresh,
}
use fasti_kit.World.Inversion.{bind_ok, transaction_ok}
use fasti_kit.Env.{Env}
use fasti_kit.Base.{
  ℕ, ◌+◌, ◌≡◌, ◌∙◌, refl, subst, inl, inr, true, Option, none, some, List, [], ◌∷◌, map, arith,
  Bool-cases, not, ◌||◌, string_eq, nat_eq, ◌==◌,
}
use fasti_kit.Base.Table.{select, find}
use fasti_kit.Exceptions.{ok, Error}
use fasti_kit.Model.{
  user_entity, Uuid, DateTime, RefreshSessionModel, RefreshSession, session_entity, UserModel, User,
}
use fasti_kit.World.{World, utc_now, pin_primary, one_or_none, Db, pure, throw, ◌>>=◌}

-- the session that a rotation from the generation returns
pub record IsNext (session_id user_id : Uuid) (generation : ℕ) (session : RefreshSession)
    : Type 0 where
  pub id : session.id ≡ session_id
  pub owner : session.user_id ≡ user_id
  pub next : session.generation ≡ generation + 1
  pub unrevoked : session.revoked_at ≡ none

result_ok : {A : Type 0} {a b : A} → ok a ≡ ok b → a ≡ b
result_ok h = ground (arith, h)

module _ (session_id user_id : Uuid) (generation : ℕ) where
  advanced :
      (now : DateTime) (s : RefreshSessionModel)
      → is_claimable session_id user_id generation now s ≡ true
      → IsNext session_id user_id generation (session_entity (advance now s))
  advanced now s h = record {
    id = ground arith;
    owner = ground arith;
    next = ground arith;
    unrevoked = ground arith;
  }

  returned_row :
      (now : DateTime) (rows : List RefreshSessionModel) (m : RefreshSessionModel)
      → map (advance now) (select (is_claimable session_id user_id generation now) rows) ≡ m ∷ []
      → IsNext session_id user_id generation (session_entity m)
  unfolding select
  returned_row now [] m h = cc
  returned_row now (s ∷ rows) m h =
      elim (Bool-cases (is_claimable session_id user_id generation now s)) [
        | inl e ↦
            let same : advance now s ≡ m = ground (arith, rw e at h) in
            subst (λ r. IsNext session_id user_id generation (session_entity r)) same
              (advanced now s e)
        | inr e ↦ returned_row now rows m (rw e at h)
      ]

  only_row :
      (rows : List RefreshSessionModel) (m : RefreshSessionModel) (w : World)
      → (one_or_none rows w).0 ≡ ok (some m)
      → rows ≡ m ∷ []
  unfolding one_or_none
  only_row [] m w h = cc
  only_row (r ∷ []) m w h = ground (arith, h)
  only_row (r ∷ s ∷ rows) m w h = cc

  some_entity :
      (model : Option RefreshSessionModel) (session : RefreshSession)
      → Sessions.to_entity model ≡ some session
      → (m : RefreshSessionModel) × (model ≡ some m) × (session_entity m ≡ session)
  some_entity none session h = cc
  some_entity (some m) session h = (m, refl, ground (arith, h))

  rotate-IsNext :
      (w : World) (session : RefreshSession)
      → (rotate session_id user_id generation w).0 ≡ ok (some session)
      → IsNext session_id user_id generation session
  unfolding rotate claim pure
  rotate-IsNext w session h =
      let (_, _, h₁, _) = bind_ok pin_primary _ w _ h in
      let (now, _, h₂, _) = bind_ok utc_now _ _ _ h₁ in
      let (ran, _) = transaction_ok _ _ _ h₂ in
      let (rows, selected, h₃, _) = bind_ok (claim session_id user_id generation now) _ _ _ ran in
      let (model, one, h₄, _) = bind_ok (one_or_none rows) _ _ _ h₃ in
      let entity : Sessions.to_entity model ≡ some session = ground (arith, h₄) in
      let (m, found, same) = some_entity model session entity in
      let single : rows ≡ m ∷ [] = only_row rows m _ (rw found at one) in
      let row = returned_row now _ m (result_ok selected ∙ single) in
      subst (λ r. IsNext session_id user_id generation r) same row

-- a raise returns nothing
no_reply : {A : Type 0} (e : Error) (w : World) (a : A) → (throw e w).0 ≡ ok a → ⊥
unfolding throw
no_reply e w a h = cc

module _ (env : Env) (user_id session_id : Uuid) (generation : ℕ) where
  judge_live_refuses :
      (current : RefreshSession) (w : World) (reply : User × RefreshSession)
      → (judge_live env session_id generation current w).0 ≡ ok reply
      → ⊥
  judge_live_refuses current w reply h =
      let (now, _, h₁, _) = bind_ok utc_now _ w _ h in
      elim (Bool-cases (was_just_rotated_from env current generation now)) [
        | inl e ↦ no_reply _ _ _ (rw e at h₁)
        | inr e ↦
            let (_, _, h₂, _) = bind_ok (Sessions.revoke session_id) _ _ _ (rw e at h₁) in
            no_reply _ _ _ h₂
      ]

  judge_reuse_refuses :
      (current : Option RefreshSession) (w : World) (reply : User × RefreshSession)
      → (judge_reuse env user_id session_id generation current w).0 ≡ ok reply
      → ⊥
  judge_reuse_refuses none w reply h = no_reply _ _ _ h
  judge_reuse_refuses (some current) w reply h =
      let (now, _, h₁, _) = bind_ok utc_now _ w _ h in
      elim (Bool-cases (is_live current user_id now)) [
        | inl e ↦ judge_live_refuses current _ reply (rw e at h₁)
        | inr e ↦ no_reply _ _ _ (rw e at h₁)
      ]

  handed_out :
      (user : User) (rotated : Option RefreshSession) (w : World) (reply : User × RefreshSession)
      → (after_claim env user user_id session_id generation rotated w).0 ≡ ok reply
      → (reply.0 ≡ user) × (rotated ≡ some reply.1)
  unfolding pure
  handed_out user (some rotated) w reply h = (ground (arith, h), ground (arith, h))
  handed_out user none w reply h =
      let (current, _, h₁, _) = bind_ok (Sessions.get session_id) _ w _ h in
      absurd (judge_reuse_refuses current _ reply h₁)

  -- the row behind a refresh, and the session that it hands out
  pub record IsRefreshed (db : Db) (user : User) (session : RefreshSession) : Type 0 where
    pub row : UserModel
    pub found : find (λ u. u.id == user_id) db.users ≡ some row
    pub entity : user ≡ user_entity row
    pub active : row.is_active ≡ true
    pub verified : row.is_verified ≡ true
    pub rotated : IsNext session_id user_id generation session

  rotated_for :
      (found : Option UserModel) (db : Db) (w : World) (user : User) (session : RefreshSession)
      → find (λ u. u.id == user_id) db.users ≡ found
      → (rotate_for env user_id session_id generation (Users.to_entity found) w).0
        ≡ ok (user, session)
      → IsRefreshed db user session
  rotated_for none db w user session found h = absurd (no_reply _ _ _ h)
  rotated_for (some row) db w user session found h =
      elim (Bool-cases (not row.is_active || not row.is_verified)) [
        | inl e ↦ absurd (no_reply _ _ _ (rw e at h))
        | inr e ↦
            let (r, ran, h₁, _) =
              bind_ok (rotate session_id user_id generation) _ w _ (rw e at h) in
            let (same, given) = handed_out (user_entity row) r _ (user, session) h₁ in
            record {
              row = row;
              found = found;
              entity = same;
              active = ground (arith, e);
              verified = ground (arith, e);
              rotated = rotate-IsNext session_id user_id generation w session (rw given at ran);
            }
      ]

  -- If `refresh` returns a user and a session, the user is the entity of the row that the primary has at
  -- the id, the row is active and verified, and the session is the one asked for, of this user, not
  -- revoked, at the generation after the one presented.
  pub refresh_admits :
      (w : World) (user : User) (session : RefreshSession)
      → (refresh env user_id session_id generation w).0 ≡ ok (user, session)
      → IsRefreshed w.working user session
  unfolding refresh Users.get ◌>>=◌
  refresh_admits w user session h = rotated_for _ w.working _ user session refl h
