-- ===== src/World/Valid.antt =====
-- The invariant of the database, and what a transaction makes of it.
use fasti_kit.World.Keeps.{Keeps, IsStable}
use fasti_kit.Base.Table.Keys.{Unique}
use fasti_kit.Base.{
  ◌≡◌, refl, sym, ◌↔◌, inl, inr, Bool, true, none, List, ◌==◌, nat_eq, string_eq, Bool-cases, subst,
}
use fasti_kit.Base.Lists.{All}
use fasti_kit.Base.Table.{any}
use fasti_kit.Exceptions.{Result, ok, err}
use fasti_kit.Model.{Uuid, UserModel, RefreshSessionModel, RevokedTokenModel}
use fasti_kit.World.{Db, World, Action, stage, settle, transaction}

-- A session was rotated if and only if its generation has moved.
abbrev pub IsRotation : RefreshSessionModel → Type 0
IsRotation s = (s.generation ≡ 0) ↔ (s.rotated_at ≡ none)

abbrev pub has_user : List UserModel → Uuid → Bool
has_user users id = any (λ u. u.id == id) users

pub record UsersValid (users : List UserModel) : Type 0 where
  pub ids : Unique (λ u. u.id) users
  pub emails : Unique (λ u. u.email) users

-- Every refresh session has its user, and its rotation mark agrees with its generation.
pub record SessionsValid (users : List UserModel) (sessions : List RefreshSessionModel)
    : Type 0 where
  pub ids : Unique (λ s. s.id) sessions
  pub owners : All (λ s. has_user users s.user_id ≡ true) sessions
  pub rotations : All IsRotation sessions

pub record TokensValid (tokens : List RevokedTokenModel) : Type 0 where
  pub ids : Unique (λ t. t.id) tokens
  pub jtis : Unique (λ t. t.jti) tokens

-- The keys and unique columns hold distinct values, and the sessions are in order.
pub record IsValid (db : Db) : Type 0 where
  pub users : UsersValid db.users
  pub sessions : SessionsValid db.users db.refresh_sessions
  pub tokens : TokensValid db.revoked_tokens
  pub event_ids : Unique (λ e. e.id) db.outbox_events
  pub job_ids : Unique (λ j. j.id) db.dead_letter_jobs

-- inside a transaction
pub record IsSound (w : World) : Type 0 where
  pub committed : IsValid w.committed
  pub working : IsValid w.working

-- between transactions: nothing is left staged
pub record IsSettled (w : World) : Type 0 where
  pub committed : IsValid w.committed
  pub settled : w.working ≡ w.committed

pub IsSound-stable : IsStable IsSound
IsSound-stable = record {
  at = λ w r d f h. record { committed = h.committed; working = h.working };
}

pub IsSettled-stable : IsStable IsSettled
IsSettled-stable = record {
  at = λ w r d f h. record { committed = h.committed; settled = h.settled };
}

settle-IsSettled : {A : Type 0} (r : Result A) (w : World) → IsSound w → IsSettled (settle r w).1
settle-IsSettled (ok a) w h = elim (Bool-cases w.commit_fails) [
  | inl e ↦ rw e (record { committed = h.committed; settled = refl })
  | inr e ↦ rw e (record { committed = h.working; settled = refl })
]
settle-IsSettled (err e) w h = record { committed = h.committed; settled = refl }

-- The rule for `async with transaction(db)`.
pub Keeps-transaction :
    {A : Type 0} (m : Action A) → Keeps IsSound m → Keeps IsSettled (transaction m)
unfolding transaction
Keeps-transaction m k = record {
  at = λ w h.
      let (r, w') = m w in
      settle-IsSettled r w' (
        k.at w (record {
          committed = h.committed;
          working = subst IsValid (sym h.settled) h.committed;
        }));
}

-- A write that is staged with no guard.
pub Keeps-stage :
    (f : Db → Db) → ((db : Db) → IsValid db → IsValid (f db)) → Keeps IsSound (stage f)
unfolding stage
Keeps-stage f k = record {
  at = λ w h. record { committed = h.committed; working = k w.working h.working };
}
