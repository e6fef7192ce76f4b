-- ===== src/World/Both.antt =====
-- A property of a database, of the one that is committed and of the one that a session sees.
use fasti_kit.World.Keeps.{Keeps, IsStable}
use fasti_kit.Base.{Bool, false, Bool-cases, inl, inr}
use fasti_kit.Exceptions.{Result, ok, err}
use fasti_kit.World.{
  Db, World, Action, settle, commit_session, transaction, close_session, db_session,
}

pub record Both (Q : Db → Type 0) (w : World) : Type 0 where
  pub committed : Q w.committed
  pub working : Q w.working

pub Both-stable : (Q : Db → Type 0) → IsStable (Both Q)
Both-stable Q = record { at = λ w r d f h. record { committed = h.committed; working = h.working } }

settle-Both :
    {A : Type 0} (Q : Db → Type 0) (r : Result A) (w : World) → Both Q w → Both Q (settle r w).1
settle-Both Q (ok a) w h = elim (Bool-cases w.commit_fails) [
  | inl e ↦ rw e (record { committed = h.committed; working = h.committed })
  | inr e ↦ rw e (record { committed = h.working; working = h.working })
]
settle-Both Q (err e) w h = record { committed = h.committed; working = h.committed }

pub Both-transaction :
    {A : Type 0} (Q : Db → Type 0) (m : Action A)
    → Keeps (Both Q) m
    → Keeps (Both Q) (transaction m)
unfolding transaction
Both-transaction Q m k = record { at = λ w h. let (r, w') = m w in settle-Both Q r w' (k.at w h) }

pub Both-commit : (Q : Db → Type 0) → Keeps (Both Q) commit_session
unfolding commit_session
Both-commit Q = record {
  at = λ w h. elim (Bool-cases w.commit_fails) [
    | inl e ↦ rw e (record { committed = h.committed; working = h.working })
    | inr e ↦ rw e (record { committed = h.working; working = h.working })
  ];
}

close-Both :
    {A : Type 0} (Q : Db → Type 0) (flag : Bool) (r : Result A) (w : World)
    → Both Q w
    → Both Q (close_session flag r w).1
close-Both Q flag (ok a) w h = record { committed = h.committed; working = h.committed }
close-Both Q flag (err e) w h = record { committed = h.committed; working = h.committed }

pub Both-session :
    {A : Type 0} (Q : Db → Type 0) (m : Action A) → Keeps (Both Q) m → Keeps (Both Q) (db_session m)
unfolding db_session
Both-session Q m k = record {
  at = λ w h.
      let (r, w') = m (record w { force_primary = false }) in
      close-Both Q w.force_primary r w'
        (k.at _ (record { committed = h.committed; working = h.working }));
}
