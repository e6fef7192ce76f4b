-- ===== src/World.antt =====
-- core/database.py: a session on the primary with its transaction, the sticky choice between the
-- primary and the replica, and what the runtime supplies (clock, random numbers). A method of a
-- repository is an action: what was staged before a raise stays staged until the rollback, so the
-- state comes back beside an error too.
pub mod Both
pub mod Inversion
pub mod Keeps
pub mod Valid
use fasti_kit.Base.{ℕ, ◌+◌, Bool, true, Option, none, some, List, [], ◌∷◌, if◌then◌else◌, false}
use fasti_kit.Exceptions.{
  Kind, conflict, DomainException, Error, domain, operational_error, multiple_results, Result, ok,
  err,
}
use fasti_kit.Model.{
  Uuid, DateTime, UserModel, RefreshSessionModel, RevokedTokenModel, OutboxEvent,
  DeadLetterJobModel,
}

pub record Db : Type 0 where
  pub users : List UserModel
  pub refresh_sessions : List RefreshSessionModel
  pub revoked_tokens : List RevokedTokenModel
  pub outbox_events : List OutboxEvent
  pub dead_letter_jobs : List DeadLetterJobModel

-- `committed` is what other sessions of the primary see, `working` what this transaction sees,
-- `replica` what the lagging replica holds. `clock k` is the time at the k-th call of
-- `datetime.now(UTC)`, and `random k` the k-th draw of `uuid4`, `uuid4().hex` or `gensalt`.
pub record World : Type 0 where
  pub committed : Db
  pub working : Db
  pub replica : Db
  pub force_primary : Bool
  pub commit_fails : Bool
  pub clock : ℕ → DateTime
  pub reads : ℕ
  pub random : ℕ → Uuid
  pub draws : ℕ

abbrev pub Action : Type 0 → Type 0
Action A = World → Result A × World

module _ {A : Type 0} where
  unfoldable pub pure : A → Action A
  pure a w = (ok a, w)

  unfoldable pub throw : Error → Action A
  throw e w = (err e, w)

  abbrev pub raise : DomainException → Action A
  raise e = throw (domain e)

  unfoldable pub gets : (World → A) → Action A
  gets f w = (ok (f w), w)

-- `datetime.now(UTC)`
unfoldable pub utc_now : Action DateTime
utc_now w = (ok (w.clock w.reads), record w { reads = w.reads + 1 })

-- `uuid4()`
unfoldable pub uuid4 : Action Uuid
uuid4 w = (ok (w.random w.draws), record w { draws = w.draws + 1 })

-- `force_primary_var.set(True)`
unfoldable pub pin_primary : Action Unit
pin_primary w = (ok tt, record w { force_primary = true })

-- a write of the open transaction
unfoldable pub stage : (Db → Db) → Action Unit
stage f w = (ok tt, record w { working = f w.working })

-- `Result.one_or_none`
unfoldable pub one_or_none : {A : Type 0} → List A → Action (Option A)
one_or_none [] w = (ok none, w)
one_or_none (x ∷ []) w = (ok (some x), w)
one_or_none (x ∷ y ∷ rest) w = (err multiple_results, w)

abbrev pub continue : {A B : Type 0} → Result A → (A → Action B) → Action B
continue (ok a) f w = f a w
continue (err e) f w = (err e, w)

infixl 5 ◌>>=◌ ◌>>◌
-- opening this opens the actions above too
unfoldable pub ◌>>=◌ : {Found Made : Type 0} → Action Found → (Found → Action Made) → Action Made
unfolding pure throw gets utc_now uuid4 pin_primary stage one_or_none
◌>>=◌ m f w = let (r, w') = m w in continue r f w'

abbrev pub ◌>>◌ : {Found Made : Type 0} → Action Found → Action Made → Action Made
first >> next = first >>= λ _. next

-- `token = force_primary_var.set(True)`, then `m`, and `force_primary_var.reset(token)` at the end
unfoldable pub pinned : {A : Type 0} → Action A → Action A
pinned m w =
    let (r, w') = m (record w { force_primary = true }) in
    (r, record w' { force_primary = w.force_primary })

-- What a `SELECT` reads: `RoutingSession.get_bind`.
abbrev pub source : World → Db
source w = if w.force_primary then w.working else w.replica

abbrev pub commit : World → Result (Unit {0}) × World
commit w =
    if w.commit_fails
    then (err operational_error, w)
    else (ok tt, record w { committed = w.working })

-- `await db.commit()`, outside `transaction`
unfoldable pub commit_session : Action Unit
commit_session w = commit w

abbrev pub rollback : World → World
rollback w = record w { working = w.committed }

abbrev committed_as : {A : Type 0} → A → Result (Unit {0}) × World → Result A × World
committed_as a (ok _, w) = (ok a, w)
committed_as a (err e, w) = (err e, rollback w)

abbrev pub settle : {A : Type 0} → Result A → World → Result A × World
settle (ok a) w = committed_as a (commit w)
settle (err e) w = (err e, rollback w)

-- `async with transaction(self.db)`
unfoldable pub transaction : {A : Type 0} → Action A → Action A
transaction m w = let (r, w') = m w in settle r w'

abbrev as_conflict : {A : Type 0} → DomainException → DomainException → Kind → Result A
as_conflict other e conflict = err (domain other)
as_conflict other e k = err (domain e)

abbrev pub recover : {A : Type 0} → DomainException → Result A → Result A
recover other (ok a) = ok a
recover other (err (domain e)) = as_conflict other e e.kind
recover other (err e) = err e

-- `try: m` and `except ConflictError as err: raise other from err`
unfoldable pub except_conflict : {A : Type 0} → DomainException → Action A → Action A
except_conflict other m w = let (r, w') = m w in (recover other r, w')

-- `db_session`: a session starts unpinned, what an exception leaves staged is rolled back, and the flag
-- of the caller comes back.
abbrev pub close_session : {A : Type 0} → Bool → Result A → World → Result A × World
close_session flag (ok a) w = (ok a, record w { force_primary = flag; working = w.committed })
close_session flag (err e) w = (err e, record (rollback w) { force_primary = flag })

unfoldable pub db_session : {A : Type 0} → Action A → Action A
db_session m w =
    let (r, w') = m (record w { force_primary = false }) in close_session w.force_primary r w'
