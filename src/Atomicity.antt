-- ===== src/Atomicity.antt =====
-- The writes of the repositories that span several statements, each in one transaction.
use fasti_kit.Users
use fasti_kit.Tokens
use fasti_kit.Outbox
use fasti_kit.DeadLetter
use fasti_kit.Accounts
use fasti_kit.Users.{
  Field, flush_new, flush_changed, email_taken, id_or_uuid4, change, stage_add, stage_update,
  stage_deactivate,
}
use fasti_kit.Tokens.{insert_token, insert_if_absent, stage_add_if_absent, has_jti}
use fasti_kit.Sessions.{revoke_where, stage_revoke, stage_revoke_all_for_user}
use fasti_kit.Outbox.{insert_event}
use fasti_kit.DeadLetter.{requeue}
use fasti_kit.Accounts.{add_all_if_absent, found_or_raise, revoke_given, close_found}
use fasti_kit.World.Keeps.{Keeps, IsStable, keeps_rules, Keeps-bind}
use fasti_kit.Base.{String, ◌≡◌, Bool, Option, none, some, List, [], ◌∷◌, arith, refl, ◌∙◌, ap}
use fasti_kit.Json.{Dict}
use fasti_kit.Model.{
  Uuid, DateTime, UserModel, User, RefreshSessionModel, RevokedTokenModel, TokenRef, OutboxEvent,
  DeadLetterJobModel,
}
use fasti_kit.World.{
  Db, World, pure, throw, stage, Action, continue, ◌>>=◌, ◌>>◌, settle, transaction,
}
use fasti_kit.Exceptions.{Error, Result, ok, err}

-- what is committed stays
abbrev pub Frozen : Db → World → Type 0
Frozen db w = w.committed ≡ db

Frozen-stable : (db : Db) → IsStable (Frozen db)
Frozen-stable db = record { at = λ w r d f h. h }

module _ (db : Db) where
  stage-Frozen : (f : Db → Db) → Keeps (Frozen db) (stage f)
  unfolding stage
  stage-Frozen f = record { at = λ w h. h }

  flush_new-Frozen : (model : UserModel) → Keeps (Frozen db) (flush_new model)
  unfolding flush_new throw stage
  flush_new-Frozen model = record { at = λ w h. ground arith }

  flush_changed-Frozen :
      (fields : List Field) (model : UserModel) → Keeps (Frozen db) (flush_changed fields model)
  unfolding flush_changed throw stage
  flush_changed-Frozen fields model = record { at = λ w h. ground arith }

  insert_event-Frozen : (event : OutboxEvent) → Keeps (Frozen db) (insert_event event)
  unfolding insert_event throw stage
  insert_event-Frozen event = record { at = λ w h. ground arith }

  insert_token-Frozen : (model : RevokedTokenModel) → Keeps (Frozen db) (insert_token model)
  unfolding insert_token throw stage
  insert_token-Frozen model = record { at = λ w h. ground arith }

  insert_if_absent-Frozen : (model : RevokedTokenModel) → Keeps (Frozen db) (insert_if_absent model)
  unfolding insert_if_absent throw stage pure
  insert_if_absent-Frozen model = record { at = λ w h. ground arith }

  job_claim-Frozen :
      (job_id : Uuid) (now : DateTime) → Keeps (Frozen db) (DeadLetter.claim job_id now)
  unfolding DeadLetter.claim
  job_claim-Frozen job_id now = record { at = λ w h. h }

  ruleset frozen_rules = (
    keeps_rules, Frozen-stable, stage-Frozen, flush_new-Frozen, flush_changed-Frozen,
    insert_event-Frozen, insert_token-Frozen, insert_if_absent-Frozen, job_claim-Frozen,
  )

  id_or_uuid4-Frozen : (id : Option Uuid) → Keeps (Frozen db) (id_or_uuid4 id)
  unfolding id_or_uuid4
  id_or_uuid4-Frozen none = search frozen_rules
  id_or_uuid4-Frozen (some id) = search frozen_rules

  new_user-Frozen :
      (name address hash : String) (id : Option Uuid) (jti : Option String)
      → Keeps (Frozen db) (stage_add name address hash id jti)
  unfolding stage_add
  new_user-Frozen name address hash id jti = search (frozen_rules, id_or_uuid4-Frozen)

  change-Frozen :
      (fields : List Field) (found : Option UserModel) → Keeps (Frozen db) (change fields found)
  unfolding change
  change-Frozen fields none = search frozen_rules
  change-Frozen fields (some user) = search frozen_rules

  stage_update-Frozen :
      (id : Uuid) (fields : List Field) → Keeps (Frozen db) (stage_update id fields)
  unfolding stage_update
  stage_update-Frozen id fields = search (frozen_rules, change-Frozen)

  event-Frozen :
      (task_name : String) (payload : Dict) → Keeps (Frozen db) (Outbox.stage_add task_name payload)
  unfolding Outbox.stage_add
  event-Frozen task_name payload = search frozen_rules

  token-Frozen :
      (jti : String) (expires_at : DateTime) → Keeps (Frozen db) (Tokens.stage_add jti expires_at)
  unfolding Tokens.stage_add
  token-Frozen jti expires_at = search frozen_rules

  if_absent-Frozen :
      (jti : String) (expires_at : DateTime)
      → Keeps (Frozen db) (stage_add_if_absent jti expires_at)
  unfolding stage_add_if_absent
  if_absent-Frozen jti expires_at = search frozen_rules

  revoke_where-Frozen : (p : RefreshSessionModel → Bool) → Keeps (Frozen db) (revoke_where p)
  unfolding revoke_where
  revoke_where-Frozen p = search frozen_rules

  add_all-Frozen : (tokens : List TokenRef) → Keeps (Frozen db) (add_all_if_absent tokens)
  unfolding add_all_if_absent
  add_all-Frozen [] = search frozen_rules
  add_all-Frozen (t ∷ ts) =
      Keeps-bind _ _ (if_absent-Frozen t.jti t.expires_at) (λ _. add_all-Frozen ts)

  found_or_raise-Frozen :
      (uuid_text : Uuid → String) (id : Uuid) (found : Option User)
      → Keeps (Frozen db) (found_or_raise uuid_text id found)
  found_or_raise-Frozen uuid_text id none = search frozen_rules
  found_or_raise-Frozen uuid_text id (some user) = search frozen_rules

  revoke_given-Frozen :
      (session_id : Option Uuid) (user_id : Uuid)
      → Keeps (Frozen db) (revoke_given session_id user_id)
  unfolding stage_revoke
  revoke_given-Frozen none user_id = search frozen_rules
  revoke_given-Frozen (some session_id) user_id = revoke_where-Frozen _

  close_found-Frozen :
      (user_id : Uuid) (tokens : List TokenRef) (found : Option User)
      → Keeps (Frozen db) (close_found user_id tokens found)
  unfolding stage_revoke_all_for_user
  close_found-Frozen user_id tokens none = search frozen_rules
  close_found-Frozen user_id tokens (some user) =
      search (frozen_rules, add_all-Frozen, revoke_where-Frozen)

  ruleset write_rules = (
    frozen_rules, stage_update-Frozen, new_user-Frozen, token-Frozen, event-Frozen,
    found_or_raise-Frozen, revoke_where-Frozen, add_all-Frozen, revoke_given-Frozen,
    close_found-Frozen,
  )

  requeue-Frozen : (found : Option DeadLetterJobModel) → Keeps (Frozen db) (requeue found)
  requeue-Frozen none = search frozen_rules
  requeue-Frozen (some model) = search (frozen_rules, event-Frozen)

-- If `m` raises, what was committed before stays.
record Undoes {A : Type 0} (m : Action A) : Type 0 where
  pub at : (w : World) (e : Error) → (m w).0 ≡ err e → (m w).1.committed ≡ w.committed

settle_raises :
    {A : Type 0} (r : Result A) (db : Db) (w : World) (e : Error)
    → w.committed ≡ db
    → (settle r w).0 ≡ err e
    → (settle r w).1.committed ≡ db
settle_raises (ok a) db w e same raised = ground (arith, same)
settle_raises (err e') db w e same raised = same

Undoes-transaction :
    {A : Type 0} (m : Action A) → ((db : Db) → Keeps (Frozen db) m) → Undoes (transaction m)
unfolding transaction
Undoes-transaction m frozen = record {
  at = λ w e. settle_raises (m w).0 w.committed (m w).1 e ((frozen w.committed).at w refl);
}

dropped_result :
    {A : Type 0} (r : Result A) (w : World) (e : Error)
    → (continue {B = Unit {0}} r (λ _. pure tt) w).0 ≡ err e
    → (r ≡ err e) × ((continue {B = Unit {0}} r (λ _. pure tt) w).1 ≡ w)
unfolding pure
dropped_result (ok a) w e raised = cc
dropped_result (err e') w e raised = (ground (arith, raised), refl)

-- the result of `m` dropped
Undoes-dropped : {A : Type 0} (m : Action A) → Undoes m → Undoes (m >> pure tt)
unfolding ◌>>=◌
Undoes-dropped m u = record {
  at = λ w e raised.
      let (same_error, same_world) = dropped_result (m w).0 (m w).1 e raised in
      ap (λ v. v.committed) same_world ∙ u.at w e same_error;
}

continue_raises :
    {A B : Type 0} (f : A → Action B) (r : Result A) (db : Db) (w : World) (e : Error)
    → w.committed ≡ db
    → ((a : A) → Undoes (f a))
    → (continue r f w).0 ≡ err e
    → (continue r f w).1.committed ≡ db
continue_raises f (ok a) db w e same u raised = (u a).at w e raised ∙ same
continue_raises f (err e') db w e same u raised = same

-- what stands before the transaction commits nothing
Undoes-after :
    {A B : Type 0} (m : Action A) (f : A → Action B)
    → ((db : Db) → Keeps (Frozen db) m)
    → ((a : A) → Undoes (f a))
    → Undoes (m >>= f)
unfolding ◌>>=◌
Undoes-after m f frozen u = record {
  at = λ w e raised.
      continue_raises f (m w).0 w.committed (m w).1 e ((frozen w.committed).at w refl) u raised;
}

-- The writes of more than one statement, and the changes of a user.
pub data Write : Type 0 where
  verify_email : Uuid → String → DateTime → Write
  reset_password : Uuid → String → String → DateTime → Write
  start_email_verification start_password_reset : Uuid → String → Dict → Write
  logout : Uuid → List TokenRef → Option Uuid → Write
  close_account : Uuid → List TokenRef → Write
  register : Uuid → String → String → String → String → Dict → Write
  update : Uuid → List Field → Write
  retry : Uuid → Write

-- what each of them runs inside its transaction
module _ (uuid_text : Uuid → String) where
  unfoldable pub perform : Write → Action Unit
  perform (verify_email id jti t) = Accounts.verify_email uuid_text id jti t >> pure tt
  perform (reset_password id hash jti t) =
      Accounts.reset_password uuid_text id hash jti t >> pure tt
  perform (start_email_verification id jti mail) =
      Accounts.start_email_verification uuid_text id jti mail
  perform (start_password_reset id jti mail) = Accounts.start_password_reset uuid_text id jti mail
  perform (logout id tokens session_id) = Accounts.logout id tokens session_id
  perform (close_account id tokens) = Accounts.close_account id tokens >> pure tt
  perform (register id name address hash jti mail) =
      Users.register id name address hash jti mail >> pure tt
  perform (update id fields) = Users.update id fields >> pure tt
  perform (retry job_id) = DeadLetter.retry job_id >> pure tt

  perform-Undoes : (write : Write) → Undoes (perform write)
  unfolding perform Accounts.verify_email Accounts.reset_password Accounts.start_email_verification
      Accounts.start_password_reset Accounts.logout Accounts.close_account Users.register
      Users.update DeadLetter.retry stage_deactivate stage_revoke_all_for_user
  perform-Undoes (verify_email id jti t) =
      Undoes-dropped _ (Undoes-transaction _ (λ db. search write_rules depth 9))
  perform-Undoes (reset_password id hash jti t) =
      Undoes-dropped _ (Undoes-transaction _ (λ db. search write_rules depth 9))
  perform-Undoes (start_email_verification id jti mail) =
      Undoes-transaction _ (λ db. search write_rules depth 9)
  perform-Undoes (start_password_reset id jti mail) =
      Undoes-transaction _ (λ db. search write_rules depth 9)
  perform-Undoes (logout id tokens session_id) =
      Undoes-transaction _ (λ db. search write_rules depth 9)
  perform-Undoes (close_account id tokens) =
      Undoes-dropped _ (Undoes-transaction _ (λ db. search write_rules depth 9))
  perform-Undoes (register id name address hash jti mail) =
      Undoes-dropped _ (Undoes-transaction _ (λ db. search write_rules depth 9))
  perform-Undoes (update id fields) =
      Undoes-dropped _ (Undoes-transaction _ (λ db. stage_update-Frozen db id fields))
  perform-Undoes (retry job_id) = Undoes-dropped _ (
      Undoes-after _ _ (λ db. search write_rules)
        (λ _.
          Undoes-after _ _ (λ db. search write_rules)
            (λ now. Undoes-transaction _ (λ db. search (write_rules, requeue-Frozen) depth 9))))

  -- If a write of several statements raises, at whatever statement or at the commit, what was committed
  -- before is unchanged.
  pub perform_atomic :
      (write : Write) (w : World) (e : Error)
      → (perform write w).0 ≡ err e
      → (perform write w).1.committed ≡ w.committed
  perform_atomic write = (perform-Undoes write).at
