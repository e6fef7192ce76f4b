-- ===== src/Worker/Retained.antt =====
-- What the cleanups of the worker leave.
use fasti_kit.DeadLetter
use fasti_kit.Sessions
use fasti_kit.Tokens
use fasti_kit.Worker.{
  CleanupTask, cleanup_revoked_tokens_task, cleanup_refresh_sessions_task, cleanup_outbox_task,
  cleanup_dead_letter_task, run_cleanup,
}
use fasti_kit.DeadLetter.{is_purged, delete_purged}
use fasti_kit.Outbox.{is_pending}
use fasti_kit.Relay.{RelaySettings, is_past_retention, cleanup_dispatched}
use fasti_kit.World.Both.{Both, Both-stable, Both-transaction, Both-commit, Both-session}
use fasti_kit.World.Keeps.{Keeps, IsStable, keeps_rules}
use fasti_kit.World.{Db, World, stage, utc_now}
use fasti_kit.Base.{
  ℕ, ◌≡◌, refl, sym, subst, ◌∙◌, Bool, true, false, Option, none, some, List, [], ◌∷◌, arith,
  is_none, Bool-cases, inl, inr,
}
use fasti_kit.Base.Table.{select, delete_where}
use fasti_kit.Model.{DateTime, OutboxEvent, DeadLetterJobModel}

select-delete_where :
    {A : Type 0} (p q : A → Bool)
    → ((a : A) → p a ≡ true → q a ≡ false)
    → (xs : List A) → select p (delete_where q xs) ≡ select p xs
unfolding select delete_where
select-delete_where p q apart [] = refl
select-delete_where p q apart (x ∷ xs) = elim (Bool-cases (p x)) [
  | inl c ↦ rw (apart x c) (rw (c, select-delete_where p q apart xs) refl)
  | inr c ↦ elim (Bool-cases (q x)) [
    | inl d ↦ rw (d, c) (select-delete_where p q apart xs)
    | inr d ↦ rw d (rw c (select-delete_where p q apart xs))
  ]
]

-- no operator has retried the job
abbrev pub is_unresolved : DeadLetterJobModel → Bool
is_unresolved j = is_none j.retried_at

-- the pending events, and the jobs that nobody has retried, are these
pub record WorkLeft (events : List OutboxEvent) (jobs : List DeadLetterJobModel) (db : Db)
    : Type 0 where
  pub pending : select is_pending db.outbox_events ≡ events
  pub unresolved : select is_unresolved db.dead_letter_jobs ≡ jobs

unset : {A : Type 0} (o : Option A) → is_none o ≡ true → o ≡ none
unset none h = refl
unset (some a) h = cc

pending_apart :
    (cutoff : DateTime) (e : OutboxEvent) → is_pending e ≡ true → is_past_retention cutoff e ≡ false
pending_apart cutoff e h =
    let open_ : is_none e.dispatched_at ≡ true = ground (arith, h) in
    rw (unset e.dispatched_at open_) refl

unresolved_apart :
    (before : Option DateTime) (j : DeadLetterJobModel)
    → is_unresolved j ≡ true
    → is_purged before true j ≡ false
unresolved_apart before j h = ground (arith, h)

module _ (events : List OutboxEvent) (jobs : List DeadLetterJobModel) where
  delete_purged-Left :
      (before : Option DateTime) → Keeps (Both (WorkLeft events jobs)) (delete_purged before true)
  unfolding delete_purged
  delete_purged-Left before = record {
    at = λ w h. record {
      committed = h.committed;
      working = record {
        pending = h.working.pending;
        unresolved =
            select-delete_where is_unresolved (is_purged before true) (unresolved_apart before)
              w.working.dead_letter_jobs
            ∙ h.working.unresolved;
      };
    };
  }

  cleaned-Left :
      (cutoff : DateTime)
      → Keeps (Both (WorkLeft events jobs)) (
          stage (λ db. record db {
            outbox_events = delete_where (is_past_retention cutoff) db.outbox_events;
          }))
  unfolding stage
  cleaned-Left cutoff = record {
    at = λ w h. record {
      committed = h.committed;
      working = record {
        pending =
            select-delete_where is_pending (is_past_retention cutoff) (pending_apart cutoff)
              w.working.outbox_events
            ∙ h.working.pending;
        unresolved = h.working.unresolved;
      };
    };
  }

  tokens-Left : (now : DateTime) → Keeps (Both (WorkLeft events jobs)) (Tokens.delete_expired now)
  unfolding Tokens.delete_expired
  tokens-Left now = record {
    at = λ w h. record {
      committed = h.committed;
      working = record { pending = h.working.pending; unresolved = h.working.unresolved };
    };
  }

  sessions-Left :
      (now : DateTime) → Keeps (Both (WorkLeft events jobs)) (Sessions.delete_expired now)
  unfolding Sessions.delete_expired
  sessions-Left now = record {
    at = λ w h. record {
      committed = h.committed;
      working = record { pending = h.working.pending; unresolved = h.working.unresolved };
    };
  }

  left_stable : IsStable (Both (WorkLeft events jobs))
  left_stable = Both-stable (WorkLeft events jobs)

  purge_tokens-Left : Keeps (Both (WorkLeft events jobs)) Tokens.purge_expired
  unfolding Tokens.purge_expired
  purge_tokens-Left = search (keeps_rules, left_stable, Both-transaction, tokens-Left)

  purge_sessions-Left : Keeps (Both (WorkLeft events jobs)) Sessions.purge_expired
  unfolding Sessions.purge_expired
  purge_sessions-Left = search (keeps_rules, left_stable, Both-transaction, sessions-Left)

  purge_jobs-Left :
      (before : Option DateTime)
      → Keeps (Both (WorkLeft events jobs)) (DeadLetter.purge before true)
  unfolding DeadLetter.purge
  purge_jobs-Left before = search (keeps_rules, left_stable, Both-transaction, delete_purged-Left)

  cleanup_outbox-Left :
      (settings : RelaySettings) → Keeps (Both (WorkLeft events jobs)) (cleanup_dispatched settings)
  unfolding cleanup_dispatched
  cleanup_outbox-Left settings =
      search (keeps_rules, left_stable, Both-commit, cleaned-Left) depth 9

module _ (settings : RelaySettings) (retention : ℕ) where
  run_cleanup-Left :
      (events : List OutboxEvent) (jobs : List DeadLetterJobModel) (task : CleanupTask) (w : World)
      → Both (WorkLeft events jobs) w
      → Both (WorkLeft events jobs) (run_cleanup settings retention task w).1
  unfolding run_cleanup utc_now
  run_cleanup-Left events jobs cleanup_revoked_tokens_task w =
      (Both-session _ _ (purge_tokens-Left events jobs)).at w
  run_cleanup-Left events jobs cleanup_refresh_sessions_task w =
      (Both-session _ _ (purge_sessions-Left events jobs)).at w
  run_cleanup-Left events jobs cleanup_outbox_task w =
      (Both-session _ _ (cleanup_outbox-Left events jobs settings)).at w
  run_cleanup-Left events jobs cleanup_dead_letter_task w = λ h.
      (Both-session _ _ (purge_jobs-Left events jobs _)).at _
        (record { committed = h.committed; working = h.working })

  -- the worlds after the cleanups, each in its session
  unfoldable pub run_cleanups : List CleanupTask → World → World
  run_cleanups [] w = w
  run_cleanups (task ∷ tasks) w = run_cleanups tasks (run_cleanup settings retention task w).1

  cleanups-Left :
      (events : List OutboxEvent) (jobs : List DeadLetterJobModel) (tasks : List CleanupTask)
      (w : World)
      → Both (WorkLeft events jobs) w
      → Both (WorkLeft events jobs) (run_cleanups tasks w)
  unfolding run_cleanups
  cleanups-Left events jobs [] w h = h
  cleanups-Left events jobs (task ∷ tasks) w h =
      cleanups-Left events jobs tasks _ (run_cleanup-Left events jobs task w h)

  -- Whatever cleanups the worker runs, from a world with nothing staged, and whether or not their commits
  -- succeed: the committed outbox has the same pending events as before, and the committed dead letters have
  -- the same jobs that nobody has retried, in the same order.
  pub cleanups_keep_work :
      (tasks : List CleanupTask) (w : World)
      → w.working ≡ w.committed
      → let after = (run_cleanups tasks w).committed in
        (select is_pending after.outbox_events ≡ select is_pending w.committed.outbox_events)
        × (select is_unresolved after.dead_letter_jobs
            ≡ select is_unresolved w.committed.dead_letter_jobs)
  cleanups_keep_work tasks w same =
      let events = select is_pending w.committed.outbox_events in
      let jobs = select is_unresolved w.committed.dead_letter_jobs in
      let after = cleanups-Left events jobs tasks w (
        subst (λ db. Both (WorkLeft events jobs) (record w { working = db })) (sym same)
          (own w.committed)) in
      (after.committed.pending, after.committed.unresolved)
    where
      own :
          (db : Db)
          → Both
              (WorkLeft
                (select is_pending db.outbox_events)
                (select is_unresolved db.dead_letter_jobs))
              (record w { committed = db; working = db })
      own db = record {
        committed = record { pending = refl; unresolved = refl };
        working = record { pending = refl; unresolved = refl };
      }
