-- ===== src/Relay/Batch.antt =====
-- A batch: which rows it takes, what the counts say, and what it leaves in the table.
use mathlib.Core.List.Perm
use mathlib.Core.List.{Perm}
use fasti_kit.Relay.Rows.{IsTracked, mark-IsTracked}
use fasti_kit.Outbox.{is_pending}
use fasti_kit.Relay.{
  insert_by_age, order_by_created_at, batch, write_back, Job, RelaySettings, job_of, dispatch_rows,
  sent, count_dispatched, count_failed, dispatch_pending,
}
use fasti_kit.Base.Table.Queries.{All-update_where}
use fasti_kit.Base.{
  ℕ, zero, suc, ◌≤◌, ◌≡◌, refl, inl, inr, Bool, true, not, ◌&&◌, List, [], ◌∷◌, ◌++◌, arith, leb,
  leb→le, Bool-cases, ◌+◌, String, false, Option, Option-cases,
}
use fasti_kit.Base.Lists.{length, take, All, All-trivial, All-mono}
use fasti_kit.Base.Table.{select}
use fasti_kit.Model.{Uuid, OutboxEvent, DateTime}
use fasti_kit.Exceptions.{operational_error, ok, err}
use fasti_kit.World.{World, ◌>>=◌, commit_session}

module _ (P : OutboxEvent → Type 0) where
  All-insert_by_age :
      (e : OutboxEvent) (es : List OutboxEvent) → P e → All P es → All P (insert_by_age e es)
  unfolding insert_by_age
  All-insert_by_age e [] p h = (p, tt)
  All-insert_by_age e (x ∷ xs) p h = elim (Bool-cases (leb e.created_at x.created_at)) [
    | inl t ↦ rw t (p, h)
    | inr t ↦ rw t (h.0, All-insert_by_age e xs p h.1)
  ]

  All-order : (es : List OutboxEvent) → All P es → All P (order_by_created_at es)
  unfolding order_by_created_at
  All-order [] h = tt
  All-order (e ∷ es) h = All-insert_by_age e _ h.0 (All-order es h.1)

  All-take : (n : ℕ) (es : List OutboxEvent) → All P es → All P (take n es)
  All-take zero es h = tt
  All-take (suc n) [] h = tt
  All-take (suc n) (e ∷ es) h = (h.0, All-take n es h.1)

  All-select :
      (p : OutboxEvent → Bool) (es : List OutboxEvent)
      → All P es
      → All (λ e. P e × (p e ≡ true)) (select p es)
  unfolding select
  All-select p [] h = tt
  All-select p (e ∷ es) h = elim (Bool-cases (p e)) [
    | inl t ↦ rw t ((h.0, t), All-select p es h.1)
    | inr t ↦ rw t (All-select p es h.1)
  ]

  All-write_back :
      (rows events : List OutboxEvent) → All P rows → All P events → All P (write_back rows events)
  unfolding write_back
  All-write_back [] events h k = k
  All-write_back (row ∷ rows) events h k =
      All-write_back rows _ h.1 (All-update_where P _ (λ _. row) events (λ _ _ _. h.0) k)

abbrev NotAfter : OutboxEvent → OutboxEvent → Type 0
NotAfter a b = a.created_at ≤ b.created_at

-- sorted by age
abbrev Aged : List OutboxEvent → Type 0
Aged [] = Unit
Aged (e ∷ es) = All (NotAfter e) es × Aged es

insert_by_age-Aged : (e : OutboxEvent) (es : List OutboxEvent) → Aged es → Aged (insert_by_age e es)
unfolding insert_by_age
insert_by_age-Aged e [] h = (tt, tt)
insert_by_age-Aged e (x ∷ xs) h = elim (Bool-cases (leb e.created_at x.created_at)) [
  | inl t ↦
      rw t
        ((leb→le e.created_at x.created_at t, All-mono (λ y older. older_than y older t) xs h.0), h)
  | inr t ↦
      rw t (All-insert_by_age (NotAfter x) e xs (ground arith) h.0, insert_by_age-Aged e xs h.1)
]
  where
    older_than :
        (y : OutboxEvent)
        → x.created_at ≤ y.created_at
        → leb e.created_at x.created_at ≡ true
        → e.created_at ≤ y.created_at
    older_than y older t = omega (arith, leb→le e.created_at x.created_at t)

order-Aged : (es : List OutboxEvent) → Aged (order_by_created_at es)
unfolding order_by_created_at
order-Aged [] = tt
order-Aged (e ∷ es) = insert_by_age-Aged e _ (order-Aged es)

insert_by_age-perm : (e : OutboxEvent) (es : List OutboxEvent) → Perm (insert_by_age e es) (e ∷ es)
unfolding insert_by_age
insert_by_age-perm e [] = Perm.refl _
insert_by_age-perm e (x ∷ xs) = elim (Bool-cases (leb e.created_at x.created_at)) [
  | inl t ↦ rw t (Perm.refl _)
  | inr t ↦ rw t (Perm.trans (Perm.cons x (insert_by_age-perm e xs)) (Perm.swap e x xs))
]

order-perm : (es : List OutboxEvent) → Perm (order_by_created_at es) es
unfolding order_by_created_at
order-perm [] = Perm.refl _
order-perm (e ∷ es) = Perm.trans (insert_by_age-perm e _) (Perm.cons e (order-perm es))

-- the rows behind a batch of n
abbrev drop : ℕ → List OutboxEvent → List OutboxEvent
drop zero es = es
drop (suc n) [] = []
drop (suc n) (e ∷ es) = drop n es

take-append-drop : (n : ℕ) (es : List OutboxEvent) → take n es ++ drop n es ≡ es
take-append-drop zero es = refl
take-append-drop (suc n) [] = refl
take-append-drop (suc n) (e ∷ es) = rw (take-append-drop n es)

All-drop : (P : OutboxEvent → Type 0) (n : ℕ) (es : List OutboxEvent) → All P es → All P (drop n es)
All-drop P zero es h = h
All-drop P (suc n) [] h = tt
All-drop P (suc n) (e ∷ es) h = All-drop P n es h.1

taken_first :
    (n : ℕ) (es : List OutboxEvent)
    → Aged es
    → All (λ taken. All (NotAfter taken) (drop n es)) (take n es)
taken_first zero es h = tt
taken_first (suc n) [] h = tt
taken_first (suc n) (e ∷ es) h = (All-drop (NotAfter e) n es h.0, taken_first n es h.1)

length-take-le : (n : ℕ) (es : List OutboxEvent) → length (take n es) ≤ n
length-take-le zero es = omega arith
length-take-le (suc n) [] = omega arith
length-take-le (suc n) (e ∷ es) = omega (arith, length-take-le n es)

-- the rows that a relay may take
abbrev eligible : (Uuid → Bool) → OutboxEvent → Bool
eligible locked e = is_pending e && not (locked e.id)

-- A batch has at most `batch_size` rows, all pending and unlocked; together with the eligible rows left
-- out they are a permutation of the eligible rows of the table, and no row left out is older than one
-- that is taken.
pub batch_oldest :
    (locked : Uuid → Bool) (batch_size : ℕ) (events : List OutboxEvent)
    → let taken = batch locked batch_size events in
      (length taken ≤ batch_size)
      × All (λ e. is_pending e && not (locked e.id) ≡ true) taken
      × ((left_out : List OutboxEvent) × Perm (taken ++ left_out) (select (eligible locked) events)
          × All (λ t. All (λ l. t.created_at ≤ l.created_at) left_out) taken)
unfolding batch
batch_oldest locked batch_size events =
    let chosen = select (eligible locked) events in
    let ordered = order_by_created_at chosen in
    (
      length-take-le batch_size ordered,
      All-mono (λ e h. h.1) _
          (All-take _ batch_size ordered (
            All-order _ chosen
              (All-select (λ _. Unit {0}) (eligible locked) events (All-trivial events)))),
      (
        drop batch_size ordered,
        rw (take-append-drop batch_size ordered) (order-perm chosen),
        taken_first batch_size ordered (order-Aged chosen),
      ),
    )

-- A tracked and pending row: what a batch consists of.
abbrev Ready : ℕ → OutboxEvent → Type 0
Ready limit e = IsTracked limit e × (is_pending e ≡ true)

eligible-Ready :
    (limit : ℕ) (locked : Uuid → Bool) (e : OutboxEvent)
    → IsTracked limit e × (eligible locked e ≡ true)
    → Ready limit e
eligible-Ready limit locked e h = (h.0, ground (arith, h.1))

batch-Ready :
    (limit : ℕ) (locked : Uuid → Bool) (batch_size : ℕ) (events : List OutboxEvent)
    → All (IsTracked limit) events
    → All (Ready limit) (batch locked batch_size events)
unfolding batch
batch-Ready limit locked batch_size events h = All-take _ batch_size _ (
    All-order _ _
      (All-mono (eligible-Ready limit locked) _ (All-select _ (eligible locked) events h)))

module _ (settings : RelaySettings) (uuid_text : Uuid → String) (queue : Job → Option String) where
  dispatch_rows-IsTracked :
      (clock : ℕ → DateTime) (k : ℕ) (rows : List OutboxEvent)
      → All (Ready settings.outbox_max_attempts) rows
      → All
          (IsTracked settings.outbox_max_attempts)
          (dispatch_rows settings uuid_text queue clock k rows)
  unfolding dispatch_rows
  dispatch_rows-IsTracked clock k [] h = tt
  dispatch_rows-IsTracked clock k (row ∷ rows) h = (
    mark-IsTracked settings (clock k) row _ h.0.0 h.0.1,
    dispatch_rows-IsTracked clock (k + 1) rows h.1,
  )

  -- If every row of the outbox is tracked, in what is committed and in what the session sees, a run of the
  -- relay leaves both so, whether or not its commit succeeds.
  pub dispatch_pending-IsTracked :
      (locked : Uuid → Bool) (batch_size : ℕ) (w : World)
      → All (IsTracked settings.outbox_max_attempts) w.committed.outbox_events
      → All (IsTracked settings.outbox_max_attempts) w.working.outbox_events
      → let w' = (dispatch_pending settings uuid_text queue locked batch_size w).0.1 in
        All (IsTracked settings.outbox_max_attempts) w'.committed.outbox_events
        × All (IsTracked settings.outbox_max_attempts) w'.working.outbox_events
  unfolding dispatch_pending ◌>>=◌ commit_session
  dispatch_pending-IsTracked locked batch_size w hc hw =
      let marked =
        All-write_back (IsTracked settings.outbox_max_attempts) _ w.working.outbox_events
          (dispatch_rows-IsTracked w.clock w.reads _
            (batch-Ready settings.outbox_max_attempts locked batch_size _ hw))
          hw in
      elim (Bool-cases w.commit_fails) [ inl e ↦ rw e (hc, marked) | inr e ↦ rw e (marked, marked) ]

  counts_of_rows :
      (rows : List OutboxEvent)
      → (count_dispatched settings uuid_text queue rows
          ≡ length (sent settings uuid_text queue rows))
        × (count_dispatched settings uuid_text queue rows
              + count_failed settings uuid_text queue rows
            ≡ length rows)
  unfolding count_dispatched count_failed sent
  counts_of_rows [] = (refl, omega arith)
  counts_of_rows (row ∷ rows) =
      let ih = counts_of_rows rows in
      elim (Option-cases (queue (job_of settings uuid_text queue row))) [
        | inl e ↦ rw e (omega (arith, ih.0), omega (arith, ih.1))
        | inr (error, e) ↦ rw e (omega (arith, ih.0), omega (arith, ih.1))
      ]

  -- Where the commit succeeds, the run returns two counts, reports as dispatched the jobs that the queue
  -- took, and as dispatched or failed all the rows of its batch; what it marked is committed.
  pub dispatch_pending_report :
      (locked : Uuid → Bool) (batch_size : ℕ) (w : World)
      → w.commit_fails ≡ false
      → let (reply, jobs) = dispatch_pending settings uuid_text queue locked batch_size w in
        let rows = batch locked batch_size w.working.outbox_events in
        (counts : ℕ × ℕ) × (reply.0 ≡ ok counts)
        × (counts.0 ≡ length jobs)
        × (counts.0 + counts.1 ≡ length rows)
        × (reply.1.committed.outbox_events
            ≡ write_back
                (dispatch_rows settings uuid_text queue w.clock w.reads rows)
                w.working.outbox_events)
  unfolding dispatch_pending ◌>>=◌ commit_session
  dispatch_pending_report locked batch_size w up =
      let rows = batch locked batch_size w.working.outbox_events in
      let (same, total) = counts_of_rows rows in
      rw up (
        (
          count_dispatched settings uuid_text queue rows,
          count_failed settings uuid_text queue rows,
        ),
        refl,
        same,
        total,
        refl,
      )

  -- Where the commit fails, the run raises and no mark is committed, but the queue has got the jobs of the
  -- batch that it took all the same.
  pub dispatch_pending_crash :
      (locked : Uuid → Bool) (batch_size : ℕ) (w : World)
      → w.commit_fails ≡ true
      → let (reply, jobs) = dispatch_pending settings uuid_text queue locked batch_size w in
        (reply.0 ≡ err operational_error)
        × (reply.1.committed ≡ w.committed)
        × (jobs ≡ sent settings uuid_text queue (batch locked batch_size w.working.outbox_events))
  unfolding dispatch_pending ◌>>=◌ commit_session
  dispatch_pending_crash locked batch_size w down = rw down (refl, refl, refl)
