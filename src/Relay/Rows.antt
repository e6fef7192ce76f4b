-- ===== src/Relay/Rows.antt =====
-- core/outbox/relay.py: one row under the relay, round after round.
use fasti_kit.Outbox.{is_pending}
use fasti_kit.Relay.{RelaySettings, mark}
use fasti_kit.Base.{
  ℕ, zero, suc, ◌+◌, ◌≤◌, ◌<◌, String, ◌≡◌, refl, ◌⊎◌, inl, inr, true, false, Option, none, some,
  arith, leb, leb→le, if◌then◌else◌, is_none, Bool-cases,
}
use fasti_kit.Model.{DateTime, OutboxEvent}

-- Attempts count up to the limit, a row has failed for good if and only if it has reached the limit, and
-- no row is both dispatched and failed.
pub record IsTracked (limit : ℕ) (row : OutboxEvent) : Type 0 where
  pub bounded : row.attempts ≤ limit
  pub open_below : row.attempts < limit → row.failed_at ≡ none
  pub failed_at_limit : limit ≤ row.attempts → is_none row.failed_at ≡ false
  pub exclusive : (is_none row.dispatched_at ≡ true) ⊎ (is_none row.failed_at ≡ true)

pending_below :
    (limit : ℕ) (row : OutboxEvent)
    → IsTracked limit row
    → is_pending row ≡ true
    → row.attempts < limit
pending_below limit row h p = elim (Bool-cases (leb limit row.attempts)) [
  | inl full ↦ ground (arith, h.failed_at_limit (leb→le limit row.attempts full))
  | inr room ↦ ground arith
]

-- Marking a pending row keeps it tracked, whatever the queue answers.
pub mark-IsTracked :
    (settings : RelaySettings) (now : DateTime) (row : OutboxEvent) (answer : Option String)
    → IsTracked settings.outbox_max_attempts row
    → is_pending row ≡ true
    → IsTracked settings.outbox_max_attempts (mark settings now row answer)
unfolding mark
mark-IsTracked settings now row none h p =
    let below = pending_below _ row h p in
    record {
      bounded = h.bounded;
      open_below = h.open_below;
      failed_at_limit = λ full. absurd (omega arith);
      exclusive = ground arith;
    }
mark-IsTracked settings now row (some error) h p =
    let below = pending_below _ row h p in
    record {
      bounded = omega arith;
      open_below = λ b. ground (arith, h.open_below);
      failed_at_limit = λ full. ground arith;
      exclusive = ground arith;
    }

-- One row over rounds of the relay: it is dispatched again only while it is pending.
abbrev step : RelaySettings → DateTime → Option String → OutboxEvent → OutboxEvent
step settings now answer row = if is_pending row then mark settings now row answer else row

pub rounds : RelaySettings → (ℕ → DateTime) → (ℕ → Option String) → ℕ → OutboxEvent → OutboxEvent
rounds settings clock answers zero row = row
rounds settings clock answers (suc n) row =
    rounds settings clock answers n (step settings (clock n) (answers n) row)

settled_stays :
    (settings : RelaySettings) (clock : ℕ → DateTime) (answers : ℕ → Option String) (n : ℕ)
    (row : OutboxEvent)
    → is_pending row ≡ false
    → rounds settings clock answers n row ≡ row
unfolding rounds
settled_stays settings clock answers zero row p = refl
settled_stays settings clock answers (suc n) row p =
    rw (p, settled_stays settings clock answers n row p)

mark_settles_or_counts :
    (settings : RelaySettings) (now : DateTime) (row : OutboxEvent) (answer : Option String)
    → (is_pending (mark settings now row answer) ≡ false)
      ⊎ ((mark settings now row answer).attempts ≡ row.attempts + 1)
unfolding mark
mark_settles_or_counts settings now row none = inl refl
mark_settles_or_counts settings now row (some error) = inr refl

rounds-pending :
    (settings : RelaySettings) (clock : ℕ → DateTime) (answers : ℕ → Option String) (n : ℕ)
    (row : OutboxEvent)
    → is_pending row ≡ true
    → rounds settings clock answers (suc n) row
      ≡ rounds settings clock answers n (mark settings (clock n) row (answers n))
unfolding rounds
rounds-pending settings clock answers n row p = rw p

abbrev Settled : RelaySettings → OutboxEvent → Type 0
Settled settings row = (is_pending row ≡ false) × IsTracked settings.outbox_max_attempts row

over_for_good :
    (settings : RelaySettings) (clock : ℕ → DateTime) (answers : ℕ → Option String) (n : ℕ)
    (row : OutboxEvent)
    → is_pending row ≡ false
    → IsTracked settings.outbox_max_attempts row
    → Settled settings (rounds settings clock answers n row)
over_for_good settings clock answers n row over h =
    rw (settled_stays settings clock answers n row over) (over, h)

-- A tracked row is no longer pending after as many rounds as it has attempts left, whatever the queue
-- answers in each of them, and it is still tracked.
pub rounds_settle :
    (settings : RelaySettings) (clock : ℕ → DateTime) (answers : ℕ → Option String) (n : ℕ)
    (row : OutboxEvent)
    → IsTracked settings.outbox_max_attempts row
    → settings.outbox_max_attempts ≤ row.attempts + n
    → let row' = rounds settings clock answers n row in
      (is_pending row' ≡ false) × IsTracked settings.outbox_max_attempts row'
rounds_settle settings clock answers zero row h enough =
    unfold rounds in (ground (arith, h.failed_at_limit), h)
rounds_settle settings clock answers (suc n) row h enough = elim (Bool-cases (is_pending row)) [
  | inr over ↦ over_for_good settings clock answers (suc n) row over h
  | inl p ↦
      let row' = mark settings (clock n) row (answers n) in
      let tracked = mark-IsTracked settings (clock n) row (answers n) h p in
      rw (rounds-pending settings clock answers n row p)
        (elim (mark_settles_or_counts settings (clock n) row (answers n)) [
          | inl over ↦ over_for_good settings clock answers n row' over tracked
          | inr counted ↦ rounds_settle settings clock answers n row' tracked (omega arith)
        ])
]
