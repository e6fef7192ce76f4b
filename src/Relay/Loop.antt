-- ===== src/Relay/Loop.antt =====
-- core/outbox/relay.py: `relay_loop` and `_log_relay_failure`, on a state of one process. A round is one
-- iteration of the loop, with what its surroundings answer.
pub mod Accounts
use fasti_kit.Relay.{RelaySettings, Job, dispatch_pending}
use fasti_kit.Base.{
  ℕ, ◌+◌, String, Bool, true, false, ◌||◌, Option, List, [], ◌∷◌, ◌++◌, ltb, if◌then◌else◌, nat_eq,
  ◌==◌,
}
use fasti_kit.Exceptions.{Result, ok, err}
use fasti_kit.Model.{Uuid}
use fasti_kit.World.{World, close_session}

-- what the loop writes to the log
pub data Entry : Type 0 where
  -- with the trace of the exception
  failure : Entry
  still_failing : ℕ → Entry
  recovered : ℕ → Entry
  dispatched : ℕ → ℕ → Entry

-- What a round meets: whether the read of the batch raises, as where the database does not answer; whether the commit fails; what the queue raises on a job; the rows that other relays hold;
-- and whether Redis takes the heartbeat.
pub record Round : Type 0 where
  pub raises : Bool
  pub commit_fails : Bool
  pub queue : Job → Option String
  pub locked : Uuid → Bool
  pub redis_answers : Bool

pub record Loop : Type 0 where
  pub world : World
  pub failures_in_a_row : ℕ
  pub heartbeats : ℕ
  pub log : List Entry
  pub sent : List Job

-- `_log_relay_failure`
abbrev pub log_relay_failure : ℕ → Entry
log_relay_failure failures_in_a_row =
    if failures_in_a_row == 1 then failure else still_failing failures_in_a_row

-- the branch `except Exception`
abbrev pub on_failure : Loop → Loop
on_failure loop = record loop {
  failures_in_a_row = loop.failures_in_a_row + 1;
  log = loop.log ++ log_relay_failure (loop.failures_in_a_row + 1) ∷ [];
}

abbrev pub recovery : ℕ → List Entry
recovery failures_in_a_row =
    if ltb 0 failures_in_a_row then recovered failures_in_a_row ∷ [] else []

abbrev pub counts : ℕ → ℕ → List Entry
counts dispatched_ failed =
    if ltb 0 dispatched_ || ltb 0 failed then dispatched dispatched_ failed ∷ [] else []

-- the branch `else`
abbrev pub on_success : ℕ → ℕ → Loop → Loop
on_success dispatched_ failed loop = record loop {
  failures_in_a_row = 0;
  heartbeats = loop.heartbeats + 1;
  log = loop.log ++ (recovery loop.failures_in_a_row ++ counts dispatched_ failed);
}

-- after the session of the batch
abbrev pub conclude : Bool → Result (ℕ × ℕ) → Loop → Loop
conclude redis_answers (err e) loop = on_failure loop
conclude true (ok (dispatched_, failed)) loop = on_success dispatched_ failed loop
conclude false (ok (dispatched_, failed)) loop = on_failure loop

module _ (settings : RelaySettings) (uuid_text : Uuid → String) (batch_size : ℕ) where
  -- the round where the read returns
  abbrev pub run_batch : Round → Loop → Loop
  run_batch round loop =
      let ((r, w), jobs) =
        dispatch_pending settings uuid_text round.queue round.locked batch_size
          (record loop.world { commit_fails = round.commit_fails }) in
      let (r', w') = close_session w.force_primary r w in
      conclude round.redis_answers r' (record loop { world = w'; sent = loop.sent ++ jobs })

  -- The read of the rows is the first statement of the batch: where it raises, nothing is sent or staged.
  unfoldable pub iterate : Round → Loop → Loop
  iterate round loop = if round.raises then on_failure loop else run_batch round loop

  -- `while True`, for a number of rounds
  unfoldable pub relay_loop : List Round → Loop → Loop
  relay_loop [] loop = loop
  relay_loop (round ∷ rounds) loop = relay_loop rounds (iterate round loop)
