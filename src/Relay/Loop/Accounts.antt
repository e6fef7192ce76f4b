-- ===== src/Relay/Loop/Accounts.antt =====
-- What the log of the relay and its heartbeats tell of its rounds.
use mathlib.Core.List.{append-nil, append_assoc}
use fasti_kit.Relay.{RelaySettings, dispatch_pending}
use fasti_kit.Relay.Loop.{
  Entry, failure, still_failing, recovered, dispatched, Round, Loop, log_relay_failure, on_failure,
  recovery, counts, on_success, conclude, run_batch, iterate, relay_loop,
}
use fasti_kit.Base.{
  ℕ, zero, suc, ◌+◌, String, ◌≡◌, refl, sym, subst, ◌∙◌, ◌<◌, ap, Bool, true, false, ◌||◌, List, [],
  ◌∷◌, ◌++◌, arith, ltb, Bool-cases, inl, inr, nat_eq, ◌==◌,
}
use fasti_kit.Base.Lists.{length}
use fasti_kit.Exceptions.{Result, ok, err}
use fasti_kit.Model.{Uuid}
use fasti_kit.World.{close_session}

-- what a row of failures leaves in the log: one trace, and then the count of each
unfoldable pub streak : ℕ → List Entry
streak zero = []
streak (suc zero) = failure ∷ []
streak (suc (suc n)) = streak (suc n) ++ still_failing (suc (suc n)) ∷ []

-- the entries of the log that tell of a failure
unfoldable pub count_failures : List Entry → ℕ
count_failures [] = 0
count_failures (failure ∷ log) = count_failures log + 1
count_failures (still_failing n ∷ log) = count_failures log + 1
count_failures (recovered n ∷ log) = count_failures log
count_failures (dispatched n m ∷ log) = count_failures log

count-append : (a b : List Entry) → count_failures (a ++ b) ≡ count_failures a + count_failures b
unfolding count_failures
count-append [] b = omega arith
count-append (failure ∷ a) b = omega (arith, count-append a b)
count-append (still_failing n ∷ a) b = omega (arith, count-append a b)
count-append (recovered n ∷ a) b = count-append a b
count-append (dispatched n m ∷ a) b = count-append a b

streak_grows : (n : ℕ) → streak (n + 1) ≡ streak n ++ log_relay_failure (n + 1) ∷ []
unfolding streak
streak_grows zero = refl
streak_grows (suc n) =
    subst (λ m. streak m ≡ streak (suc n) ++ log_relay_failure m ∷ []) later
      (rw (second (suc (suc n)) (omega arith)) refl)
  where
    later : suc (suc n) ≡ suc n + 1
    later = omega arith

    second : (m : ℕ) → 1 < m → (m == 1) ≡ false
    second m h = ground (arith, h)

count_quiet : (n d f : ℕ) → count_failures (recovery n ++ counts d f) ≡ 0
unfolding count_failures
count_quiet n d f = elim (Bool-cases (ltb 0 n)) [
  | inl c ↦ elim (Bool-cases (ltb 0 d || ltb 0 f)) [
    | inl e ↦ rw (c, e) refl
    | inr e ↦ rw (c, e) refl
  ]
  | inr c ↦ elim (Bool-cases (ltb 0 d || ltb 0 f)) [
    | inl e ↦ rw (c, e) refl
    | inr e ↦ rw (c, e) refl
  ]
]

count_failed : (n : ℕ) → count_failures (log_relay_failure n ∷ []) ≡ 1
unfolding count_failures
count_failed n = elim (Bool-cases (n == 1)) [ inl c ↦ rw c refl | inr c ↦ rw c refl ]

-- after a number of rounds: each has left a heartbeat or the entry of a failure, and the log ends with the
-- entries of the failures in a row
pub record Accounted (rounds : ℕ) (loop : Loop) : Type 0 where
  pub each : loop.heartbeats + count_failures loop.log ≡ rounds
  pub before : List Entry
  pub ends : loop.log ≡ before ++ streak loop.failures_in_a_row

failure-Accounted :
    (rounds : ℕ) (loop : Loop) → Accounted rounds loop → Accounted (rounds + 1) (on_failure loop)
failure-Accounted rounds loop h = record {
  each = omega (
    arith,
    h.each,
    count-append loop.log (log_relay_failure (loop.failures_in_a_row + 1) ∷ []),
    count_failed (loop.failures_in_a_row + 1),
  );
  before = h.before;
  ends =
      ap (λ log. log ++ log_relay_failure (loop.failures_in_a_row + 1) ∷ []) h.ends
      ∙ append_assoc h.before (streak loop.failures_in_a_row) _
      ∙ ap (λ log. h.before ++ log) (sym (streak_grows loop.failures_in_a_row));
}

success-Accounted :
    (rounds d f : ℕ) (loop : Loop)
    → Accounted rounds loop
    → Accounted (rounds + 1) (on_success d f loop)
unfolding streak
success-Accounted rounds d f loop h = record {
  each = omega (
    arith,
    h.each,
    count-append loop.log (recovery loop.failures_in_a_row ++ counts d f),
    count_quiet loop.failures_in_a_row d f,
  );
  before = loop.log ++ (recovery loop.failures_in_a_row ++ counts d f);
  ends = sym (append-nil _);
}

conclude-Accounted :
    (rounds : ℕ) (redis_answers : Bool) (r : Result (ℕ × ℕ)) (loop : Loop)
    → Accounted rounds loop
    → Accounted (rounds + 1) (conclude redis_answers r loop)
conclude-Accounted rounds redis_answers (err e) loop = failure-Accounted rounds loop
conclude-Accounted rounds true (ok (d, f)) loop = success-Accounted rounds d f loop
conclude-Accounted rounds false (ok (d, f)) loop = failure-Accounted rounds loop

module _ (settings : RelaySettings) (uuid_text : Uuid → String) (batch_size : ℕ) where
  batch-Accounted :
      (rounds : ℕ) (round : Round) (loop : Loop)
      → Accounted rounds loop
      → Accounted (rounds + 1) (run_batch settings uuid_text batch_size round loop)
  batch-Accounted rounds round loop h =
      let ((r, w), jobs) =
        dispatch_pending settings uuid_text round.queue round.locked batch_size
          (record loop.world { commit_fails = round.commit_fails }) in
      let (r', w') = close_session w.force_primary r w in
      conclude-Accounted rounds round.redis_answers r'
        (record loop { world = w'; sent = loop.sent ++ jobs })
        (record { each = h.each; before = h.before; ends = h.ends })

  iterate-Accounted :
      (rounds : ℕ) (round : Round) (loop : Loop)
      → Accounted rounds loop
      → Accounted (rounds + 1) (iterate settings uuid_text batch_size round loop)
  unfolding iterate
  iterate-Accounted rounds round loop h = elim (Bool-cases round.raises) [
    | inl e ↦ rw e (failure-Accounted rounds loop h)
    | inr e ↦ rw e (batch-Accounted rounds round loop h)
  ]

  run-Accounted :
      (rounds : List Round) (k : ℕ) (loop : Loop)
      → Accounted k loop
      → Accounted (k + length rounds) (relay_loop settings uuid_text batch_size rounds loop)
  unfolding relay_loop
  run-Accounted [] k loop h = subst (λ n. Accounted n loop) (omega arith) h
  run-Accounted (round ∷ rounds) k loop h =
      subst (λ n. Accounted n (relay_loop settings uuid_text batch_size (round ∷ rounds) loop))
        (omega arith) (run-Accounted rounds (k + 1) _ (iterate-Accounted k round loop h))

  -- Whatever each round meets of the database, the commit, the queue and Redis: from the start of the loop,
  -- after any number of rounds, the heartbeats and the failures in the log are together the rounds, and the log
  -- ends with the entries of the failures in a row, a trace for the first and its number for each further.
  pub relay_loop_accounts :
      (rounds : List Round) (loop : Loop)
      → loop.heartbeats ≡ 0
      → loop.log ≡ []
      → loop.failures_in_a_row ≡ 0
      → Accounted (length rounds) (relay_loop settings uuid_text batch_size rounds loop)
  unfolding streak count_failures
  relay_loop_accounts rounds loop beats log failures =
      let start : Accounted 0 loop = record {
        each = omega (arith, beats, ap count_failures log);
        before = [];
        ends = log ∙ sym (ap streak failures);
      } in
      subst (λ n. Accounted n (relay_loop settings uuid_text batch_size rounds loop)) (omega arith)
        (run-Accounted rounds 0 loop start)
