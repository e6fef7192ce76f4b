-- ===== src/Health/Backlog.antt =====
-- What a healthy answer of the probe of the workers tells.
use fasti_kit.Outbox.{is_pending, earlier, min_created_at, age, oldest_pending_age}
use fasti_kit.Health.{ProbeError, report_of, run_checks, too_old, check_outbox_backlog, workers}
use fasti_kit.Base.{
  ℕ, ◌+◌, ◌-◌, ◌≤◌, String, ◌≡◌, refl, sym, subst, Bool, true, false, Option, none, some, List, [],
  ◌∷◌, arith, ltb, leb, leb→le, le_of_not_ltb, Bool-cases, inl, inr,
}
use fasti_kit.Base.Lists.{All, All-mono}
use fasti_kit.Base.Table.{select}
use fasti_kit.Exceptions.{Error, Result, ok, err}
use fasti_kit.Model.{DateTime, OutboxEvent}
use fasti_kit.World.{World, close_session, db_session, utc_now, ◌>>=◌}

-- no pending event is older, at the time
abbrev pub OnTime : DateTime → ℕ → List OutboxEvent → Type 0
OnTime now max_lag = All (λ e. is_pending e ≡ true → now ≤ e.created_at + max_lag)

-- the least time is before each pending event's
abbrev Least : Option DateTime → OutboxEvent → Type 0
Least none e = is_pending e ≡ false
Least (some t) e = is_pending e ≡ true → t ≤ e.created_at

earlier-Least :
    (t : DateTime) (m : Option DateTime) (e : OutboxEvent) → Least m e → Least (earlier t m) e
earlier-Least t none e h = λ pending. cc
earlier-Least t (some u) e h = elim (Bool-cases (leb t u)) [
  | inl c ↦ rw c (λ pending. omega (arith, h pending, leb→le t u c))
  | inr c ↦ rw c h
]

earlier-head : (m : Option DateTime) (e : OutboxEvent) → Least (earlier e.created_at m) e
earlier-head none e = λ pending. omega arith
earlier-head (some u) e = elim (Bool-cases (leb e.created_at u)) [
  | inl c ↦ rw c (λ pending. omega arith)
  | inr c ↦ rw c (λ pending. ground (arith, c))
]

unpending : (m : Option DateTime) (e : OutboxEvent) → is_pending e ≡ false → Least m e
unpending none e h = h
unpending (some t) e h = λ pending. cc

least : (events : List OutboxEvent) → All (Least (min_created_at (select is_pending events))) events
unfolding min_created_at select
least [] = tt
least (e ∷ events) = elim (Bool-cases (is_pending e)) [
  | inl c ↦
      subst (λ ps. All (Least (min_created_at ps)) (e ∷ events)) (sym (picked c))
        (
          earlier-head (min_created_at (select is_pending events)) e,
          All-mono (earlier-Least e.created_at (min_created_at (select is_pending events))) events
              (least events),
        )
  | inr c ↦
      subst (λ ps. All (Least (min_created_at ps)) (e ∷ events)) (sym (passed c))
        (unpending (min_created_at (select is_pending events)) e c, least events)
]
  where
    picked : is_pending e ≡ true → select is_pending (e ∷ events) ≡ e ∷ select is_pending events
    picked c = rw c refl

    passed : is_pending e ≡ false → select is_pending (e ∷ events) ≡ select is_pending events
    passed c = rw c refl

closed : {A : Type 0} (flag : Bool) (r : Result A) (w : World) → (close_session flag r w).0 ≡ r
closed flag (ok a) w = refl
closed flag (err e) w = refl

module _ (describe : Error → ProbeError) (lag_text : ℕ → String) where
  aged :
      (max_lag : ℕ) (m : Option DateTime) (w : World) (events : List OutboxEvent)
      → too_old describe lag_text max_lag (age m w).0 ≡ none
      → All (Least m) events
      → OnTime (w.clock w.reads) max_lag events
  unfolding age utc_now ◌>>=◌
  aged max_lag none w events h l = All-mono (λ e a b. cc) events l
  aged max_lag (some t) w events h l = elim (Bool-cases (ltb max_lag (w.clock w.reads - t))) [
    | inl c ↦ ground (arith, h, c)
    | inr c ↦
        All-mono (λ e a b. omega (arith, a b, le_of_not_ltb max_lag (w.clock w.reads - t) c)) events
          l
  ]

  checked :
      (max_lag : ℕ) (w : World)
      → (check_outbox_backlog describe lag_text max_lag w).0 ≡ none
      → OnTime (w.clock w.reads) max_lag w.working.outbox_events
  unfolding check_outbox_backlog db_session oldest_pending_age ◌>>=◌
  checked max_lag w h =
      let pinned = record w { force_primary = true } in
      let (r, w') = age (min_created_at (select is_pending w.working.outbox_events)) pinned in
      aged max_lag (min_created_at (select is_pending w.working.outbox_events)) pinned
        w.working.outbox_events
        (subst (λ x. too_old describe lag_text max_lag x ≡ none) (closed w.force_primary r w') h)
        (least w.working.outbox_events)

  healthy :
      (backlog : Option ProbeError)
      → (run_checks (
          ("worker", none) ∷ ("outbox_relay", none) ∷ ("outbox_backlog", backlog) ∷ [])).status_code
        ≡ 200
      → backlog ≡ none
  unfolding run_checks report_of
  healthy none h = refl
  healthy (some e) h = ground (arith, h)

  -- If the probe of the workers answers 200, the worker and the heartbeat of the relay are there, and no
  -- pending event of the outbox is older than the lag that the settings allow.
  pub workers-OnTime :
      (max_lag : ℕ) (worker heartbeat cut : Option ProbeError) (w : World)
      → (workers describe lag_text max_lag worker heartbeat cut w).0.status_code ≡ 200
      → (worker ≡ none)
        × (heartbeat ≡ none)
        × OnTime (w.clock w.reads) max_lag w.working.outbox_events
  unfolding workers run_checks report_of
  workers-OnTime max_lag none none none w h = (
    refl,
    refl,
    checked max_lag w (healthy (check_outbox_backlog describe lag_text max_lag w).0 h),
  )
  workers-OnTime max_lag none none (some e) w h = ground (arith, h)
  workers-OnTime max_lag none (some e) cut w h = ground (arith, h)
  workers-OnTime max_lag (some e) heartbeat cut w h = ground (arith, h)
