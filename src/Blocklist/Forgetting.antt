-- ===== src/Blocklist/Forgetting.antt =====
-- The key of a revoked token through each operation of the blocklist.
use text.Mathlib.TextLemmas.{append_cancel_left}
use fasti_kit.Blocklist.{
  Redis, jti_key, ready_key, seeding_key, seeding_lock_seconds, ttl_ms, Cache, queue, send,
  run_pipeline, revoke, claim_seeding, mark_ready, seed,
}
use fasti_kit.Base.{
  ℕ, ◌+◌, ◌*◌, ◌≤◌, ◌<◌, String, ◌≡◌, ◌⊎◌, inl, Bool, true, List, [], ◌∷◌, arith, sym, ◌∙◌, inr,
  false, false≢true, ltb, lt→ltb, string_eq, nat_eq, ◌==◌, Bool-cases, ap, refl, le_of_not_ltb,
  subst, if◌then◌else◌,
}
use fasti_kit.Base.Lists.{All}
use fasti_kit.Model.{DateTime, TokenRef}
use fasti_kit.Base.Table.{any}
use fasti_kit.Exceptions.{Result, ok, err}

-- a token of the jti expires at the time
abbrev pub Agrees : String → DateTime → TokenRef → Type 0
Agrees jti expires_at token = token.jti ≡ jti → token.expires_at ≡ expires_at

jti_key-inj : (a b : String) → jti_key a ≡ jti_key b → a ≡ b
jti_key-inj a b h = append_cancel_left "auth:blocklist:jti:" a b h

either_true : (test value : Bool) → value ≡ true → (if test then true else value) ≡ true
either_true test value h = ground arith

not_overwritten :
    (locked same lock held : Bool)
    → held ≡ true
    → (same ≡ true → locked ≡ true)
    → (if locked then held else if same then lock else held) ≡ true
not_overwritten true same lock held h k = h
not_overwritten false true lock held h k = absurd (false≢true (k refl))
not_overwritten false false lock held h k = h

module _ (redis : Redis) (reachable : ℕ → Bool) (jti : String) (expires_at : DateTime) where
  open redis use {Store, has, set_px, set, set_nx_ex, has-set_px, has-set, has-set_nx_ex}

  -- from a time on, the key of the jti is there up to a millisecond before the token expires
  pub record Holds (from : DateTime) (s : Store) : Type 0 where
    pub at : (t : DateTime) → from ≤ t → t + 1000 ≤ expires_at → has s t (jti_key jti) ≡ true

  -- what a command of a pipeline does to the key, if it is about the key
  abbrev pub Reaches : DateTime → String × ℕ → Type 0
  Reaches now (k, ms) = jti_key jti ≡ k → expires_at < now + ms * 1000 + 1000

  set_px-has :
      (now : DateTime) (k : String) (ms : ℕ) (s : Store) (t : DateTime)
      → Reaches now (k, ms)
      → now ≤ t
      → t + 1000 ≤ expires_at
      → (has s t (jti_key jti) ≡ true) ⊎ (jti_key jti ≡ k)
      → has (set_px now k ms s) t (jti_key jti) ≡ true
  set_px-has now k ms s t reaches later early held = elim (Bool-cases (jti_key jti == k)) [
    | inl e ↦
        let ends = reaches ((string_eq.decides (jti_key jti) k).0 e) in
        rw (has-set_px now k ms s t (jti_key jti) later, e)
          (lt→ltb t (now + ms * 1000) (omega (arith, ends, early)))
    | inr e ↦ rw (has-set_px now k ms s t (jti_key jti) later, e) (other e held)
  ]
    where
      other :
          (jti_key jti == k) ≡ false
          → (has s t (jti_key jti) ≡ true) ⊎ (jti_key jti ≡ k)
          → has s t (jti_key jti) ≡ true
      other e (inl h) = h
      other e (inr same) = absurd (false≢true (sym e ∙ (string_eq.decides (jti_key jti) k).1 same))

  send-Holds :
      (from now : DateTime) (commands : List (String × ℕ)) (s : Store)
      → from ≤ now
      → All (Reaches now) commands
      → Holds from s
      → Holds now (send redis reachable now commands s)
  unfolding send
  send-Holds from now [] s later reaches h = record {
    at = λ t a b. h.at t (omega (arith, later, a)) b;
  }
  send-Holds from now ((k, ms) ∷ commands) s later reaches h =
      send-Holds now now commands _ (omega arith) reaches.1 (record {
        at = λ t a b.
            set_px-has now k ms s t reaches.0 a b (inl (h.at t (omega (arith, later, a)) b));
      })

  pub queue-Reaches :
      (now : DateTime) (tokens : List TokenRef)
      → All (Agrees jti expires_at) tokens
      → All (Reaches now) (queue redis reachable now tokens)
  unfolding queue
  queue-Reaches now [] agrees = tt
  queue-Reaches now (token ∷ tokens) agrees = elim (Bool-cases (ltb 0 (ttl_ms now token))) [
    | inl e ↦ rw e (
      (λ same. omega (arith, agrees.0 (sym (jti_key-inj jti token.jti same)))),
      queue-Reaches now tokens agrees.1,
    )
    | inr e ↦ rw e (queue-Reaches now tokens agrees.1)
  ]

  -- a token of the jti that is sent, or has less than a millisecond left
  token-Holds :
      (now : DateTime) (token : TokenRef) (tokens : List TokenRef) (s : Store)
      → token.expires_at ≡ expires_at
      → token.jti ≡ jti
      → All (Agrees jti expires_at) tokens
      → Holds now (send redis reachable now (queue redis reachable now (token ∷ tokens)) s)
  unfolding queue send
  token-Holds now token tokens s ends same agrees = elim (Bool-cases (ltb 0 (ttl_ms now token))) [
    | inl lives ↦ rw lives (
        send-Holds now now _ _ (omega arith) (queue-Reaches now tokens agrees) (record {
          at = λ t a b.
              set_px-has now (jti_key token.jti) (ttl_ms now token) s t (λ _. omega (arith, ends)) a
                b (inr (ap jti_key (sym same)));
        }))
    | inr over ↦ record {
      at = λ t a b. absurd (omega (arith, a, b, ends, le_of_not_ltb 0 (ttl_ms now token) over));
    }
  ]

  -- a pipeline about the jti leaves its key set
  queue-Holds :
      (now : DateTime) (tokens : List TokenRef) (s : Store)
      → All (Agrees jti expires_at) tokens
      → any (λ t. t.jti == jti) tokens ≡ true
      → Holds now (send redis reachable now (queue redis reachable now tokens) s)
  unfolding queue send any
  queue-Holds now [] s agrees named = cc
  queue-Holds now (token ∷ tokens) s agrees named = elim (Bool-cases (token.jti == jti)) [
    | inl e ↦
        let same = (string_eq.decides token.jti jti).0 e in
        token-Holds now token tokens s (agrees.0 same) same agrees.1
    | inr e ↦ elim (Bool-cases (ltb 0 (ttl_ms now token))) [
      | inl lives ↦ rw lives (queue-Holds now tokens _ agrees.1 (rw e at named))
      | inr over ↦ rw over (queue-Holds now tokens s agrees.1 (rw e at named))
    ]
  ]

  -- a revocation that does not raise has sent its commands
  pipeline_sent :
      (now : DateTime) (commands : List (String × ℕ)) (c : Cache redis reachable)
      → (run_pipeline redis reachable now commands c).0 ≡ ok tt
      → (run_pipeline redis reachable now commands c).1.store
        ≡ send redis reachable now commands c.store
  unfolding send
  pipeline_sent now [] c h = refl
  pipeline_sent now (command ∷ commands) c h = ground arith

  pub revoke-Holds :
      (now : DateTime) (tokens : List TokenRef) (c : Cache redis reachable)
      → All (Agrees jti expires_at) tokens
      → any (λ t. t.jti == jti) tokens ≡ true
      → (revoke redis reachable now tokens c).0 ≡ ok tt
      → Holds now (revoke redis reachable now tokens c).1.store
  unfolding revoke
  revoke-Holds now tokens c agrees named h =
      rw (pipeline_sent now (queue redis reachable now tokens) c h)
        (queue-Holds now tokens c.store agrees named)

  -- what later operations leave alone
  pub pipeline-Holds :
      (from now : DateTime) (commands : List (String × ℕ)) (c : Cache redis reachable)
      → from ≤ now
      → All (Reaches now) commands
      → Holds from c.store
      → Holds now (run_pipeline redis reachable now commands c).1.store
  pipeline-Holds from now [] c later reaches h = record {
    at = λ t a b. h.at t (omega (arith, later, a)) b;
  }
  pipeline-Holds from now (command ∷ commands) c later reaches h =
      elim (Bool-cases (reachable c.calls)) [
        | inl e ↦ rw e (send-Holds from now (command ∷ commands) c.store later reaches h)
        | inr e ↦ rw e (record { at = λ t a b. h.at t (omega (arith, later, a)) b })
      ]

  pub claim-Holds :
      (from now : DateTime) (c : Cache redis reachable)
      → from ≤ now
      → Holds from c.store
      → Holds now (claim_seeding redis reachable now c).1.store
  unfolding claim_seeding
  claim-Holds from now c later h = elim (Bool-cases (reachable c.calls)) [
    | inl e ↦ rw e (record {
      at = λ t a b.
          rw (has-set_nx_ex now seeding_key seeding_lock_seconds c.store t (jti_key jti) a) (
            not_overwritten (has c.store now seeding_key) (jti_key jti == seeding_key) _ _
              (h.at t (omega (arith, later, a)) b)
              (λ same.
                subst (λ k. has c.store now k ≡ true)
                  ((string_eq.decides (jti_key jti) seeding_key).0 same)
                  (h.at now later (omega (arith, a, b)))));
    })
    | inr e ↦ rw e (record { at = λ t a b. h.at t (omega (arith, later, a)) b })
  ]

  mark_ready-Holds :
      (now : DateTime) (r : Result (Unit {0}) × Cache redis reachable)
      → Holds now r.1.store
      → Holds now (mark_ready redis reachable now r).store
  mark_ready-Holds now (err e, c) h = h
  mark_ready-Holds now (ok made, c) h = elim (Bool-cases (reachable c.calls)) [
    | inl e ↦ rw e (record {
      at = λ t a b.
          rw (has-set now ready_key c.store t (jti_key jti) a)
            (either_true (jti_key jti == ready_key) _ (h.at t a b));
    })
    | inr e ↦ rw e h
  ]

  pub seed-Holds :
      (from now : DateTime) (tokens : List TokenRef) (c : Cache redis reachable)
      → from ≤ now
      → All (Agrees jti expires_at) tokens
      → Holds from c.store
      → Holds now (seed redis reachable now tokens c).store
  unfolding seed revoke
  seed-Holds from now tokens c later agrees h =
      mark_ready-Holds now (revoke redis reachable now tokens c)
        (pipeline-Holds from now _ c later (queue-Reaches now tokens agrees) h)
