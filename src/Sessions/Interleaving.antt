-- ===== src/Sessions/Interleaving.antt =====
-- The table of refresh sessions under any interleaving of statements, of whatever requests: each step is
-- one statement of the repository, which Postgres runs atomically. `issued` holds the ids that `uuid4`
-- has drawn for a session, and no id is drawn twice.
use fasti_kit.Sessions.Rotation.{claimable_id}
use fasti_kit.Base.Table.Keys.{Unique, Lacks, select-none, any-none, fails_elsewhere}
use fasti_kit.Sessions.{is_claimable, advance, mark_revoked}
use fasti_kit.Base.Table.Queries.{All-update_where, All-delete_where}
use fasti_kit.Base.{
  ℕ, ◌<◌, ◌≡◌, refl, sym, ◌∙◌, ap, ◌≢◌, Bool, true, false, false≢true, ◌&&◌, List, [], ◌∷◌, ◌++◌,
  arith, ◌==◌, nat_eq, string_eq, is_none, subst, inl, inr, Bool-cases,
}
use fasti_kit.Base.Lists.{All, All-append, All-mono}
use fasti_kit.Base.Table.{update_where, delete_where, any, select}
use fasti_kit.Model.{Uuid, DateTime, RefreshSessionModel}

pub record Table : Type 0 where
  pub issued : List Uuid
  pub rows : List RefreshSessionModel

abbrev pub is_issued : Uuid → List Uuid → Bool
is_issued id = any (λ i. i == id)

pub data Step : Table → Table → Type 0 where
  -- the claim of `rotate`
  rotates :
      (t : Table) (session_id user_id : Uuid) (generation : ℕ) (now : DateTime)
      → Step t (record t {
        rows = update_where (is_claimable session_id user_id generation now) (advance now) t.rows;
      })
  -- `_revoke_where`
  revokes :
      (t : Table) (p : RefreshSessionModel → Bool) (now : DateTime)
      → Step t (record t {
        rows = update_where (λ s. p s && is_none s.revoked_at) (mark_revoked now) t.rows;
      })
  -- `purge_expired`, and the cascade of a deleted user
  deletes :
      (t : Table) (p : RefreshSessionModel → Bool)
      → Step t (record t { rows = delete_where p t.rows })
  -- `create`
  creates :
      (t : Table) (model : RefreshSessionModel)
      → is_issued model.id t.issued ≡ false
      → Step t (record { issued = model.id ∷ t.issued; rows = t.rows ++ model ∷ [] })

pub data Reach (t : Table) : Table → Type 0 where
  here : Reach t t
  next : {u v : Table} → Reach t u → Step u v → Reach t v

-- The id was drawn, and whatever row still has it is past the generation.
pub record IsPast (session_id : Uuid) (generation : ℕ) (t : Table) : Type 0 where
  pub drawn : is_issued session_id t.issued ≡ true
  pub past : All (λ s. s.id ≡ session_id → generation < s.generation) t.rows

-- The id was drawn, and whatever row still has it is revoked.
pub record IsRevoked (session_id : Uuid) (t : Table) : Type 0 where
  pub drawn : is_issued session_id t.issued ≡ true
  pub revoked : All (λ s. s.id ≡ session_id → is_none s.revoked_at ≡ false) t.rows

module _ (session_id : Uuid) where
  -- a new row has another id
  fresh_differs :
      (t : Table) (model : RefreshSessionModel)
      → is_issued session_id t.issued ≡ true
      → is_issued model.id t.issued ≡ false
      → model.id ≢ session_id
  fresh_differs t model drawn fresh same =
      false≢true (sym fresh ∙ ap (λ i. is_issued i t.issued) same ∙ drawn)

  still_drawn :
      (t : Table) (id : Uuid)
      → is_issued session_id t.issued ≡ true
      → is_issued session_id (id ∷ t.issued) ≡ true
  unfolding any
  still_drawn t id drawn = ground arith

  Step-IsPast :
      {t u : Table} (generation : ℕ)
      → Step t u
      → IsPast session_id generation t
      → IsPast session_id generation u
  Step-IsPast g (rotates t _ _ _ now) h = record {
    drawn = h.drawn;
    past = All-update_where _ _ (advance now) t.rows (λ s _ p same. omega (arith, p same)) h.past;
  }
  Step-IsPast g (revokes t p now) h = record {
    drawn = h.drawn;
    past = All-update_where _ _ (mark_revoked now) t.rows (λ s _ past. past) h.past;
  }
  Step-IsPast g (deletes t p) h = record {
    drawn = h.drawn;
    past = All-delete_where _ p t.rows h.past;
  }
  Step-IsPast g (creates t model fresh) h = record {
    drawn = still_drawn t model.id h.drawn;
    past =
        All-append _ t.rows (model ∷ []) h.past
          ((λ same. absurd (fresh_differs t model h.drawn fresh same)), tt);
  }

  Step-IsRevoked : {t u : Table} → Step t u → IsRevoked session_id t → IsRevoked session_id u
  Step-IsRevoked (rotates t _ _ _ now) h = record {
    drawn = h.drawn;
    revoked = All-update_where _ _ (advance now) t.rows (λ s _ r. r) h.revoked;
  }
  Step-IsRevoked (revokes t p now) h = record {
    drawn = h.drawn;
    revoked = All-update_where _ _ (mark_revoked now) t.rows (λ s _ r same. refl) h.revoked;
  }
  Step-IsRevoked (deletes t p) h = record {
    drawn = h.drawn;
    revoked = All-delete_where _ p t.rows h.revoked;
  }
  Step-IsRevoked (creates t model fresh) h = record {
    drawn = still_drawn t model.id h.drawn;
    revoked =
        All-append _ t.rows (model ∷ []) h.revoked
          ((λ same. absurd (fresh_differs t model h.drawn fresh same)), tt);
  }

  Reach-IsPast :
      {t u : Table} (generation : ℕ)
      → IsPast session_id generation t
      → Reach t u
      → IsPast session_id generation u
  Reach-IsPast g h here = h
  Reach-IsPast g h (next r s) = Step-IsPast g s (Reach-IsPast g h r)

  Reach-IsRevoked : {t u : Table} → IsRevoked session_id t → Reach t u → IsRevoked session_id u
  Reach-IsRevoked h here = h
  Reach-IsRevoked h (next r s) = Step-IsRevoked s (Reach-IsRevoked h r)

-- The selected rows are those of the test.
past_claim :
    (session_id user_id : Uuid) (generation : ℕ) (now : DateTime) (s : RefreshSessionModel)
    → (s.id ≡ session_id → generation < s.generation)
    → is_claimable session_id user_id generation now s ≡ false
past_claim session_id user_id generation now s past = ground (arith, past)

revoked_claim :
    (session_id user_id : Uuid) (generation : ℕ) (now : DateTime) (s : RefreshSessionModel)
    → (s.id ≡ session_id → is_none s.revoked_at ≡ false)
    → is_claimable session_id user_id generation now s ≡ false
revoked_claim session_id user_id generation now s revoked = ground (arith, revoked)

-- a claim that selects a row moves every row of its id past the generation
module _ (session_id user_id : Uuid) (generation : ℕ) (now : DateTime) where
  abbrev after_claim : Table → Table
  after_claim t = record t {
    rows = update_where (is_claimable session_id user_id generation now) (advance now) t.rows;
  }

  claimed_generation :
      (s : RefreshSessionModel)
      → is_claimable session_id user_id generation now s ≡ true
      → generation < (advance now s).generation
  claimed_generation s h = ground arith

  others_past :
      (rows : List RefreshSessionModel)
      → Lacks (λ s. s.id) session_id rows
      → All (λ s. s.id ≡ session_id → generation < s.generation) rows
  others_past [] h = tt
  others_past (s ∷ rows) h = ((λ same. absurd (h.0 same)), others_past rows h.1)

  -- the claimed row is the only row of its id
  others_hold :
      (s : RefreshSessionModel) (rows : List RefreshSessionModel)
      → Lacks (λ r. r.id) s.id rows
      → any (is_claimable session_id user_id generation now) rows ≡ true
      → s.id ≡ session_id
      → ⊥
  others_hold s rows lacks h same = false≢true (
      sym (
        any-none _ rows (
          fails_elsewhere (λ r. r.id) session_id _ rows
            (claimable_id session_id user_id generation now)
            (subst (λ k. Lacks (λ r. r.id) k rows) same lacks)))
      ∙ h)

  claim_moves :
      (rows : List RefreshSessionModel)
      → Unique (λ s. s.id) rows
      → any (is_claimable session_id user_id generation now) rows ≡ true
      → All
          (λ s. s.id ≡ session_id → generation < s.generation)
          (update_where (is_claimable session_id user_id generation now) (advance now) rows)
  unfolding update_where any
  claim_moves [] u h = tt
  claim_moves (s ∷ rows) u h =
      elim (Bool-cases (is_claimable session_id user_id generation now s)) [
        | inl t ↦
            let id = claimable_id session_id user_id generation now s t in
            let rest = subst (λ k. Lacks (λ r. r.id) k rows) id u.0 in
            rw t (
              (λ _. claimed_generation s t),
              All-update_where _ _ (advance now) rows (λ r _ p same. omega (arith, p same))
                  (others_past rows rest),
            )
        | inr t ↦ rw t (
          (λ same. absurd (others_hold s rows u.0 (rw t at h) same)),
          claim_moves rows u.1 (rw t at h),
        )
      ]

  -- If a claim selects a row of a table whose ids are distinct, and the id of the session was drawn, then
  -- whatever statements run after the claim, no later claim of the same generation of the session selects
  -- a row, at any time and for any user.
  pub claim_once :
      (t : Table) {u : Table}
      → Unique (λ s. s.id) t.rows
      → is_issued session_id t.issued ≡ true
      → any (is_claimable session_id user_id generation now) t.rows ≡ true
      → Reach (after_claim t) u
      → (claimant : Uuid) (later : DateTime)
      → select (is_claimable session_id claimant generation later) u.rows ≡ []
  claim_once t {u} unique drawn found reached claimant later =
      let moved : IsPast session_id generation (after_claim t) = record {
        drawn = drawn;
        past = claim_moves t.rows unique found;
      } in
      select-none _ u.rows (
        All-mono (past_claim session_id claimant generation later) u.rows
          (Reach-IsPast session_id generation moved reached).past)

-- If a session id was drawn and whatever row has it is revoked, then whatever statements run no claim of
-- the session selects a row, of any generation, at any time and for any user.
pub revoked_for_good :
    (session_id : Uuid) {t u : Table}
    → IsRevoked session_id t
    → Reach t u
    → (claimant : Uuid) (generation : ℕ) (later : DateTime)
    → select (is_claimable session_id claimant generation later) u.rows ≡ []
revoked_for_good session_id {u} h reached claimant generation later = select-none _ u.rows (
    All-mono (revoked_claim session_id claimant generation later) u.rows
      (Reach-IsRevoked session_id h reached).revoked)
