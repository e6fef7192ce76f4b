-- ===== src/Sessions/Rotation.antt =====
-- `rotate` as a compare-and-swap on the generation.
use fasti_kit.Sessions.{is_claimable, advance, claim, rotate}
use fasti_kit.World.Valid.{IsValid}
use fasti_kit.Base.Table.Keys.{select_cases, update_where-none}
use fasti_kit.Base.{
  ℕ, ◌≡◌, refl, inl, inr, true, false, Option, none, some, List, arith, string_eq, nat_eq, ◌==◌,
  Bool-cases, if◌then◌else◌, ◌∷◌, [], suc, ltb, is_none, ◌&&◌, Bool, map, ap, sym, ◌∙◌,
}
use fasti_kit.Base.Table.{find, update_where}
use fasti_kit.Exceptions.{ok}
use fasti_kit.Model.{Uuid, DateTime, RefreshSessionModel, RefreshSession, session_entity}
use fasti_kit.World.{World, ◌>>=◌, transaction}

found_meets :
    (p : RefreshSessionModel → Bool) (rows : List RefreshSessionModel) (s : RefreshSessionModel)
    → find p rows ≡ some s
    → p s ≡ true
unfolding find
found_meets p [] s h = cc
found_meets p (r ∷ rows) s h = ground (arith, found_meets p rows s)

pub claimable_id :
    (session_id user_id : Uuid) (generation : ℕ) (now : DateTime) (s : RefreshSessionModel)
    → is_claimable session_id user_id generation now s ≡ true
    → s.id ≡ session_id
claimable_id session_id user_id generation now s h = ground arith

-- The row that a refresh may rotate: the session of the user, of the generation that the token has, which
-- is not revoked and has not expired.
abbrev pub may_rotate : Uuid → Uuid → ℕ → DateTime → RefreshSessionModel → Bool
may_rotate session_id user_id generation now s =
    if ltb now s.expires_at
    then (if is_none s.revoked_at
        then (s.generation == generation && (s.id == session_id && s.user_id == user_id))
        else false)
    else false

-- the row at the next generation
abbrev pub rotated_row : ℕ → DateTime → RefreshSessionModel → RefreshSessionModel
rotated_row generation now s = record {
  id = s.id;
  user_id = s.user_id;
  generation = suc generation;
  expires_at = s.expires_at;
  rotated_at = some now;
  revoked_at = none;
  created_at = s.created_at;
}

same_test :
    (session_id user_id : Uuid) (generation : ℕ) (now : DateTime) (s : RefreshSessionModel)
    → may_rotate session_id user_id generation now s
      ≡ is_claimable session_id user_id generation now s
same_test session_id user_id generation now s = ground arith

same_row :
    (session_id user_id : Uuid) (generation : ℕ) (now : DateTime) (s : RefreshSessionModel)
    → is_claimable session_id user_id generation now s ≡ true
    → advance now s ≡ rotated_row generation now s
same_row session_id user_id generation now s h = ground (arith, h)

module _ (session_id user_id : Uuid) (generation : ℕ) (now : DateTime) where
  abbrev may : RefreshSessionModel → Bool
  may = may_rotate session_id user_id generation now

  abbrev claimable : RefreshSessionModel → Bool
  claimable = is_claimable session_id user_id generation now

  same_find : (rows : List RefreshSessionModel) → find may rows ≡ find claimable rows
  unfolding find
  same_find [] = refl
  same_find (s ∷ rows) = rw (same_test session_id user_id generation now s, same_find rows) refl

  -- the table with the row that may be rotated at its next generation
  abbrev pub rotated_rows : List RefreshSessionModel → List RefreshSessionModel
  rotated_rows = map λ s. if may s then rotated_row generation now s else s

  same_rows :
      (rows : List RefreshSessionModel)
      → update_where claimable (advance now) rows ≡ rotated_rows rows
  unfolding update_where
  same_rows [] = refl
  same_rows (s ∷ rows) = elim (Bool-cases (claimable s)) [
    | inl e ↦
        rw
          (
            same_rows rows,
            same_test session_id user_id generation now s,
            e,
            same_row session_id user_id generation now s e,
          )
          refl
    | inr e ↦ rw (same_rows rows, same_test session_id user_id generation now s, e) refl
  ]

-- the entity of a row at its next generation, or `None`
abbrev pub handed_back : ℕ → DateTime → Option RefreshSessionModel → Option RefreshSession
handed_back generation now none = none
handed_back generation now (some s) = some (session_entity (rotated_row generation now s))

claim_cases :
    (session_id user_id : Uuid) (generation : ℕ) (w : World)
    → IsValid w.working
    → w.commit_fails ≡ false
    → let now = w.clock w.reads in
      let (r, w') = rotate session_id user_id generation w in
      (r
        ≡ ok (
            handed_back generation now
              (find (is_claimable session_id user_id generation now) w.working.refresh_sessions)))
      × (w'.committed ≡ record w.working {
        refresh_sessions =
            update_where
              (is_claimable session_id user_id generation now)
              (advance now)
              w.working.refresh_sessions;
      })
unfolding rotate claim transaction ◌>>=◌
claim_cases session_id user_id generation w h up =
    elim (select_cases (λ s. s.id) session_id
      (is_claimable session_id user_id generation (w.clock w.reads)) w.working.refresh_sessions
      (claimable_id session_id user_id generation (w.clock w.reads)) h.sessions.ids) [
        | inl (selected, found, others) ↦
            rw (selected, found, up, update_where-none _ (advance (w.clock w.reads)) _ others)
              (refl, refl)
        | inr (s, selected, found) ↦
            let next =
              same_row session_id user_id generation (w.clock w.reads) s
                (found_meets _ w.working.refresh_sessions s found) in
            rw (selected, found, up) (ap (λ row. ok (some (session_entity row))) next, refl)
      ]

-- If the working database is valid and the commit succeeds, `rotate` returns the row of the session, of the
-- user and of the generation that is not revoked and has not expired, with the next generation and the time
-- as that of its rotation, or `None` if there is none; and it commits the working database with that row at
-- its next generation and every other row as it was.
pub rotate_cases :
    (session_id user_id : Uuid) (generation : ℕ) (w : World)
    → IsValid w.working
    → w.commit_fails ≡ false
    → let now = w.clock w.reads in
      let (r, w') = rotate session_id user_id generation w in
      (r
        ≡ ok (
            handed_back generation now
              (find (may_rotate session_id user_id generation now) w.working.refresh_sessions)))
      × (w'.committed ≡ record w.working {
        refresh_sessions =
            rotated_rows session_id user_id generation now w.working.refresh_sessions;
      })
rotate_cases session_id user_id generation w h up =
    let now = w.clock w.reads in
    let (returned, committed) = claim_cases session_id user_id generation w h up in
    (
      returned
          ∙ ap (λ found. ok (handed_back generation now found))
              (sym (same_find session_id user_id generation now w.working.refresh_sessions)),
      committed
          ∙ ap (λ rows. record w.working { refresh_sessions = rows })
              (same_rows session_id user_id generation now w.working.refresh_sessions),
    )
