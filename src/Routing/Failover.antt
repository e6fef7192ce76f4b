-- ===== src/Routing/Failover.antt =====
-- core/database.py: the work of a session through its failovers.
use fasti_kit.Routing.{
  Clause, insert_clause, update_clause, delete_clause, select_clause, text_clause, unknown, Engine,
  primary, get_bind, starts_with, Session, is_empty, can_fail_over, effect, Outcome, done, failed,
  attempt, fail_over, execute, Operation, add, flush, statement, operate, operate_all,
}
use fasti_kit.Base.{
  ℕ, String, ◌≡◌, ◌⊎◌, inl, inr, Bool, true, List, [], ◌∷◌, ◌++◌, arith, string_eq, nat_eq, ◌==◌,
  refl, if◌then◌else◌, Bool-cases, false, false≢true,
}
use fasti_kit.Base.Lists.{All}
use fasti_kit.Base.Table.{any}
use fasti_kit.World.{pinned}

-- A session that has written is pinned to the primary.
abbrev pub IsPinned : Session → Type 0
IsPinned s = (s.written ≡ []) ⊎ (s.force_primary ≡ true)

-- the session still has the object, unflushed or written
abbrev pub HasWork : ℕ → Session → Type 0
HasWork id s = (any (λ i. i == id) s.written ≡ true) ⊎ (any (λ i. i == id) s.pending ≡ true)

-- the words at which a text is taken to write
abbrev pub write_words : List String
write_words = "insert" ∷ "update" ∷ "delete" ∷ "create" ∷ "drop" ∷ "alter" ∷ []

-- if the clause is a text that changes data, it starts with one of the words
abbrev pub is_recognised : Clause → Bool
is_recognised (text_clause changes query) =
    if changes then any (λ word. starts_with query word) write_words else true
is_recognised clause = true

abbrev pub is_plain : Operation → Bool
is_plain (statement clause id down_first down_again) = is_recognised clause
is_plain o = true

any-left : (p : ℕ → Bool) (xs ys : List ℕ) → any p xs ≡ true → any p (xs ++ ys) ≡ true
unfolding any
any-left p [] ys h = cc
any-left p (x ∷ xs) ys h = ground (arith, any-left p xs ys)

any-right : (p : ℕ → Bool) (xs ys : List ℕ) → any p ys ≡ true → any p (xs ++ ys) ≡ true
unfolding any
any-right p [] ys h = h
any-right p (x ∷ xs) ys h = ground (arith, any-right p xs ys h)

-- a statement that changes nothing but the flag and appends to what was written keeps what is there
abbrev Grows : Session → Session → Type 0
Grows s t =
    (t.pending ≡ s.pending)
    × ((t.written ≡ s.written) ⊎ ((id : ℕ) × (t.written ≡ s.written ++ id ∷ [])))

Grows-HasWork : (id : ℕ) (s t : Session) → Grows s t → HasWork id s → HasWork id t
Grows-HasWork id s t (pending, inl written) h = rw (pending, written) h
Grows-HasWork id s t (pending, inr (new, written)) (inl h) =
    rw written (inl (any-left (λ i. i == id) s.written (new ∷ []) h))
Grows-HasWork id s t (pending, inr (new, written)) (inr h) = rw pending (inr h)

effect-Grows : (clause : Clause) (id : ℕ) (s : Session) → Grows s (effect clause id s)
effect-Grows insert_clause id s = (refl, inr (id, refl))
effect-Grows update_clause id s = (refl, inr (id, refl))
effect-Grows delete_clause id s = (refl, inr (id, refl))
effect-Grows select_clause id s = (refl, inl refl)
effect-Grows (text_clause true query) id s = (refl, inr (id, refl))
effect-Grows (text_clause false query) id s = (refl, inl refl)
effect-Grows unknown id s = (refl, inl refl)

attempt-Grows :
    (clause : Clause) (id : ℕ) (down : Engine → Bool) (s : Session)
    → Grows s (attempt clause id down s).1
unfolding attempt
attempt-Grows clause id down s =
    let (engine, flag) = get_bind clause s.force_primary in
    elim (Bool-cases (down engine)) [
      | inl e ↦ rw e (refl, inl refl)
      | inr e ↦ rw e (effect-Grows clause id (record s { force_primary = flag }))
    ]

-- the flag is never taken back
stays_pinned : (clause : Clause) (flag : Bool) → flag ≡ true → (get_bind clause flag).1 ≡ true
unfolding get_bind
stays_pinned clause flag h = rw h refl

rebind-IsPinned :
    (clause : Clause) (s : Session)
    → IsPinned s
    → IsPinned (record s { force_primary = (get_bind clause s.force_primary).1 })
rebind-IsPinned clause s (inl none_written) = inl none_written
rebind-IsPinned clause s (inr flag) = inr (stays_pinned clause s.force_primary flag)

-- a clause that writes sets the flag
bound-IsPinned :
    (clause : Clause) (id : ℕ) (s : Session) (flag : Bool)
    → is_recognised clause ≡ true
    → IsPinned (record s { force_primary = flag })
    → IsPinned (effect clause id (record s { force_primary = (get_bind clause flag).1 }))
unfolding get_bind any
bound-IsPinned insert_clause id s true known h = inr refl
bound-IsPinned insert_clause id s false known h = inr refl
bound-IsPinned update_clause id s true known h = inr refl
bound-IsPinned update_clause id s false known h = inr refl
bound-IsPinned delete_clause id s true known h = inr refl
bound-IsPinned delete_clause id s false known h = inr refl
bound-IsPinned select_clause id s flag known h =
    rebind-IsPinned select_clause (record s { force_primary = flag }) h
bound-IsPinned (text_clause true query) id s true known h = inr refl
bound-IsPinned (text_clause false query) id s true known h = inr refl
bound-IsPinned (text_clause true query) id s false known h = inr (ground (arith, known))
bound-IsPinned (text_clause false query) id s false known (inl none_written) = inl none_written
bound-IsPinned (text_clause false query) id s false known (inr flag) = cc
bound-IsPinned unknown id s flag known h =
    rebind-IsPinned unknown (record s { force_primary = flag }) h

attempt-IsPinned :
    (clause : Clause) (id : ℕ) (down : Engine → Bool) (s : Session)
    → is_recognised clause ≡ true
    → IsPinned s
    → IsPinned (attempt clause id down s).1
unfolding attempt
attempt-IsPinned clause id down s known h =
    elim (Bool-cases (down (get_bind clause s.force_primary).0)) [
      | inl e ↦ rw e (rebind-IsPinned clause s h)
      | inr e ↦ rw e (bound-IsPinned clause id s s.force_primary known h)
    ]

-- a session that may fail over has nothing to lose
idle : (s : Session) → IsPinned s → can_fail_over s ≡ true → (s.written ≡ []) × (s.pending ≡ [])
unfolding can_fail_over
idle s h e = ground arith

execute-IsPinned :
    (clause : Clause) (id : ℕ) (down_first down_again : Engine → Bool) (s : Session)
    → is_recognised clause ≡ true
    → IsPinned s
    → IsPinned (execute clause id down_first down_again s).1
unfolding execute
execute-IsPinned clause id down_first down_again s known h =
    settled (attempt clause id down_first s) (attempt-IsPinned clause id down_first s known h)
  where
    settled : (r : Outcome × Session) → IsPinned r.1 → IsPinned (fail_over clause id down_again r).1
    settled (done engine, t) k = k
    settled (failed, t) k = elim (Bool-cases (can_fail_over t)) [
      | inl e ↦ rw e (attempt-IsPinned clause id down_again _ known (inl refl))
      | inr e ↦ rw e k
    ]

idle-HasWork : (work : ℕ) (t : Session) → (t.written ≡ []) × (t.pending ≡ []) → HasWork work t → ⊥
unfolding any
idle-HasWork work t (no_writes, no_pending) (inl k) = false≢true (rw no_writes at k)
idle-HasWork work t (no_writes, no_pending) (inr k) = false≢true (rw no_pending at k)

execute-HasWork :
    (clause : Clause) (id work : ℕ) (down_first down_again : Engine → Bool) (s : Session)
    → is_recognised clause ≡ true
    → IsPinned s
    → HasWork work s
    → HasWork work (execute clause id down_first down_again s).1
unfolding execute
execute-HasWork clause id work down_first down_again s known h has =
    settled (attempt clause id down_first s) (attempt-IsPinned clause id down_first s known h) (
      Grows-HasWork work s (attempt clause id down_first s).1 (attempt-Grows clause id down_first s)
        has)
  where
    settled :
        (r : Outcome × Session)
        → IsPinned r.1
        → HasWork work r.1
        → HasWork work (fail_over clause id down_again r).1
    settled (done engine, t) pinned k = k
    settled (failed, t) pinned k = elim (Bool-cases (can_fail_over t)) [
      | inl e ↦ absurd (idle-HasWork work t (idle t pinned e) k)
      | inr e ↦ rw e k
    ]

operate-IsPinned :
    (o : Operation) (s : Session) → is_plain o ≡ true → IsPinned s → IsPinned (operate o s)
unfolding operate
operate-IsPinned (add id) s known h = h
operate-IsPinned flush s known h = elim (Bool-cases (is_empty s.pending)) [
  | inl e ↦ rw e h
  | inr e ↦ rw e (inr refl)
]
operate-IsPinned (statement clause id down_first down_again) s known h =
    execute-IsPinned clause id down_first down_again s known h

operate-HasWork :
    (o : Operation) (work : ℕ) (s : Session)
    → is_plain o ≡ true
    → IsPinned s
    → HasWork work s
    → HasWork work (operate o s)
unfolding operate
operate-HasWork (add id) work s known h (inl k) = inl k
operate-HasWork (add id) work s known h (inr k) =
    inr (any-left (λ i. i == work) s.pending (id ∷ []) k)
operate-HasWork flush work s known h k = elim (Bool-cases (is_empty s.pending)) [
  | inl e ↦ rw e k
  | inr e ↦ rw e (inl (flushed k))
]
  where
    flushed : HasWork work s → any (λ i. i == work) (s.written ++ s.pending) ≡ true
    flushed (inl k) = any-left _ s.written s.pending k
    flushed (inr k) = any-right _ s.written s.pending k
operate-HasWork (statement clause id down_first down_again) work s known h k =
    execute-HasWork clause id work down_first down_again s known h k

-- From a session that is pinned if it has written, and where each text that changes data starts with insert,
-- update, delete, create, drop or alter: whatever operations follow up to the next commit, and whatever
-- engines are out of reach at each of them, an object that was pending or written is still pending or
-- written at the end, so no failover has rolled it back.
pub failover_keeps_work :
    (os : List Operation) (work : ℕ) (s : Session)
    → All (λ o. is_plain o ≡ true) os
    → IsPinned s
    → HasWork work s
    → HasWork work (operate_all os s)
unfolding operate_all
failover_keeps_work [] work s known h k = k
failover_keeps_work (o ∷ os) work s (known, rest) h k =
    failover_keeps_work os work (operate o s) rest (operate-IsPinned o s known h)
      (operate-HasWork o work s known h k)

all-IsPinned :
    (os : List Operation) (s : Session)
    → All (λ o. is_plain o ≡ true) os
    → IsPinned s
    → IsPinned (operate_all os s)
unfolding operate_all
all-IsPinned [] s known h = h
all-IsPinned (o ∷ os) s (known, rest) h =
    all-IsPinned os (operate o s) rest (operate-IsPinned o s known h)

-- From a session that is pinned if it has written, and where each text that changes data starts with insert,
-- update, delete, create, drop or alter: if after any operations it has written something, then every
-- statement goes to the primary.
pub reads_own_writes :
    (os : List Operation) (s : Session) (clause : Clause)
    → All (λ o. is_plain o ≡ true) os
    → IsPinned s
    → is_empty (operate_all os s).written ≡ false
    → (get_bind clause (operate_all os s).force_primary).0 ≡ primary
unfolding get_bind
reads_own_writes os s clause known h wrote = elim (all-IsPinned os s known h) [
  | inl none_written ↦ ground (arith, none_written)
  | inr flag ↦ rw flag refl
]
