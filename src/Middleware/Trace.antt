-- ===== src/Middleware/Trace.antt =====
-- An application as what it does while it serves a request, and what reaches the server of it.
use fasti_kit.Base.{
  ℕ, suc, true, not, ◌&&◌, Bool, String, Option, some, List, [], ◌∷◌, ◌≡◌, if◌then◌else◌,
}
use fasti_kit.Middleware.{
  same_name, HeaderOps, Message, start, body, Scope, Ending, returned, raised, Call, Send, App,
  sequence, counted_on, before_cursor_execute,
}

-- a statement of the database, or a message of the response
pub data Event (H : Type 0) : Type 0 where
  query : Event H
  emit : Message H → Event H

-- `attached` says whether the engines count their statements.
module _ {H : Type 0} (attached : Bool) where
  unfoldable pub play : List (Event H) → Ending → Send H → Call H
  play [] ending send s = (ending, s)
  play (query ∷ events) ending send s =
      sequence (before_cursor_execute attached) (play events ending send) s
  play (emit message ∷ events) ending send s = sequence (send message) (play events ending send) s

  -- an application by what it does on a scope under the id in its context
  unfoldable pub application : (Scope H → String → List (Event H) × Ending) → App H
  application behave scope send s =
      play (behave scope s.request_id).0 (behave scope s.request_id).1 send s

  abbrev pub count_after : List (Event H) → ℕ → ℕ
  count_after [] count = count
  count_after (query ∷ events) count = count_after events (counted_on attached count)
  count_after (emit message ∷ events) count = count_after events count

-- Whether the application keeps to one response: it starts one at most, and raises only before that.
-- The flag says whether the response has started.
unfoldable pub is_single : {H : Type 0} → Bool → List (Event H) → Ending → Bool
is_single is_started [] returned = true
is_single is_started [] raised = not is_started
is_single is_started (query ∷ events) ending = is_single is_started events ending
is_single is_started (emit (body content) ∷ events) ending = is_single is_started events ending
is_single is_started (emit (start status h) ∷ events) ending =
    let rest = is_single true events ending in not is_started && rest

-- how many responses the messages start
unfoldable pub count_starts : {H : Type 0} → List (Message H) → ℕ
count_starts [] = 0
count_starts (start status h ∷ messages) = suc (count_starts messages)
count_starts (body content ∷ messages) = count_starts messages

-- the value of a header where `added` was written over what was there
abbrev pub found : String → List (String × String) → Option String → Option String
found name [] there = there
found name ((key, value) ∷ added) there =
    found name added (if same_name key name then some value else there)

module _ (ops : HeaderOps) where
  open ops use {Headers, get}

  -- a message that is another one with headers added
  abbrev pub Like : List (String × String) → Message Headers → Message Headers → Type 0
  Like added (body content) made = made ≡ body content
  Like added (start status h) made =
      (h' : Headers) × (made ≡ start status h')
      × ((name : String) → get name h' ≡ found name added (get name h))

module _ (ops : HeaderOps) (attached : Bool) where
  open ops use {Headers}

  -- The messages of the events in their order, each with the headers that its number of statements so
  -- far adds, and `Tail` of what follows them.
  abbrev pub Stamped :
      (ℕ → List (String × String))
      → (List (Message Headers) → Type 0)
      → ℕ
      → List (Event Headers)
      → List (Message Headers)
      → Type 0
  Stamped added Tail count [] messages = Tail messages
  Stamped added Tail count (query ∷ events) messages =
      Stamped added Tail (counted_on attached count) events messages
  Stamped added Tail count (emit message ∷ events) [] = ⊥
  Stamped added Tail count (emit message ∷ events) (made ∷ messages) =
      Like ops (added count) message made × Stamped added Tail count events messages
