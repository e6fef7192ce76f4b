-- ===== src/Middleware/Stack/Answering.antt =====
-- What a middleware sends for an application that raised.
use mathlib.Core.List.{append-nil, append_assoc}
use fasti_kit.Base.{
  ℕ, String, Bool, true, false, List, [], ◌∷◌, ◌++◌, ◌≡◌, refl, ◌∙◌, sym, subst, string_eq,
}
use fasti_kit.Problem.{Response}
use fasti_kit.Middleware.{
  HeaderOps, Message, start, body, Scope, Task, LogEntry, Ending, returned, raised, Send, Web,
  security_headers, problem, respond, answer_crash, or_call, counted_on, unhandled,
}
use fasti_kit.Middleware.Trace.{Event, query, emit, found, Stamped}
use fasti_kit.Middleware.Stack.Sending.{Faithful}

module _ (ops : HeaderOps) (web : Web ops) where
  open ops use {Headers, get}

  -- the header of the detector, and all headers that a message gets
  abbrev pub counted : Bool → ℕ → List (String × String)
  counted true count = ("X-Query-Count", web.decimal count) ∷ []
  counted false count = []

  abbrev pub stamp : Bool → Bool → String → ℕ → List (String × String)
  stamp hsts local id count = security_headers hsts ++ ("X-Request-ID", id) ∷ counted local count

  -- The messages of the response to an error, and the headers of the first.
  abbrev pub Answers : List (String × String) → Response → List (Message Headers) → Type 0
  Answers added response messages =
      (h : Headers) × (messages
        ≡ start response.status_code h ∷ body (web.rendered response).1 ∷ [])
      × ((name : String) → get name h ≡ found name added (get name (web.rendered response).0))

  -- what follows the messages of an application
  abbrev pub After :
      (ℕ → List (String × String)) → Response → ℕ → Ending → List (Message Headers) → Type 0
  After added crash count returned messages = messages ≡ []
  After added crash count raised messages = Answers (added count) crash messages

  pub Stamped-append :
      (attached : Bool) (added : ℕ → List (String × String))
      (Tail : List (Message Headers) → Type 0) (count : ℕ) (events : List (Event Headers))
      (made rest : List (Message Headers))
      → Stamped ops attached added (λ messages. messages ≡ []) count events made
      → Tail rest
      → Stamped ops attached added Tail count events (made ++ rest)
  Stamped-append attached added Tail count [] made rest stamped tail =
      subst (λ before. Tail (before ++ rest)) (sym stamped) tail
  Stamped-append attached added Tail count (query ∷ events) made rest stamped tail =
      Stamped-append attached added Tail (counted_on attached count) events made rest stamped tail
  Stamped-append attached added Tail count (emit message ∷ events) [] rest stamped tail =
      absurd stamped
  Stamped-append attached added Tail count (emit message ∷ events) (first ∷ made) rest stamped
        tail =
      (stamped.0, Stamped-append attached added Tail count events made rest stamped.1 tail)

  module _ (added : ℕ → List (String × String)) (send : Send Headers)
      (faithful : Faithful ops web added send) where
    respond_lem :
        (response : Response) (s : Task Headers)
        → (made : List (Message Headers)) × (log : List LogEntry) × (respond ops web response send s
            ≡ (returned, record s { sent = s.sent ++ made; log = log }))
          × Answers (added s.query_count) response made
    unfolding respond
    respond_lem response s =
        let (first, log', e, (h, made, like)) =
          faithful (start response.status_code (web.rendered response).0) s in
        let (second, log, e', same) =
          faithful (body (web.rendered response).1)
            (record s { sent = s.sent ++ first ∷ []; log = log' }) in
        (
          first ∷ second ∷ [],
          log,
          rw e e' ∙ (λ i. (
            returned,
            record s { sent = append_assoc s.sent (first ∷ []) (second ∷ []) i; log = log },
          )),
          (h, (λ i. made i ∷ same i ∷ []), like),
        )

    -- After an application has ended, a middleware answers for it if it raised.
    pub answered :
        (middleware : String) (scope : Scope Headers) (ending : Ending) (s : Task Headers)
        → (made : List (Message Headers)) × (log : List LogEntry) × (or_call ending
              (answer_crash ops web middleware scope send)
              s
            ≡ (returned, record s { sent = s.sent ++ made; log = log }))
          × After added (problem ops web scope s) s.query_count ending made
    unfolding answer_crash problem
    answered middleware scope returned s =
        ([], s.log, (λ i. (returned, record s { sent = sym (append-nil s.sent) i })), refl)
    answered middleware scope raised s =
        respond_lem (problem ops web scope s)
          (record s { log = s.log ++ unhandled middleware ∷ [] })
