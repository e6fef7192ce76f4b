-- ===== src/Middleware/Stack/Sending.antt =====
-- What each `send` adds to a message, and what an application sends through it.
use fasti_kit.Base.{
  ℕ, String, Option, some, List, [], ◌∷◌, ◌++◌, ◌≡◌, refl, ◌∙◌, ap, if◌then◌else◌, Bool, Bool-cases,
  inl, inr, ltb, sym,
}
use mathlib.Core.List.{append-nil, append_assoc}
use fasti_kit.Middleware.{
  same_name, HeaderOps, Message, start, body, Scope, Task, LogEntry, n1_alert, Ending, returned,
  Send, Web, deliver, security_headers, set_all, set_in, counted_on, send_with_security_headers,
  send_with_correlation_header, send_with_query_count_header,
}
use fasti_kit.Middleware.Trace.{Event, query, emit, play, count_after, found, Like, Stamped}

pub found-append :
    (name : String) (first next : List (String × String)) (there : Option String)
    → found name (first ++ next) there ≡ found name next (found name first there)
found-append name [] next there = refl
found-append name ((key, value) ∷ first) next there =
    found-append name first next (if same_name key name then some value else there)

module _ (ops : HeaderOps) (web : Web ops) where
  open ops use {Headers, get, set}

  get-set_all :
      (name : String) (added : List (String × String)) (h : Headers)
      → get name (set_all ops web added h) ≡ found name added (get name h)
  unfolding set_all
  get-set_all name [] h = refl
  get-set_all name ((key, value) ∷ added) h =
      get-set_all name added (set key value h)
      ∙ ap (found name added) (ops.get-set name key value h)

  Like-set_in :
      (extra added : List (String × String)) (message made : Message Headers)
      → Like ops added (set_in ops web extra message) made
      → Like ops (extra ++ added) message made
  Like-set_in extra added (body content) made like = like
  Like-set_in extra added (start status h) made (h', e, like) = (
    h',
    e,
    λ name.
        like name ∙ rw (found-append name extra added (get name h), get-set_all name extra h) refl,
  )

  -- A `send` that reaches the server with the message, plus the headers for the number of statements.
  abbrev pub Faithful : (ℕ → List (String × String)) → Send Headers → Type 0
  Faithful added send =
      (message : Message Headers) (s : Task Headers)
      → (made : Message Headers) × (log : List LogEntry) × (send message s
          ≡ (returned, record s { sent = s.sent ++ made ∷ []; log = log }))
        × Like ops (added s.query_count) message made

  pub deliver-Faithful : Faithful (λ _. []) (deliver {H = Headers})
  unfolding deliver
  deliver-Faithful (start status h) s = (start status h, s.log, refl, (h, refl, λ name. refl))
  deliver-Faithful (body content) s = (body content, s.log, refl, refl)

  module _ (added : ℕ → List (String × String)) (send : Send Headers)
      (faithful : Faithful added send) where
    through :
        (extra : List (String × String)) (message : Message Headers) (s : Task Headers)
        → (made : Message Headers) × (log : List LogEntry) × (send (set_in ops web extra message) s
            ≡ (returned, record s { sent = s.sent ++ made ∷ []; log = log }))
          × Like ops (extra ++ added s.query_count) message made
    through extra message s =
        let (made, log, e, like) = faithful (set_in ops web extra message) s in
        (made, log, e, Like-set_in extra (added s.query_count) message made like)

    pub security-Faithful :
        (hsts : Bool)
        → Faithful
            (λ n. security_headers hsts ++ added n)
            (send_with_security_headers ops web hsts send)
    unfolding send_with_security_headers
    security-Faithful hsts message s = through (security_headers hsts) message s

    pub correlation-Faithful :
        (id : String)
        → Faithful
            (λ n. ("X-Request-ID", id) ∷ added n)
            (send_with_correlation_header ops web id send)
    unfolding send_with_correlation_header
    correlation-Faithful id message s = through (("X-Request-ID", id) ∷ []) message s

    pub count-Faithful :
        (scope : Scope Headers) (threshold : ℕ)
        → Faithful
            (λ n. ("X-Query-Count", web.decimal n) ∷ added n)
            (send_with_query_count_header ops web scope threshold send)
    unfolding send_with_query_count_header
    count-Faithful scope threshold (body content) s =
        through (("X-Query-Count", web.decimal s.query_count) ∷ []) (body content) s
    count-Faithful scope threshold (start status h) s =
        let extra : List (String × String) = ("X-Query-Count", web.decimal s.query_count) ∷ [] in
        elim (Bool-cases (ltb threshold s.query_count)) [
          | inl over ↦ rw over (
              through extra (start status h) (record s {
                log = s.log ++ n1_alert scope.method scope.path s.query_count threshold ∷ [];
              }))
          | inr within ↦ rw within (through extra (start status h) s)
        ]

    pub play_lem :
        (attached : Bool) (events : List (Event Headers)) (ending : Ending) (s : Task Headers)
        → (made : List (Message Headers)) × (log : List LogEntry) × (play attached events ending
              send s
            ≡ (
              ending,
              record s {
                sent = s.sent ++ made;
                query_count = count_after attached events s.query_count;
                log = log;
              },
            ))
          × Stamped ops attached added (λ messages. messages ≡ []) s.query_count events made
    unfolding play
    play_lem attached [] ending s =
        ([], s.log, (λ i. (ending, record s { sent = sym (append-nil s.sent) i })), refl)
    play_lem attached (query ∷ events) ending s =
        play_lem attached events ending
          (record s { query_count = counted_on attached s.query_count })
    play_lem attached (emit message ∷ events) ending s =
        let (first, log', e, like) = faithful message s in
        let (made, log, e', stamped) =
          play_lem attached events ending (record s { sent = s.sent ++ first ∷ []; log = log' }) in
        (
          first ∷ made,
          log,
          rw e e' ∙ (λ i. (
            ending,
            record s {
              sent = append_assoc s.sent (first ∷ []) made i;
              query_count = count_after attached events s.query_count;
              log = log;
            },
          )),
          (like, stamped),
        )
