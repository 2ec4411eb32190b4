-- ===== src/Http/Connection/Upgrade.antt =====
-- A read with one message, and when an exception leaves its handler.
pub mod Switch
pub mod Twice
pub mod Tests
use mathlib.Core.Path.{subst}
use suda_gureum.Base.{
  sym, ℕ, ◌≡◌, ◌↔◌, refl, ap, ◌∙◌, Bool, true, false, not, ◌&&◌, ◌||◌, inl, inr, Bool-cases,
  Option-cases, List, [], ◌∷◌, ◌++◌, append_assoc, map, drop, Option, none, some, ltb,
  if◌then◌else◌, Bytes, codes, length, arith,
}
use suda_gureum.Base.Boost.{is_infix}
use suda_gureum.Http.Connection.Answers.{
  async_write-buffer_to_write, send_response-buffer_to_write, IsPlain, answers, sent_for, kept,
  counted, message_complete-IsPlain, plain_request-kept, plain_request-last,
}
use suda_gureum.Http.Connection.Reads.{
  Call, calls, completes, Execution, Ran, returned, threw, After, stays, upgrades, escapes, run,
  with_call, after_message, message_complete, parse_result, after_parse, after_run, handle_read,
}
use suda_gureum.Http.Connection.Requests.{
  Answer, answered, raised, header_at, wants_web_socket, web_socket_request, accept_upgrade,
  switching_protocols, accept_of, wants_keep_alive, has_timeout, plain_request, proc_http_request,
}
use suda_gureum.Http.Connection.{
  Environment, Connection, send_raw, send_bad_request_response, cancel_keep_alive_timeout,
  count_down,
}
use suda_gureum.Http.Parser.{Callback, Info, Request, callbacks, callback, no_request, request_of}
use suda_gureum.Socket.{emplace_back, async_write}
use suda_gureum.WebSocket.Connection.{taken_over}
use suda_gureum.WebSocket.Connection
use suda_gureum.Http.Connection.Reads.Cases.{
  parsing, handle_read-parse, after_parse-web_socket, after_parse-upgraded, HasEscaped,
  after_parse-HasEscaped,
}
use suda_gureum.WebSocket.Json.{Json}

-- The calls for one message.
abbrev pub one_message : List Callback → Info → ℕ → List Call
one_message [] info at = completes info at ∷ []
one_message (cb ∷ cbs) info at = calls cb ∷ one_message cbs info at

module _ (env : Environment) where
  -- The connection when the end of the message is reached.
  abbrev pub heard : List Callback → Connection → Connection
  heard cbs c = record c { parser = callbacks env.boost cbs c.parser }

  run-one_message :
      (cbs : List Callback) (info : Info) (at : ℕ) (upgrade : Bool) (parsed : ℕ) (c : Connection)
      → run env (one_message cbs info at) upgrade parsed c
        ≡ after_message env
            (run env [] upgrade parsed)
            info
            at
            (message_complete env info (heard cbs c))
  unfolding run callbacks
  run-one_message [] info at upgrade parsed c = refl
  run-one_message (cb ∷ cbs) info at upgrade parsed c =
      run-one_message cbs info at upgrade parsed (with_call env cb c)

  abbrev pub is_plain : Option Bool → Bool
  is_plain none = false
  is_plain (some wanted) = not wanted

  -- A header is asked for that is not there.
  unfoldable pub lacks_header : Request → Bool
  lacks_header r = r.upgrade && elim (header_at env (codes "Upgrade") r) [
    | none ↦ true
    | some protocol ↦
        env.boost.iequals protocol (codes "websocket")
        && (r.http11 && elim (header_at env (codes "Sec-WebSocket-Version") r) [
          | none ↦ true
          | some version ↦
              is_infix (codes "13") version && elim (header_at env (codes "Sec-WebSocket-Key") r) [
                | none ↦ true
                | some key ↦ false
              ]
        ])
  ]

  -- A kept-alive answer is due, with a timeout that cannot be read.
  unfoldable pub lacks_timeout : Request → Connection → Bool
  lacks_timeout r c =
      not (has_timeout env env.keep_alive_timeout)
      && (wants_keep_alive env c.keep_alive_count r && is_plain (wants_web_socket env r))

  abbrev pub IsRaised : Answer → Type 0
  IsRaised (raised d) = Unit
  IsRaised (answered goes_on d) = ⊥

  proc_http_request-IsRaised_iff :
      (r : Request) (c : Connection)
      → IsRaised (proc_http_request env r c) ↔ ((lacks_header r || lacks_timeout r c) ≡ true)
  unfolding proc_http_request wants_web_socket lacks_header lacks_timeout web_socket_request
      accept_upgrade plain_request
  proc_http_request-IsRaised_iff r c = ground arith

  -- The connection when the callback for the one message is called.
  abbrev pub reset : List Callback → Connection → Connection
  reset cbs c =
      let d : Connection = heard cbs (parsing c) in
      record d { parser = record d.parser { request = no_request } }

  -- The answer for the one message.
  abbrev pub answer : List Callback → Request → Connection → Answer
  answer cbs r c = proc_http_request env r (reset cbs c)

  message_complete-read :
      (info : Info) (c : Connection) (r : Request)
      → request_of env.boost env.numbers info c.parser.request ≡ some r
      → message_complete env info c
        ≡ proc_http_request env r (record c { parser = record c.parser { request = no_request } })
  unfolding message_complete
  message_complete-read info c r h = ground (arith, h)

  -- With the request counted.
  abbrev pub counting : List Callback → Connection → Connection
  counting cbs c = record (reset cbs c) { keep_alive_count = count_down c.keep_alive_count }

module _ (env : Environment) (json : Json) where
  -- A read in which http-parser finds one message.
  pub record ReadsOne (x : Execution) (cbs : List Callback) (info : Info) (at : ℕ) (r : Request)
      (c : Connection) : Type 0 where
    pub made : x.made ≡ one_message cbs info at
    pub reads_on : c.continue_read ≡ true
    pub is_read :
        request_of env.boost env.numbers info (callbacks env.boost cbs c.parser).request ≡ some r

  pub handle_read-one_message :
      (input : Bytes) (x : Execution) (cbs : List Callback) (info : Info) (at : ℕ) (r : Request)
      (c : Connection)
      → ReadsOne x cbs info at r c
      → handle_read env json false input x c
        ≡ after_run env json input
            (after_message env (returned x.upgrade x.parsed) info at (answer env cbs r c))
  unfolding run
  handle_read-one_message input x cbs info at r c v =
      handle_read-parse env json input x c v.reads_on
      ∙ ap (λ cs. after_run env json input (run env cs x.upgrade x.parsed (parsing c))) v.made
      ∙ ap (after_run env json input)
          (run-one_message env cbs info at x.upgrade x.parsed (parsing c))
      ∙ ap
          (λ a.
            after_run env json input (after_message env (returned x.upgrade x.parsed) info at a))
          (message_complete-read env info (heard env cbs (parsing c)) r v.is_read)

  after_message-HasEscaped :
      (input : Bytes) (x : Execution) (info : Info) (at : ℕ) (a : Answer)
      → HasEscaped
          (after_run env json input (after_message env (returned x.upgrade x.parsed) info at a))
        ↔ IsRaised env a
  after_message-HasEscaped input x info at (raised d) = (λ h. h, λ h. h)
  after_message-HasEscaped input x info at (answered true d) = (
    after_parse-HasEscaped env json (parse_result x.upgrade x.parsed (length input)) input d,
    λ h. absurd h,
  )
  after_message-HasEscaped input x info at (answered false d) = (
    after_parse-HasEscaped env json (parse_result info.upgrade at (length input)) input d,
    λ h. absurd h,
  )

  pub handle_read-HasEscaped_iff :
      (input : Bytes) (x : Execution) (cbs : List Callback) (info : Info) (at : ℕ) (r : Request)
      (c : Connection)
      → ReadsOne x cbs info at r c
      → HasEscaped (handle_read env json false input x c)
        ↔ ((lacks_header env r || lacks_timeout env r c) ≡ true)
  unfolding lacks_timeout
  handle_read-HasEscaped_iff input x cbs info at r c v =
      let eq = handle_read-one_message input x cbs info at r c v in
      let kept = after_message-HasEscaped input x info at (answer env cbs r c) in
      let lacks = proc_http_request-IsRaised_iff env r (reset env cbs c) in
      (
        λ h. lacks.0 (kept.0 (subst HasEscaped eq h)),
        λ h. subst HasEscaped (sym eq) (kept.1 (lacks.1 h)),
      )
