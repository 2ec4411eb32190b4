-- ===== src/Http/Connection/Reads.antt =====
-- `HttpParser::parse` (HttpParser.cpp), and `handleRead` of the HTTP connection (HttpServer.cpp) with the
-- WebSocket connection that it makes (WebSocketServer.cpp). What `http_parser_execute` does with a read
-- is an argument: its calls in order, and what it leaves. A callback that does not return 0 ends it.
pub mod Cases
use suda_gureum.Base.{
  ℕ, Bool, true, false, not, List, [], ◌∷◌, none, some, ◌==◌, ltb, drop, if◌then◌else◌, length,
  Bytes,
}
use suda_gureum.Http.Connection.Requests.{Answer, answered, raised, proc_http_request}
use suda_gureum.Http.Connection.{
  Environment, Connection, send_bad_request_response, read, cancel_keep_alive_timeout, close,
}
use suda_gureum.Http.Parser.{Callback, Info, no_request, callback, request_of}
use suda_gureum.WebSocket.Connection.{Running, taken_over}
use suda_gureum.WebSocket.Connection
use suda_gureum.WebSocket.Json.{Json}

-- A call of `http_parser_execute`. The end of a message has what the parser holds then, and the
-- number of bytes that it returns if it is stopped there.
pub data Call : Type 0 where
  calls : Callback → Call
  completes : Info → ℕ → Call

-- A run that is not stopped: its calls, the flag it leaves, and the number of bytes it returns.
pub record Execution : Type 0 where
  pub made : List Call
  pub upgrade : Bool
  pub parsed : ℕ

-- The flag for an upgrade and the number of bytes after the run; or an exception.
pub data Ran : Type 0 where
  returned : Bool → ℕ → Connection → Ran
  threw : Connection → Ran

-- What the event loop has afterwards: the connection, the WebSocket connection that took over the
-- socket, or an exception that leaves the handler.
pub data After : Type 0 where
  stays : Connection → After
  upgrades : Connection → Running → After
  escapes : Connection → After

module _ (env : Environment) where
  abbrev pub with_call : Callback → Connection → Connection
  with_call cb c = record c { parser = callback env.boost cb c.parser }

  -- `completeRequest` with `procHttpRequest` as its callback; `Finally` resets the request.
  unfoldable pub message_complete : Info → Connection → Answer
  message_complete info c =
      let d : Connection = record c { parser = record c.parser { request = no_request } } in
      elim (request_of env.boost env.numbers info c.parser.request) [
        | none ↦ answered false d
        | some request ↦ proc_http_request env request d
      ]

  abbrev pub after_message : (Connection → Ran) → Info → ℕ → Answer → Ran
  after_message rest info at (raised d) = threw d
  after_message rest info at (answered true d) = rest d
  after_message rest info at (answered false d) = returned info.upgrade at d

  unfoldable pub run : List Call → Bool → ℕ → Connection → Ran
  unfolding message_complete
  run [] upgrade parsed c = returned upgrade parsed c
  run (calls cb ∷ cs) upgrade parsed c = run cs upgrade parsed (with_call cb c)
  run (completes info at ∷ cs) upgrade parsed c =
      after_message (run cs upgrade parsed) info at (message_complete info c)

-- The value that `parse` returns for a read of `size` bytes.
abbrev pub parse_result : Bool → ℕ → ℕ → Bool × ℕ
parse_result upgrade parsed size =
    if upgrade then (true, parsed) else if parsed == size then (true, 0) else (false, 0)

module _ (env : Environment) (json : Json) where
  unfoldable pub after_parse : Bool × ℕ → Bytes → Connection → After
  after_parse (false, at) input c = stays (send_bad_request_response env c)
  after_parse (true, at) input c =
      if ltb 0 at
      then if c.upgrade_web_socket
        then upgrades (record c { has_socket = false })
            (Connection.handle_read json false (drop at input) taken_over)
        else stays (send_bad_request_response env c)
      else if c.continue_read
      then stays (read c)
      else stays c

  abbrev pub after_run : Bytes → Ran → After
  after_run input (threw c) = escapes c
  after_run input (returned upgrade parsed c) =
      after_parse (parse_result upgrade parsed (length input)) input c

  -- `handleRead`; the flag is the error code.
  unfoldable pub handle_read : Bool → Bytes → Execution → Connection → After
  unfolding after_parse
  handle_read failed input x c =
      let d : Connection = record c { read_pending = false } in
      if not c.continue_read
      then stays d
      else if failed
      then stays (close (cancel_keep_alive_timeout d))
      else after_run input (run env x.made x.upgrade x.parsed (cancel_keep_alive_timeout d))
