-- ===== src/WebSocket/Connection.antt =====
-- `WebSocketConnection` (WebSocketServer.cpp): the closing handshake, pings and the requests. What
-- is handed to the socket is kept in order; asynchronous reads and the timer are flags that say
-- whether one is pending. Logging and the handshake of SSL are left out.
pub mod Closing
pub mod Replies
pub mod Framed
pub mod Tests
use text.Mathlib.Text
use suda_gureum.Base.{
  ℕ, Bool, true, false, not, List, [], ◌∷◌, ◌++◌, if◌then◌else◌, Bytes, bytes_eq, codes,
}
use suda_gureum.WebSocket.Encoder.{Encoded, frame, wild_read, encode_frame}
use suda_gureum.WebSocket.Json.{Json, Writer}
use suda_gureum.WebSocket.Message.{
  WebSocketRequest, RequestCommand, WebSocketResponse, ResponseCommand, SudaGureumRequest,
  SudaGureumResponse, response_to, opcode,
}
use suda_gureum.WebSocket.Parser.{Parser, Event, wscb, sgcb, Outcome, done, aborted, initial, parse}

pub record Connection : Type 0 where
  pub parser : Parser
  pub close_ready : Bool
  pub close_received : Bool
  -- the responses given to `socket_->asyncWrite`, in order
  pub written : List WebSocketResponse
  pub socket_open : Bool
  pub timer_pending : Bool
  pub read_pending : Bool

-- The constructor that takes over the socket of an HTTP connection. Its test of the size never fails:
-- the buffers of both connections have one size.
abbrev pub taken_over : Connection
taken_over = record {
  parser = initial;
  close_ready = false;
  close_received = false;
  written = [];
  socket_open = true;
  timer_pending = false;
  read_pending = false;
}

-- The process goes on, or it ended: by a wild read in `encodeFrame` or a failed assertion.
pub data Running : Type 0 where
  running : Connection → Running
  crashed : Running

infixl 5 ◌>>=◌
abbrev pub ◌>>=◌ : Running → (Connection → Running) → Running
running c >>= f = f c
crashed >>= f = crashed

-- `sendRaw(encodeFrame(…))`
sent : Encoded → WebSocketResponse → Connection → Running
sent (frame bytes) response c = running (record c { written = c.written ++ response ∷ [] })
sent (wild_read n) response c = crashed

pub send_web_socket_response : WebSocketResponse → Connection → Running
unfolding sent
send_web_socket_response response c =
    sent (encode_frame (opcode response.command) response.raw_data) response c

abbrev pub response_of : ResponseCommand → Bytes → WebSocketResponse
response_of command raw_data = record { command = command; raw_data = raw_data }

-- The members of the response, and those that go with every response, as a text.
abbrev pub text_of : (w : Writer) → SudaGureumResponse w.Member → WebSocketResponse
text_of w response = response_of ResponseCommand.text (
    w.accept (
      response.response_doc
      ++ (w.number_member (codes "_reqid") response.id
          ∷ w.bool_member (codes "success") response.success
          ∷ [])))

pub send_suda_gureum_response : (w : Writer) → SudaGureumResponse w.Member → Connection → Running
send_suda_gureum_response w response c = send_web_socket_response (text_of w response) c

-- The answer of the handler for a heartbeat that cannot be read.
pub invalid_json : (w : Writer) → SudaGureumRequest → SudaGureumResponse w.Member
invalid_json w request = record (response_to request false) {
  response_doc = w.string_member (codes "message") (codes "invalid json") ∷ [];
}

abbrev pub read : Connection → Connection
read c = record c { read_pending = true }

abbrev pub close_socket : Connection → Connection
close_socket c = record c { socket_open = false }

pub close : Connection → Running
close c = do
  d ←
      send_web_socket_response (response_of ResponseCommand.close [])
        (record c { close_ready = true })
  running (record d { timer_pending = true })

-- The flag is the error code.
pub handle_handshake : Bool → Connection → Running
handle_handshake failed c = running (if failed then c else read c)

proc_close : Connection → Running
unfolding close
proc_close c =
    if c.close_ready then running (close_socket (record c { timer_pending = false })) else close c

proc_web_socket_request : WebSocketRequest → Connection → Running
unfolding proc_close
proc_web_socket_request request c = elim request.command [
  | RequestCommand.ping ↦
      send_web_socket_response (response_of ResponseCommand.pong request.raw_data) c
  | RequestCommand.close ↦ proc_close (record c { close_received = true })
]

-- A heartbeat looks up a parameter, and `params_` is always empty: `at` throws `out_of_range`, which
-- `parsePayload` catches. No other method is there. So nothing is sent in any case.
proc_suda_gureum_request : SudaGureumRequest → Connection → Running
proc_suda_gureum_request request c = running c

proc_event : Event → Connection → Running
unfolding proc_web_socket_request proc_suda_gureum_request
proc_event (wscb request) c = proc_web_socket_request request c
proc_event (sgcb request) c = proc_suda_gureum_request request c

proc_events : List Event → Connection → Running
unfolding proc_event
proc_events [] c = running c
proc_events (e ∷ es) c = proc_event e c >>= proc_events es

-- The end of `handleRead`, on the value that `parse` returned.
after_parse : Bool → Connection → Connection
after_parse false c = close_socket c
after_parse true c = if c.close_received then c else read c

parsed : Outcome → Connection → Running
unfolding proc_events after_parse
parsed (done p es ok) c = do
  d ← proc_events es c
  running (after_parse ok (record d { parser = p }))
parsed (aborted es) c = proc_events es c >>= λ _. crashed

module _ (json : Json) where
  -- `handleRead`; the flag is the error code.
  pub handle_read : Bool → Bytes → Connection → Running
  unfolding parsed
  handle_read true input c = running (if not c.close_ready then close_socket c else c)
  handle_read false input c = parsed (parse json c.parser input) c

pub handle_write : Bool → Connection → Running
handle_write failed c =
    running (if failed then (if not c.close_ready then close_socket c else c) else c)

-- The flag says that the timer was cancelled.
pub handle_close_timeout : Bool → Connection → Running
handle_close_timeout cancelled c = running (if not cancelled then close_socket c else c)
