-- ===== src/WebSocket/Connection/Closing.antt =====
-- The closing handshake, over any sequence of completions.
use suda_gureum.Base.{
  ℕ, ◌+◌, ◌≡◌, refl, ◌⊎◌, Bool, true, false, List, [], ◌∷◌, ◌++◌, if◌then◌else◌, Bytes, arith,
}
use suda_gureum.WebSocket.Encoder.{encode_frame, frame, wild_read, Encoded}
use suda_gureum.WebSocket.Json.{Json}
use suda_gureum.WebSocket.Message.{RequestCommand, WebSocketResponse, ResponseCommand, opcode}
use suda_gureum.WebSocket.Parser.{Parser, Event, wscb, sgcb, Outcome, done, aborted, parse}
use suda_gureum.WebSocket.Connection.{
  Connection, Running, running, crashed, ◌>>=◌, send_web_socket_response, proc_close, proc_event,
  proc_events, parsed, after_parse, handle_read, handle_write, handle_close_timeout, sent,
  proc_web_socket_request,
}

-- A completion: of the pending read, of a write, of the pending timer or of a cancelled one.
pub data Step (json : Json) (c : Connection) (d : Connection) : Type 0 where
  reads :
      (failed : Bool) (input : Bytes)
      → c.read_pending ≡ true
      → handle_read json failed input (record c { read_pending = false }) ≡ running d
      → Step json c d
  writes : (failed : Bool) → handle_write failed c ≡ running d → Step json c d
  expires :
      c.timer_pending ≡ true
      → handle_close_timeout false (record c { timer_pending = false }) ≡ running d
      → Step json c d
  cancelled : handle_close_timeout true c ≡ running d → Step json c d

pub data Reach (json : Json) (c : Connection) : Connection → Type 0 where
  here : Reach json c c
  next : {d e : Connection} → Reach json c d → Step json d e → Reach json c e

abbrev is_close : WebSocketResponse → ℕ
is_close r = elim r.command [ ResponseCommand.close ↦ 1 | _ ↦ 0 ]

-- The close frames among the responses sent.
abbrev pub count_closes : List WebSocketResponse → ℕ
count_closes [] = 0
count_closes (r ∷ rs) = is_close r + count_closes rs

count_closes-append :
    (rs : List WebSocketResponse) (r : WebSocketResponse)
    → count_closes (rs ++ r ∷ []) ≡ count_closes rs + is_close r
count_closes-append [] r = omega arith
count_closes-append (x ∷ rs) r = omega (arith, count_closes-append rs r)

-- One close frame is sent when `close` is called and none before; the peer's close frame is
-- answered, ends the reading, and leads to a closed socket or to a timer that will close it.
-- The first part holds within a handler too.
pub record HandlerInv (c : Connection) : Type 0 where
  pub closes : count_closes c.written ≡ (if c.close_ready then 1 else 0)
  pub answered : c.close_received ≡ true → c.close_ready ≡ true
  pub ends : c.close_received ≡ true → (c.socket_open ≡ false) ⊎ (c.timer_pending ≡ true)

pub record Inv (c : Connection) : Type 0 where
  pub handler : HandlerInv c
  pub stops : c.close_received ≡ true → c.read_pending ≡ false

abbrev pub Holds : (Connection → Type 0) → Running → Type 0
Holds P (running c) = P c
Holds P crashed = Unit

-- Nothing is being read while a handler of the read runs.
abbrev pub NotReading : Connection → Type 0
NotReading c = HandlerInv c × (c.read_pending ≡ false)

send_pong :
    (s : Bytes) (c : Connection)
    → NotReading c
    → Holds NotReading
        (send_web_socket_response (record { command = ResponseCommand.pong; raw_data = s }) c)
unfolding send_web_socket_response
send_pong s c v = go (encode_frame (opcode ResponseCommand.pong) s)
  where
    go :
        (e : Encoded)
        → Holds NotReading (sent e (record { command = ResponseCommand.pong; raw_data = s }) c)
    go (frame bytes) = ground (
      arith,
      count_closes-append c.written (record { command = ResponseCommand.pong; raw_data = s }),
    )
    go (wild_read n) = tt

proc_close-NotReading :
    (c : Connection)
    → NotReading c
    → Holds NotReading (proc_close (record c { close_received = true }))
unfolding proc_close send_web_socket_response encode_frame
proc_close-NotReading c v = ground (
  arith,
  count_closes-append c.written (record { command = ResponseCommand.close; raw_data = [] }),
)

pub bind-Holds :
    (P : Connection → Type 0) (r : Running) (f : Connection → Running)
    → Holds P r
    → ((c : Connection) → P c → Holds P (f c))
    → Holds P (r >>= f)
bind-Holds P (running c) f h k = k c h
bind-Holds P crashed f h k = tt

proc_event-NotReading :
    (e : Event) (c : Connection) → NotReading c → Holds NotReading (proc_event e c)
unfolding proc_event
proc_event-NotReading (sgcb request) c v = v
proc_event-NotReading (wscb request) c v = go request.command
  where
    go :
        (command : RequestCommand)
        → Holds NotReading
            (proc_web_socket_request (record { command = command; raw_data = request.raw_data }) c)
    go RequestCommand.ping = send_pong request.raw_data c v
    go RequestCommand.close = proc_close-NotReading c v

proc_events-NotReading :
    (es : List Event) (c : Connection) → NotReading c → Holds NotReading (proc_events es c)
unfolding proc_events
proc_events-NotReading [] c v = v
proc_events-NotReading (e ∷ es) c v =
    bind-Holds NotReading (proc_event e c) (proc_events es) (proc_event-NotReading e c v)
      (λ d w. proc_events-NotReading es d w)

after_parse-Inv :
    (ok : Bool) (p : Parser) (c : Connection)
    → NotReading c
    → Inv (after_parse ok (record c { parser = p }))
unfolding after_parse
after_parse-Inv false p c v = ground arith
after_parse-Inv true p c v = ground arith

parsed-Inv : (o : Outcome) (c : Connection) → NotReading c → Holds Inv (parsed o c)
unfolding parsed
parsed-Inv (done p es ok) c v = go (proc_events es c) (proc_events-NotReading es c v)
  where
    go :
        (r : Running)
        → Holds NotReading r
        → Holds Inv (r >>= λ d. running (after_parse ok (record d { parser = p })))
    go (running d) w = after_parse-Inv ok p d w
    go crashed w = tt
parsed-Inv (aborted es) c v = go (proc_events es c)
  where
    go : (r : Running) → Holds Inv (r >>= λ _. crashed)
    go (running d) = tt
    go crashed = tt

module _ (json : Json) where
  pub handle_read-Inv :
      (failed : Bool) (input : Bytes) (c : Connection)
      → NotReading c
      → Holds Inv (handle_read json failed input c)
  unfolding handle_read
  handle_read-Inv true input c v = ground arith
  handle_read-Inv false input c v = parsed-Inv (parse json c.parser input) c v

  pub Step-Inv : {c d : Connection} → Step json c d → Inv c → Inv d
  Step-Inv {c} (reads failed input p e) v = rw e at (
      handle_read-Inv failed input (record c { read_pending = false })
        (
          record {
            closes = v.handler.closes;
            answered = v.handler.answered;
            ends = v.handler.ends;
          },
          refl,
        ))
  Step-Inv (writes failed e) v = unfold handle_write in ground arith
  Step-Inv (expires p e) v = unfold handle_close_timeout in ground arith
  Step-Inv (cancelled e) v = unfold handle_close_timeout in ground arith
