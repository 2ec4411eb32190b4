-- ===== src/WebSocket/Connection/Framed/Reached.antt =====
-- What the server writes on a WebSocket connection, whatever comes.
use mathlib.Core.Path.{subst}
use suda_gureum.Base.{
  ◌≡◌, refl, Bool, true, false, List, [], ◌∷◌, map, some, if◌then◌else◌, All, All-append, length,
  arith,
}
use suda_gureum.WebSocket.Connection.Closing.{
  Holds, bind-Holds, Step, reads, writes, expires, cancelled,
}
use suda_gureum.WebSocket.Connection.{
  Connection, running, crashed, send_web_socket_response, send_suda_gureum_response,
  handle_handshake, text_of, close, close_socket, read, proc_close, proc_web_socket_request,
  proc_event, proc_events, parsed, after_parse, handle_read, handle_write, handle_close_timeout,
  sent, taken_over,
}
use suda_gureum.WebSocket.Encoder.Laws.{encode_frame_iff}
use suda_gureum.WebSocket.Encoder.{Encoded, frame, wild_read, encode_frame}
use suda_gureum.WebSocket.Json.{Json, Writer}
use suda_gureum.WebSocket.Message.{RequestCommand, WebSocketResponse, SudaGureumResponse, opcode}
use suda_gureum.WebSocket.Parser.{Event, wscb, sgcb, Outcome, done, aborted, parse}
use suda_gureum.WebSocket.Connection.Framed.{read_frames, wire, meant, IsShort, read_frames-wire}

-- All that was written is short.
abbrev AllShort : Connection → Type 0
AllShort c = All IsShort c.written

-- A frame comes out for a short payload only; any other ends the process.
sent-AllShort :
    (c : Connection) (r : WebSocketResponse)
    → AllShort c
    → Holds AllShort (send_web_socket_response r c)
unfolding send_web_socket_response
sent-AllShort c r v = go (encode_frame (opcode r.command) r.raw_data) refl
  where
    go :
        (e : Encoded) → encode_frame (opcode r.command) r.raw_data ≡ e → Holds AllShort (sent e r c)
    go (frame bytes) eq =
        All-append IsShort c.written (r ∷ []) v
          ((encode_frame_iff r.command r.raw_data).0 (bytes, eq), tt)
    go (wild_read n) eq = tt

close-AllShort : (c : Connection) → AllShort c → Holds AllShort (close c)
unfolding close
close-AllShort c v =
    bind-Holds AllShort _ _ (sent-AllShort (record c { close_ready = true }) _ v) (λ d w. w)

proc_close-AllShort : (c : Connection) → AllShort c → Holds AllShort (proc_close c)
unfolding proc_close
proc_close-AllShort c v = go c.close_ready
  where
    go :
        (ready : Bool)
        → Holds AllShort
            (if ready then running (close_socket (record c { timer_pending = false })) else close c)
    go true = v
    go false = close-AllShort c v

proc_event-AllShort : (e : Event) (c : Connection) → AllShort c → Holds AllShort (proc_event e c)
unfolding proc_event proc_web_socket_request
proc_event-AllShort (sgcb request) c v = v
proc_event-AllShort (wscb request) c v = go request.command
  where
    go :
        (command : RequestCommand)
        → Holds AllShort
            (proc_web_socket_request (record { command = command; raw_data = request.raw_data }) c)
    go RequestCommand.ping = sent-AllShort c _ v
    go RequestCommand.close = proc_close-AllShort (record c { close_received = true }) v

proc_events-AllShort :
    (es : List Event) (c : Connection) → AllShort c → Holds AllShort (proc_events es c)
unfolding proc_events
proc_events-AllShort [] c v = v
proc_events-AllShort (e ∷ es) c v =
    bind-Holds AllShort (proc_event e c) (proc_events es) (proc_event-AllShort e c v)
      (λ d w. proc_events-AllShort es d w)

after_parse-AllShort : (ok : Bool) (c : Connection) → AllShort c → AllShort (after_parse ok c)
unfolding after_parse
after_parse-AllShort false c v = v
after_parse-AllShort true c v = go c.close_received
  where
    go : (ends : Bool) → AllShort (if ends then c else read c)
    go true = v
    go false = v

parsed-AllShort : (o : Outcome) (c : Connection) → AllShort c → Holds AllShort (parsed o c)
unfolding parsed
parsed-AllShort (done p es ok) c v =
    bind-Holds AllShort (proc_events es c) _ (proc_events-AllShort es c v)
      (λ d w. after_parse-AllShort ok (record d { parser = p }) w)
parsed-AllShort (aborted es) c v =
    bind-Holds AllShort (proc_events es c) (λ _. crashed) (proc_events-AllShort es c v) (λ d w. tt)

-- What may come next: a completion, the end of the handshake as server, or a response of the program's
-- own.
pub data Act (json : Json) (w : Writer) (c : Connection) (d : Connection) : Type 0 where
  completes : Step json c d → Act json w c d
  shakes : (failed : Bool) → handle_handshake failed c ≡ running d → Act json w c d
  responds :
      (response : SudaGureumResponse w.Member)
      → send_suda_gureum_response w response c ≡ running d
      → Act json w c d

pub data Reach (json : Json) (w : Writer) (c : Connection) : Connection → Type 0 where
  here : Reach json w c c
  next : {d e : Connection} → Reach json w c d → Act json w d e → Reach json w c e

module _ (json : Json) (w : Writer) where
  Step-AllShort : {c d : Connection} → Step json c d → AllShort c → AllShort d
  unfolding handle_read handle_write handle_close_timeout
  Step-AllShort {c} (reads true input p e) v = ground arith
  Step-AllShort {c} (reads false input p e) v =
      subst (Holds AllShort) e
        (parsed-AllShort (parse json c.parser input) (record c { read_pending = false }) v)
  Step-AllShort (writes failed e) v = ground arith
  Step-AllShort (expires p e) v = ground arith
  Step-AllShort (cancelled e) v = ground arith

  Act-AllShort : {c d : Connection} → Act json w c d → AllShort c → AllShort d
  unfolding send_suda_gureum_response handle_handshake
  Act-AllShort (completes s) v = Step-AllShort s v
  Act-AllShort (shakes failed e) v = ground arith
  Act-AllShort {c} (responds response e) v =
      subst (Holds AllShort) e (sent-AllShort c (text_of w response) v)

  Reach-AllShort : {c : Connection} → Reach json w taken_over c → AllShort c
  Reach-AllShort here = tt
  Reach-AllShort (next r a) = Act-AllShort a (Reach-AllShort r)

  -- However the completions and the responses of the program's own are ordered, from the upgrade of the
  -- connection on: the bytes given to the socket are whole frames of the short form, unmasked and final,
  -- in which a reader of frames finds the responses that were written, each with its opcode and payload,
  -- in order, and nothing else.
  pub Reach-framed :
      (c : Connection)
      → Reach json w taken_over c
      → read_frames (length c.written) (wire c.written) ≡ some (map meant c.written)
  Reach-framed c r = read_frames-wire c.written (Reach-AllShort r)
