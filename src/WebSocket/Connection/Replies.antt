-- ===== src/WebSocket/Connection/Replies.antt =====
-- What the server answers to pings.
use suda_gureum.Base.{
  ℕ, ◌≤◌, ◌<◌, ◌≡◌, true, false, List, [], ◌∷◌, ◌++◌, map, append_assoc, append-nil, All, Bytes,
  arith, length, some,
}
use suda_gureum.WebSocket.Encoder.{encode_frame}
use suda_gureum.WebSocket.Json.{Json}
use suda_gureum.WebSocket.Message.{RequestCommand, WebSocketResponse, ResponseCommand}
use suda_gureum.WebSocket.Parser.{Parser, Event, done, parse, request, Key, apply_mask}
use suda_gureum.WebSocket.Parser.Framing.{Length, length_value, boundary, frame_header}
use suda_gureum.WebSocket.Parser.Masking.{IsExtended, IsKey, AreBytes, final_ping, parse-ping}
use suda_gureum.WebSocket.Connection.{
  Connection, running, crashed, send_web_socket_response, proc_event, proc_events, parsed,
  after_parse, handle_read,
}

abbrev pub pong_of : Bytes → WebSocketResponse
pong_of s = record { command = ResponseCommand.pong; raw_data = s }

abbrev pub ping_of : Bytes → Event
ping_of s = request RequestCommand.ping s

proc_event_ping :
    (s : Bytes) (c : Connection)
    → length s < 126
    → proc_event (ping_of s) c ≡ running (record c { written = c.written ++ pong_of s ∷ [] })
unfolding proc_event send_web_socket_response encode_frame
proc_event_ping s c h = ground arith

proc_events_pings :
    (ss : List Bytes) (c : Connection)
    → All (λ s. length s < 126) ss
    → proc_events (map ping_of ss) c ≡ running (record c { written = c.written ++ map pong_of ss })
unfolding proc_events
proc_events_pings [] c h = rw append-nil
proc_events_pings (s ∷ ss) c (hs, h) = rw (
  proc_event_ping s c hs,
  proc_events_pings ss (record c { written = c.written ++ pong_of s ∷ [] }) h,
  append_assoc,
)

module _ (json : Json) where
  -- Pings of less than 126 bytes are answered in order, each with a pong of its bytes, and the next
  -- read is started.
  pub handle_read_pings :
      (c : Connection) (input : Bytes) (p : Parser) (ss : List Bytes)
      → parse json c.parser input ≡ done p (map ping_of ss) true
      → All (λ s. length s < 126) ss
      → c.close_received ≡ false
      → handle_read json false input c
        ≡ running
            (record c { parser = p; written = c.written ++ map pong_of ss; read_pending = true })
  unfolding handle_read parsed after_parse
  handle_read_pings c input p ss e h open_still =
      rw e (rw (proc_events_pings ss c h) (ground arith))

  -- One masked ping of 126 bytes or more ends the process.
  pub handle_read_crash :
      (c : Connection) (p : Parser) (l : Length) (k : Key) (d : ℕ) (s : Bytes)
      → c.parser ≡ boundary p
      → IsExtended l
      → IsKey k
      → AreBytes (d ∷ s)
      → length_value l ≡ length (d ∷ s)
      → 126 ≤ length (d ∷ s)
      → handle_read json false (frame_header final_ping l (some k) ++ apply_mask k 0 (d ∷ s)) c
        ≡ crashed
  unfolding handle_read parsed proc_events proc_event send_web_socket_response encode_frame
  handle_read_crash c p l k d s at x hk h e big =
      rw (at, parse-ping json p l k d s x hk h e) (ground arith)
