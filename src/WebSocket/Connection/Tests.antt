-- ===== src/WebSocket/Connection/Tests.antt =====
-- The connection and the encoder at concrete input.
use suda_gureum.WebSocket.Connection.Framed.Reached.{
  Reach as ActReach, here as act_here, next as act_next, responds, Reach-framed,
}
use suda_gureum.WebSocket.Connection.Framed.{read_frames, wire, meant}
use suda_gureum.WebSocket.Json.{Writer}
use suda_gureum.WebSocket.Connection.{send_suda_gureum_response, invalid_json, taken_over, sent}
use suda_gureum.WebSocket.Message.{SudaGureumRequest, WebSocketResponse, ResponseCommand}
use Prim.Native.Nat.{zero, suc}
use suda_gureum.Base.{
  ℕ, ◌+◌, ◌≡◌, refl, true, false, List, [], ◌∷◌, ◌++◌, none, some, Bytes, codes, arith,
}
use suda_gureum.WebSocket.Connection.Closing.{Reach, here, next}
use suda_gureum.WebSocket.Connection.Replies.{pong_of, handle_read_pings, handle_read_crash}
use suda_gureum.WebSocket.Connection.{
  Connection, running, crashed, handle_read, send_web_socket_response,
}
use suda_gureum.WebSocket.Encoder.Laws.{parse-encode_frame}
use suda_gureum.WebSocket.Encoder.{frame, encode_frame}
use suda_gureum.WebSocket.Message.{close, text, opcode}
use suda_gureum.WebSocket.Parser.Framing.{
  short, medium, boundary, frame_header, with_header, handle_frame,
}
use suda_gureum.WebSocket.Parser.Masking.{final_ping, parse-ping}
use suda_gureum.WebSocket.Parser.Tests.{plain_json, some_key, some_key-IsKey}
use suda_gureum.WebSocket.Parser.{initial, and_then, parse, apply_mask}

-- A connection just taken over, its first read pending.
abbrev fresh : Connection
fresh = record {
  parser = initial;
  close_ready = false;
  close_received = false;
  written = [];
  socket_open = true;
  timer_pending = false;
  read_pending = true;
}

-- The peer closes, and the timer expires.
abbrev closing : Connection
closing = record fresh {
  close_ready = true;
  close_received = true;
  written = record { command = close; raw_data = [] } ∷ [];
  timer_pending = true;
  read_pending = false;
}

abbrev after_close : Connection
after_close = record closing { parser = record initial { final_fragment = true } }

abbrev ping_frame : Bytes
ping_frame =
    frame_header final_ping (medium 0 2) (some some_key) ++ apply_mask some_key 0 (codes "ab")

handle_read_pings_example :
    handle_read plain_json false ping_frame fresh
    ≡ running (record fresh {
      parser = with_header final_ping (medium 0 2) (some some_key) initial;
      written = pong_of (codes "ab") ∷ [];
      read_pending = true;
    })
handle_read_pings_example =
    handle_read_pings plain_json fresh ping_frame _ (codes "ab" ∷ [])
      (parse-ping plain_json initial (medium 0 2) some_key b'a' (b'b' ∷ []) tt some_key-IsKey
        (omega arith) refl)
      (omega arith) refl

abbrev many : ℕ → Bytes
many zero = []
many (suc n) = b'a' ∷ many n

handle_read_crash_example :
    handle_read plain_json false
      (frame_header final_ping (medium 0 126) (some some_key) ++ apply_mask some_key 0 (many 126))
      fresh
    ≡ crashed
handle_read_crash_example =
    handle_read_crash plain_json fresh initial (medium 0 126) some_key b'a' (many 125) refl tt
      some_key-IsKey (omega arith) refl (omega arith)

parse-encode_frame_example :
    (bytes : Bytes) × (encode_frame (opcode text) (codes "hi") ≡ frame bytes)
    × (parse plain_json (boundary initial) bytes
        ≡ and_then
            (handle_frame plain_json
              (with_header (128 + opcode text) (short 2) none initial)
              (codes "hi"))
            (λ q. parse plain_json q []))
parse-encode_frame_example = parse-encode_frame plain_json initial text (codes "hi") (omega arith)

-- Members that are their text.
abbrev joined : List Bytes → Bytes
joined [] = []
joined (s ∷ ss) = s ++ joined ss

abbrev plain_writer : Writer
plain_writer = record {
  Member = Bytes;
  number_member = λ name n. name ++ n ∷ [];
  bool_member = λ name b. name;
  string_member = λ name s. name ++ s;
  accept = joined;
}

abbrev heartbeat : SudaGureumRequest
heartbeat = record { id = 7; method = codes "heartbeat"; params = [] }

abbrev sent_text : WebSocketResponse
sent_text = record {
  command = ResponseCommand.text;
  raw_data = codes "messageinvalid json_reqid" ++ (7 ∷ codes "success");
}

abbrev after_text : Connection
after_text = record taken_over { written = sent_text ∷ [] }

Reach-after_text : ActReach plain_json plain_writer taken_over after_text
unfolding send_suda_gureum_response send_web_socket_response sent encode_frame invalid_json
Reach-after_text = act_next act_here (responds (invalid_json plain_writer heartbeat) refl)

Reach-framed_example : read_frames 1 (wire (sent_text ∷ [])) ≡ some (meant sent_text ∷ [])
Reach-framed_example = Reach-framed plain_json plain_writer after_text Reach-after_text
