-- ===== src/WebSocket/Encoder/Laws.antt =====
-- Which frames the server can write, and what they are to a reader of frames.
use suda_gureum.Base.{
  ◌+◌, ◌<◌, ◌≡◌, refl, ◌∙◌, ap, sym, ◌↔◌, [], ◌++◌, append-nil, length, Bytes, arith, none,
}
use suda_gureum.WebSocket.Json.{Json}
use suda_gureum.WebSocket.Message.{ResponseCommand, close, pong, text, opcode}
use suda_gureum.WebSocket.Parser.Framing.{
  short, frame_header, boundary, with_header, handle_frame, parse_framed,
}
use suda_gureum.WebSocket.Parser.{Parser, parse, and_then}
use suda_gureum.WebSocket.Encoder.{frame, encode_frame}

pub encode_frame_short :
    (c : ResponseCommand) (s : Bytes)
    → length s < 126
    → encode_frame (opcode c) s ≡ frame (frame_header (128 + opcode c) (short (length s)) none ++ s)
unfolding encode_frame
encode_frame_short close s h = ground arith
encode_frame_short pong s h = ground arith
encode_frame_short text s h = ground arith

-- A frame comes out exactly for a payload of less than 126 bytes; every longer one ends in a read
-- from an invalid address.
pub encode_frame_iff :
    (c : ResponseCommand) (s : Bytes)
    → ((bytes : Bytes) × (encode_frame (opcode c) s ≡ frame bytes)) ↔ (length s < 126)
encode_frame_iff c s = (λ e. few e.0 e.1, λ h. (_, encode_frame_short c s h))
  where
    few : (bytes : Bytes) → encode_frame (opcode c) s ≡ frame bytes → length s < 126
    few bytes e = unfold encode_frame in ground arith

-- The frame of a payload of less than 126 bytes reads back as one unmasked frame with the final bit,
-- the response's opcode and exactly the payload.
pub parse-encode_frame :
    (json : Json) (p : Parser) (c : ResponseCommand) (s : Bytes)
    → length s < 126
    → (bytes : Bytes) × (encode_frame (opcode c) s ≡ frame bytes)
      × (parse json (boundary p) bytes
          ≡ and_then
              (handle_frame json (with_header (128 + opcode c) (short (length s)) none p) s)
              (λ q. parse json q []))
parse-encode_frame json p c s h = (
  frame_header (128 + opcode c) (short (length s)) none ++ s,
  encode_frame_short c s h,
  ap (λ t. parse json (boundary p) (frame_header (128 + opcode c) (short (length s)) none ++ t))
        (sym (append-nil s))
      ∙ parse_framed json p (128 + opcode c) (short (length s)) none s [] h refl,
)
