-- ===== src/WebSocket/Parser.antt =====
-- WebSocketParser.cpp: the byte-wise state machine of `parse`, over the handlers of the frames.
pub mod Frames
pub mod Stream
pub mod Framing
pub mod Masking
pub mod Tests
pub use Frames.{
  State, in_web_socket_frame_header, in_payload, parse_error, Key, Parser, zero_key, initial, Event,
  wscb, sgcb, Outcome, done, aborted, is_control_frame_opcode, request, key_at,
}
unfoldable pub use Frames.{parse_empty_frame, apply_mask, unmasked_frame, parse_frame}
use suda_gureum.Base.{
  ℕ, ◌+◌, ◌*◌, ◌/◌, ◌%◌, Bool, true, false, not, ◌&&◌, List, [], ◌∷◌, ◌++◌, Option, none, some,
  ◌==◌, ltb, if◌then◌else◌, length, take, drop, Bytes,
}
use suda_gureum.WebSocket.Json.{Json}

-- `b & (1 << 7)`
abbrev bit7 : ℕ → Bool
bit7 b = (b / 128) % 2 == 1

-- The end of a frame: `state_ = IN_WEB_SOCKET_FRAME_HEADER; buffer_.clear()`. The value that the
-- handler returned is dropped.
abbrev pub end_frame : Outcome → Outcome
end_frame (done p es _) =
    done (record p { state = in_web_socket_frame_header; buffer = [] }) es true
end_frame (aborted es) = aborted es

abbrev to_payload : Parser → Outcome
to_payload p = done (record p { state = in_payload; buffer = [] }) [] true

abbrev go_on : Parser → Outcome
go_on p = done p [] true

-- `big_to_native` of the bytes
abbrev pub from_big : ℕ → Bytes → ℕ
from_big acc [] = acc
from_big acc (b ∷ bs) = from_big (acc * 256 + b) bs

-- `std::copy` to `maskingKey_`: four bytes are left where the code calls it.
abbrev copy_key : Bytes → Key → Key
copy_key (a ∷ b ∷ c ∷ d ∷ []) key = record { k0 = a; k1 = b; k2 = c; k3 = d }
copy_key _ key = key

abbrev wait_for : Parser → ℕ
wait_for p =
    2
    + (if p.payload_len1 == 126 then 2 else if p.payload_len1 == 127 then 8 else 0)
    + (if p.masked then 4 else 0)

-- The length and the key, once the whole header is there.
abbrev read_length : Parser → Parser
read_length p =
    if p.payload_len1 == 126
    then record p {
      payload_len = from_big 0 (take 2 (drop 2 p.buffer));
      masking_key = if p.masked then copy_key (drop 4 p.buffer) p.masking_key else p.masking_key;
    }
    else if p.payload_len1 == 127
    then record p {
      payload_len = from_big 0 (take 8 (drop 2 p.buffer));
      masking_key = if p.masked then copy_key (drop 10 p.buffer) p.masking_key else p.masking_key;
    }
    else record p {
      masking_key =
          if not p.masked then copy_key (drop 2 p.buffer) p.masking_key else p.masking_key;
    }

-- What the first two bytes say.
abbrev header_fields : ℕ → ℕ → Parser → Parser
header_fields b0 b1 p = record p {
  final_fragment = bit7 b0;
  opcode = b0 % 16;
  masked = bit7 b1;
  payload_len1 = b1 % 128;
}

abbrev short_length : Parser → Parser
short_length p = record p { payload_len = p.payload_len1 }

module _ (json : Json) where
  -- `payloadLen_ == 0` or not
  unfoldable pub end_header : Parser → Outcome
  end_header p = if p.payload_len == 0 then end_frame (parse_empty_frame json p) else to_payload p

  -- `buffer_.size() == 2`
  first_two : Parser → Outcome
  first_two p =
      if ltb p.payload_len1 126
      then if not p.masked then end_header (short_length p) else go_on (short_length p)
      else go_on p

  -- `buffer_.size() > 2`
  more_than_two : Parser → Outcome
  more_than_two p = if length p.buffer == wait_for p then end_header (read_length p) else go_on p

  header_byte : Bytes → Parser → Outcome
  unfolding first_two more_than_two
  header_byte (b0 ∷ b1 ∷ []) p = first_two (header_fields b0 b1 p)
  header_byte (b0 ∷ b1 ∷ b2 ∷ bs) p = more_than_two p
  header_byte _ p = go_on p

  payload_byte : Parser → Outcome
  payload_byte p =
      if length p.buffer == p.payload_len
      then end_frame (parse_frame json (record p { buffer = [] }) p.buffer)
      else go_on p

  abbrev push : Parser → ℕ → Parser
  push p ch = record p { buffer = p.buffer ++ ch ∷ [] }

  round_in : State → Parser → ℕ → Outcome
  unfolding header_byte payload_byte
  round_in in_web_socket_frame_header p ch = header_byte (p.buffer ++ ch ∷ []) (push p ch)
  round_in in_payload p ch = payload_byte (push p ch)
  round_in parse_error p ch = go_on p

abbrev pub prepend : List Event → Outcome → Outcome
prepend es (done p es' r) = done p (es ++ es') r
prepend es (aborted es') = aborted (es ++ es')

abbrev pub and_then : Outcome → (Parser → Outcome) → Outcome
and_then (done p es r) rest = prepend es (rest p)
and_then (aborted es) rest = aborted es

module _ (json : Json) where
  loop : Parser → Bytes → Outcome
  unfolding round_in
  loop p [] = done p [] true
  loop p (ch ∷ input) = and_then (round_in json p.state p ch) (λ q. loop q input)

  unfoldable pub parse : Parser → Bytes → Outcome
  unfolding loop
  parse p input = elim p.state [ parse_error ↦ done p [] false | _ ↦ loop p input ]
