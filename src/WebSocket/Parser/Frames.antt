-- ===== src/WebSocket/Parser/Frames.antt =====
-- WebSocketParser.cpp: the handlers of one frame, `parseEmptyFrame`, `parseFrame` and `parsePayload`, and the
-- state that the parser keeps. What the code hands to its two callbacks is a list of events, in order. A
-- failed assertion of rapidjson ends the process.
use Prim.Native.Nat.{bit_xor}
use suda_gureum.Base.{
  ℕ, ◌+◌, ◌/◌, ◌%◌, Bool, true, false, not, List, [], ◌∷◌, ◌++◌, Option, none, some, ◌==◌,
  if◌then◌else◌, Bytes,
}
use suda_gureum.WebSocket.Json.{Json, Document}
use suda_gureum.WebSocket.Message.{WebSocketRequest, RequestCommand, SudaGureumRequest}
use suda_gureum.WebSocket.Opcode

pub data State : Type 0 where
  in_web_socket_frame_header in_payload parse_error : State

-- `std::array<uint8_t, 4>`
pub record Key : Type 0 where
  pub k0 : ℕ
  pub k1 : ℕ
  pub k2 : ℕ
  pub k3 : ℕ

pub record Parser : Type 0 where
  pub state : State
  pub buffer : Bytes
  pub final_fragment : Bool
  pub opcode : ℕ
  pub masked : Bool
  pub payload_len1 : ℕ
  pub payload_len : ℕ
  pub masking_key : Key
  pub total_payload : Bytes

abbrev pub zero_key : Key
zero_key = record { k0 = 0; k1 = 0; k2 = 0; k3 = 0 }

abbrev pub initial : Parser
initial = record {
  state = in_web_socket_frame_header;
  buffer = [];
  final_fragment = false;
  opcode = Opcode.close;
  masked = false;
  payload_len1 = 0;
  payload_len = 0;
  masking_key = zero_key;
  total_payload = [];
}

pub data Event : Type 0 where
  wscb : WebSocketRequest → Event
  sgcb : SudaGureumRequest → Event

-- The parser, the events (calls of `wscb` and `sgcb`) and the value returned.
pub data Outcome : Type 0 where
  done : Parser → List Event → Bool → Outcome
  aborted : List Event → Outcome

-- `b & (1 << 3)`
abbrev pub is_control_frame_opcode : ℕ → Bool
is_control_frame_opcode opcode = (opcode / 8) % 2 == 1

-- `IsControlFrameOpcode` is tested first, so the switch sees an opcode from 8 to 15.
abbrev pub request : RequestCommand → Bytes → Event
request command raw_data = wscb (record { command = command; raw_data = raw_data })

-- The members that `parsePayload` reads, in its order.
payload_event : Document → Option Event
payload_event doc = elim doc.reqid [
  | none ↦ none
  | some id ↦ elim doc.method [
    | none ↦ none
    | some method ↦ some (sgcb (record { id = id; method = method; params = [] }))
  ]
]

delivered : Parser → Option Event → Outcome
delivered p none = aborted []
delivered p (some e) = done p (e ∷ []) true

parsed_payload : Parser → Option Document → Outcome
unfolding delivered payload_event
parsed_payload p none = done p [] false
parsed_payload p (some doc) = delivered p (payload_event doc)

-- `if(!parsePayload(sgcb)) return false; totalPayload_.clear();`
clear_total : Outcome → Outcome
clear_total (done p es true) = done (record p { total_payload = [] }) es true
clear_total (done p es false) = done p es false
clear_total (aborted es) = aborted es

module _ (json : Json) where
  parse_payload : Parser → Outcome
  unfolding parsed_payload
  parse_payload p =
      let insitu = json.parse_insitu (p.total_payload ++ 0 ∷ []) in
      parsed_payload (record p { total_payload = insitu.buffer }) insitu.document

  final_payload : Parser → Outcome
  unfolding parse_payload clear_total
  final_payload p = if p.final_fragment then clear_total (parse_payload p) else done p [] true

  unfoldable pub parse_empty_frame : Parser → Outcome
  unfolding final_payload
  parse_empty_frame p =
      if is_control_frame_opcode p.opcode
      then if not p.final_fragment
        then done p [] false
        else if p.opcode == Opcode.close
        then done p (request RequestCommand.close [] ∷ []) true
        else if p.opcode == Opcode.ping
        then done p [] false
        else if p.opcode == Opcode.pong
        then done p [] false
        else done p [] true
      else final_payload p

-- `maskingKey_[i % 4]`
abbrev pub key_at : Key → ℕ → ℕ
key_at key i =
    if i % 4 == 0
    then key.k0
    else if i % 4 == 1
    then key.k1
    else if i % 4 == 2
    then key.k2
    else key.k3

unfoldable pub apply_mask : Key → ℕ → Bytes → Bytes
apply_mask key i [] = []
apply_mask key i (ch ∷ data_rest) = bit_xor ch (key_at key i) ∷ apply_mask key (i + 1) data_rest

module _ (json : Json) where
  -- `parseFrame` behind the loop that takes the mask off.
  unfoldable pub unmasked_frame : Parser → Bytes → Outcome
  unfolding final_payload
  unmasked_frame p payload =
      if is_control_frame_opcode p.opcode
      then if not p.final_fragment
        then done p [] false
        else if p.opcode == Opcode.close
        then done p (request RequestCommand.close payload ∷ []) true
        else if p.opcode == Opcode.ping
        then if not p.masked
          then done p [] false
          else done p (request RequestCommand.ping payload ∷ []) true
        else done p [] true
      else final_payload json (record p { total_payload = p.total_payload ++ payload })

  unfoldable pub parse_frame : Parser → Bytes → Outcome
  unfolding unmasked_frame
  parse_frame p payload =
      unmasked_frame p (if p.masked then apply_mask p.masking_key 0 payload else payload)
