-- ===== src/WebSocket/Message.antt =====
-- The messages of WebSocketParser.h.
use suda_gureum.Base.{ℕ, Bool, List, [], Bytes}
use suda_gureum.WebSocket.Opcode

-- `WebSocketRequest`; its `params_` is filled nowhere.
pub data RequestCommand : Type 0 where
  close ping : RequestCommand

pub record WebSocketRequest : Type 0 where
  pub command : RequestCommand
  pub raw_data : Bytes

pub data ResponseCommand : Type 0 where
  close pong text : ResponseCommand

pub record WebSocketResponse : Type 0 where
  pub command : ResponseCommand
  pub raw_data : Bytes

-- `WebSocketResponse::opcode`; the exception behind the switch is not reached by an enumerator.
abbrev pub opcode : ResponseCommand → ℕ
opcode close = Opcode.close
opcode pong = Opcode.pong
opcode text = Opcode.text

-- `id_` is the 32-bit pattern that `GetInt` leaves in it.
pub record SudaGureumRequest : Type 0 where
  pub id : ℕ
  pub method : Bytes
  pub params : List (Bytes × Bytes)

-- `SudaGureumResponse`; the document is a list of members in the order in which they were added.
pub record SudaGureumResponse (Member : Type 0) : Type 0 where
  pub id : ℕ
  pub success : Bool
  pub response_doc : List Member

abbrev pub response_to : {Member : Type 0} → SudaGureumRequest → Bool → SudaGureumResponse Member
response_to request success = record { id = request.id; success = success; response_doc = [] }
