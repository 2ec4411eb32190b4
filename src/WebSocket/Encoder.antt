-- ===== src/WebSocket/Encoder.antt =====
-- `encodeFrame` (WebSocketServer.cpp).
pub mod Laws
use Prim.Native.Nat.{bit_or}
use suda_gureum.Base.{ℕ, ◌%◌, ◌∷◌, leb, if◌then◌else◌, length, Bytes}

-- `reinterpret_cast<uint8_t *>(len)` makes a pointer of the length itself, not of its address, so
-- the two longer forms read bytes at an address near zero: a wild read, of so many bytes.
pub data Encoded : Type 0 where
  frame : Bytes → Encoded
  wild_read : ℕ → Encoded

unfoldable pub encode_frame : ℕ → Bytes → Encoded
encode_frame opcode payload =
    if leb 0x10000 (length payload)
    then wild_read 8
    else if leb 0x7E (length payload)
    then wild_read 2
    else frame (bit_or 0x80 opcode ∷ (length payload % 256) ∷ payload)
