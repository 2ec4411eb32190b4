-- ===== src/WebSocket/Connection/Framed.antt =====
-- The frames of the server, to a reader of frames.
pub mod Reached
use mathlib.Core.Path.{subst}
use suda_gureum.Base.{
  ℕ, zero, suc, ◌+◌, ◌-◌, ◌%◌, ◌<◌, ◌≤◌, ◌≡◌, refl, sym, ap, ◌∙◌, Bool, true, false, ◌&&◌, ◌⊎◌, inl,
  inr, Bool-cases, List, [], ◌∷◌, ◌++◌, map, Option, none, some, ltb, leb, if◌then◌else◌, All,
  All-append, length, take, drop, Bytes, arith,
}
use suda_gureum.WebSocket.Connection.Closing.{
  Holds, bind-Holds, Step, reads, writes, expires, cancelled,
}
use suda_gureum.WebSocket.Connection.{
  Connection, Running, running, crashed, ◌>>=◌, send_web_socket_response, send_suda_gureum_response,
  handle_handshake, close, close_socket, read, proc_close, proc_web_socket_request, proc_event,
  proc_events, parsed, after_parse, handle_read, handle_write, handle_close_timeout, sent,
  taken_over,
}
use suda_gureum.WebSocket.Encoder.Laws.{encode_frame_short, encode_frame_iff}
use suda_gureum.WebSocket.Encoder.{Encoded, frame, wild_read, encode_frame}
use suda_gureum.WebSocket.Json.{Json, Writer}
use suda_gureum.WebSocket.Message.{
  RequestCommand, WebSocketResponse, ResponseCommand, SudaGureumResponse, opcode,
}
use suda_gureum.WebSocket.Parser.{Parser, Event, wscb, sgcb, Outcome, done, aborted, parse}

-- A reader of frames, as RFC 6455 lays out the short form: a byte with the final bit and the opcode, the
-- length below 126 and no mask, and the payload. It reads all of the bytes, or nothing.
abbrev pub prepend {ℓ} : {A : Type ℓ} → A → Option (List A) → Option (List A)
prepend x none = none
prepend x (some xs) = some (x ∷ xs)

abbrev pub read_frames : ℕ → Bytes → Option (List (ℕ × Bytes))
read_frames fuel [] = some []
read_frames fuel (b ∷ []) = none
read_frames zero (b ∷ n ∷ rest) = none
read_frames (suc fuel) (b ∷ n ∷ rest) =
    let frames : Option (List (ℕ × Bytes)) = read_frames fuel (drop n rest) in
    if leb 128 b && (ltb b 144 && (ltb n 126 && leb n (length rest)))
    then prepend (b % 16, take n rest) frames
    else none

-- The bytes given to the socket for the responses.
abbrev pub frame_bytes : Encoded → Bytes
frame_bytes (frame bytes) = bytes
frame_bytes (wild_read n) = []

abbrev pub wire : List WebSocketResponse → Bytes
wire [] = []
wire (r ∷ rs) = frame_bytes (encode_frame (opcode r.command) r.raw_data) ++ wire rs

abbrev pub meant : WebSocketResponse → ℕ × Bytes
meant r = (opcode r.command, r.raw_data)

abbrev pub IsShort : WebSocketResponse → Type 0
IsShort r = length r.raw_data < 126

take-length :
    (s t : Bytes)
    → (take (length s) (s ++ t) ≡ s) × (drop (length s) (s ++ t) ≡ t) × (length s ≤ length (s ++ t))
take-length [] t = (refl, refl, omega arith)
take-length (x ∷ s) t = let (h, k, l) = take-length s t in (ap (λ u. x ∷ u) h, k, omega (arith, l))

-- The frame as the reader finds it.
encoded :
    (c : ResponseCommand) (s t : Bytes)
    → length s < 126
    → frame_bytes (encode_frame (opcode c) s) ++ t ≡ (128 + opcode c) ∷ length s ∷ (s ++ t)
encoded c s t h =
    let zero_add : 0 + length s ≡ length s = omega arith in
    ap (λ e. frame_bytes e ++ t) (encode_frame_short c s h)
    ∙ ap (λ n. (128 + opcode c) ∷ n ∷ (s ++ t)) zero_add

whole_frame :
    (fuel : ℕ) (b : ℕ) (s t : Bytes)
    → 128 ≤ b
    → b < 144
    → length s < 126
    → read_frames (suc fuel) (b ∷ length s ∷ (s ++ t)) ≡ prepend (b % 16, s) (read_frames fuel t)
whole_frame fuel b s t low high h =
    let (taken, dropped, fits) = take-length s t in
    let tests : (leb 128 b
          && (ltb b 144 && (ltb (length s) 126 && leb (length s) (length (s ++ t)))))
        ≡ true =
      ground arith in
    rw (tests, taken, dropped)

opcode_bounds :
    (c : ResponseCommand)
    → (128 ≤ 128 + opcode c) × (128 + opcode c < 144) × ((128 + opcode c) % 16 ≡ opcode c)
opcode_bounds ResponseCommand.close = omega arith
opcode_bounds ResponseCommand.pong = omega arith
opcode_bounds ResponseCommand.text = omega arith

pub read_frames-wire :
    (rs : List WebSocketResponse)
    → All IsShort rs
    → read_frames (length rs) (wire rs) ≡ some (map meant rs)
read_frames-wire [] h = refl
read_frames-wire (r ∷ rs) (hr, h) =
    let (low, high, code) = opcode_bounds r.command in
    ap (read_frames (suc (length rs))) (encoded r.command r.raw_data (wire rs) hr)
    ∙ whole_frame (length rs) (128 + opcode r.command) r.raw_data (wire rs) low high hr
    ∙ ap (λ n. prepend (n, r.raw_data) (read_frames (length rs) (wire rs))) code
    ∙ ap (prepend (meant r)) (read_frames-wire rs h)
