-- ===== src/WebSocket/Parser/Tests.antt =====
-- The parser on concrete frames, and its theorems at concrete input.
use suda_gureum.Base.{◌≡◌, ◌≢◌, refl, inl, true, [], ◌∷◌, ◌++◌, none, some, Bytes, codes, arith}
use suda_gureum.WebSocket.Json.{Json}
use suda_gureum.WebSocket.Message.{RequestCommand}
use suda_gureum.WebSocket.Parser.Framing.{
  short, boundary, frame_header, with_header, handle_frame, parse_framed,
}
use suda_gureum.WebSocket.Parser.Masking.{IsKey, final_ping, parse_short_ping}
use suda_gureum.WebSocket.Parser.Stream.{Inv, Accepts, parse-Inv, parse-append_frames}
use suda_gureum.WebSocket.Parser.{
  Key, initial, done, sgcb, request, and_then, parse, apply_mask, end_header, parse_frame,
}

-- A library that takes every text for one and the same document.
abbrev pub plain_json : Json
plain_json = record {
  parse_insitu = λ t. record {
    buffer = t;
    document = some (record { reqid = some 7; method = some (codes "heartbeat") });
  };
  parse_insitu_length = λ t. refl;
}

abbrev pub some_key : Key
some_key = record { k0 = 1; k1 = 2; k2 = 3; k3 = 4 }

pub some_key-IsKey : IsKey some_key
some_key-IsKey = omega arith

-- An unmasked text frame in two fragments delivers one request.
text_frames :
    parse plain_json initial (0x01 ∷ 0x01 ∷ b'{' ∷ 0x80 ∷ 0x01 ∷ b'}' ∷ [])
    ≡ done
        (record initial { final_fragment = true; opcode = 0; payload_len1 = 1; payload_len = 1 })
        (sgcb (record { id = 7; method = codes "heartbeat"; params = [] }) ∷ [])
        true
unfolding parse end_header parse_frame
text_frames = refl

parse-Inv_example : Accepts Inv (parse plain_json initial (0x89 ∷ 0xFE ∷ 0 ∷ []))
parse-Inv_example = parse-Inv plain_json initial (0x89 ∷ 0xFE ∷ 0 ∷ []) (inl (omega arith))

parse-append_frames_example :
    parse plain_json initial ((0x88 ∷ []) ++ (0x00 ∷ []))
    ≡ and_then (parse plain_json initial (0x88 ∷ [])) (λ q. parse plain_json q (0x00 ∷ []))
parse-append_frames_example =
    parse-append_frames plain_json initial (0x88 ∷ []) (0x00 ∷ []) (inl (omega arith))

parse_framed_example :
    parse plain_json
      (boundary initial)
      (frame_header 0x81 (short 2) none ++ (codes "{}" ++ codes "x"))
    ≡ and_then
        (handle_frame plain_json (with_header 0x81 (short 2) none initial) (codes "{}"))
        (λ q. parse plain_json q (codes "x"))
parse_framed_example =
    parse_framed plain_json initial 0x81 (short 2) none (codes "{}") (codes "x") (omega arith) refl

parse_short_ping_example :
    (bytes : Bytes) × (parse plain_json initial
        (frame_header final_ping (short 2) (some some_key) ++ apply_mask some_key 0 (codes "ab"))
      ≡ done
          (with_header final_ping (short 2) (some some_key) initial)
          (request RequestCommand.ping bytes ∷ [])
          true)
    × (bytes ≢ codes "ab")
parse_short_ping_example =
    parse_short_ping plain_json some_key b'a' (b'b' ∷ []) some_key-IsKey (omega arith) (omega arith)
      (omega arith)
