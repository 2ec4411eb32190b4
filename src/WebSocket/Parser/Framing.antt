-- ===== src/WebSocket/Parser/Framing.antt =====
-- One frame, as RFC 6455 lays it out, through the byte-wise machine.
use suda_gureum.Base.{
  ℕ, ◌+◌, ◌%◌, ltb, ◌==◌, ◌<◌, ◌≡◌, refl, ap, ◌∙◌, Bool, true, false, [], ◌∷◌, ◌++◌, append_assoc,
  length, length-append, arith, Bytes, Option, none, some,
}
use suda_gureum.WebSocket.Json.{Json}
use suda_gureum.WebSocket.Parser.Stream.{prepend_nil}
use suda_gureum.WebSocket.Parser.{
  Parser, in_web_socket_frame_header, in_payload, Outcome, done, aborted, Key, end_frame, and_then,
  loop, parse, parse_frame, parse_empty_frame, end_header, from_big, bit7,
}

-- The three forms of the payload length.
pub data Length : Type 0 where
  short : ℕ → Length
  medium : ℕ → ℕ → Length
  long : ℕ → ℕ → ℕ → ℕ → ℕ → ℕ → ℕ → ℕ → Length

abbrev pub length_code : Length → ℕ
length_code (short n) = n
length_code (medium a b) = 126
length_code (long a b c d e f g h) = 127

abbrev pub length_bytes : Length → Bytes
length_bytes (short n) = []
length_bytes (medium a b) = a ∷ b ∷ []
length_bytes (long a b c d e f g h) = a ∷ b ∷ c ∷ d ∷ e ∷ f ∷ g ∷ h ∷ []

abbrev pub length_value : Length → ℕ
length_value (short n) = n
length_value l = from_big 0 (length_bytes l)

abbrev pub IsForm : Length → Type 0
IsForm (short n) = n < 126
IsForm _ = Unit

abbrev pub key_bytes : Option Key → Bytes
key_bytes none = []
key_bytes (some k) = k.k0 ∷ k.k1 ∷ k.k2 ∷ k.k3 ∷ []

abbrev pub mask_flag : Option Key → ℕ
mask_flag none = 0
mask_flag (some k) = 128

abbrev pub has_mask : Option Key → Bool
has_mask none = false
has_mask (some k) = true

-- The first byte holds the final bit and the opcode.
abbrev pub frame_header : ℕ → Length → Option Key → Bytes
frame_header b0 l mask = b0 ∷ (mask_flag mask + length_code l) ∷ (length_bytes l ++ key_bytes mask)

-- The key that the parser takes the mask off with: a frame of the short form leaves it as it was.
abbrev pub key_used : Length → Option Key → Key → Key
key_used (short n) mask old = old
key_used _ none old = old
key_used _ (some k) old = k

-- A parser between two frames.
abbrev pub boundary : Parser → Parser
boundary p = record p { state = in_web_socket_frame_header; buffer = [] }

-- The parser when the header has been read.
abbrev pub with_header : ℕ → Length → Option Key → Parser → Parser
with_header b0 l mask p = record p {
  state = in_web_socket_frame_header;
  buffer = [];
  final_fragment = bit7 b0;
  opcode = b0 % 16;
  masked = has_mask mask;
  payload_len1 = length_code l;
  payload_len = length_value l;
  masking_key = key_used l mask p.masking_key;
}

short_facts : (n : ℕ) → n < 126 → (ltb n 126 ≡ true) × ((n == 126) ≡ false) × ((n == 127) ≡ false)
short_facts n h = ground arith

masked_facts : (n : ℕ) → n < 126 → (bit7 (128 + n) ≡ true) × ((128 + n) % 128 ≡ n)
masked_facts n h = ground arith

plain_facts : (n : ℕ) → n < 126 → (bit7 (0 + n) ≡ false) × ((0 + n) % 128 ≡ n)
plain_facts n h = ground arith

module _ (json : Json) where
  -- The handler for an empty payload or for one with bytes, and the return to the header state.
  abbrev pub handle_frame : Parser → Bytes → Outcome
  handle_frame p [] = end_frame (parse_empty_frame json p)
  handle_frame p (w ∷ ws) = end_frame (parse_frame json p (w ∷ ws))

  -- The header is read to its last byte, and to no other.
  loop-header :
      (p : Parser) (b0 : ℕ) (l : Length) (mask : Option Key) (rest : Bytes)
      → IsForm l
      → loop json (boundary p) (frame_header b0 l mask ++ rest)
        ≡ and_then
            (end_header json (record (with_header b0 l mask p) { buffer = frame_header b0 l mask }))
            (λ q. loop json q rest)
  unfolding loop
  loop-header p b0 (long a b c d e f g h) (some k) rest v = simp prepend_nil
  loop-header p b0 (long a b c d e f g h) none rest v = simp prepend_nil
  loop-header p b0 (medium a b) (some k) rest v = simp prepend_nil
  loop-header p b0 (medium a b) none rest v = simp prepend_nil
  loop-header p b0 (short n) (some k) rest v =
      let e = short_facts n v in
      let f = masked_facts n v in simp (e.0, e.1, e.2, f.0, f.1, prepend_nil)
  loop-header p b0 (short n) none rest v =
      let e = short_facts n v in let f = plain_facts n v in simp (e.0, f.0, f.1, prepend_nil)

  loop-payload :
      (p : Parser) (w : ℕ) (ws rest buf : Bytes)
      → length buf + length (w ∷ ws) ≡ p.payload_len
      → loop json (record p { state = in_payload; buffer = buf }) ((w ∷ ws) ++ rest)
        ≡ and_then
            (end_frame
              (parse_frame json (record p { state = in_payload; buffer = [] }) (buf ++ w ∷ ws)))
            (λ q. loop json q rest)
  unfolding loop
  loop-payload p w [] rest buf e = ground (arith, length-append buf (w ∷ []))
  loop-payload p w (w' ∷ ws) rest buf e = ground (
    arith,
    length-append buf (w ∷ []),
    append_assoc buf (w ∷ []) (w' ∷ ws),
    loop-payload p w' ws rest (buf ++ w ∷ []),
    prepend_nil
        (loop json (record p { state = in_payload; buffer = buf ++ w ∷ [] }) ((w' ∷ ws) ++ rest)),
  )

  -- The handlers do not read the buffer or the state.
  parse_empty_frame-boundary :
      (p : Parser)
      → end_frame (parse_empty_frame json p) ≡ end_frame (parse_empty_frame json (boundary p))
  unfolding parse_empty_frame
  parse_empty_frame-boundary p = ground arith

  parse_frame-boundary :
      (p : Parser) (payload : Bytes)
      → end_frame (parse_frame json p payload) ≡ end_frame (parse_frame json (boundary p) payload)
  unfolding parse_frame
  parse_frame-boundary p payload = ground arith

  abbrev header_read : Parser → ℕ → Length → Option Key → Parser
  header_read p b0 l mask = record (with_header b0 l mask p) { buffer = frame_header b0 l mask }

  end_header_empty :
      (p : Parser)
      → p.payload_len ≡ 0
      → end_header json p ≡ end_frame (parse_empty_frame json (boundary p))
  unfolding end_header
  end_header_empty p e =
      let test : (p.payload_len == 0) ≡ true = ground arith in
      rw test (parse_empty_frame-boundary p)

  end_header_full :
      (p : Parser)
      → 0 < p.payload_len
      → end_header json p ≡ done (record p { state = in_payload; buffer = [] }) [] true
  unfolding end_header
  end_header_full p h = ground arith

  parse-boundary : (p : Parser) (s : Bytes) → parse json (boundary p) s ≡ loop json (boundary p) s
  unfolding parse
  parse-boundary p s = refl

  end_frame-parse :
      (o : Outcome) (rest : Bytes)
      → and_then (end_frame o) (λ q. loop json q rest)
        ≡ and_then (end_frame o) (λ q. parse json q rest)
  unfolding parse
  end_frame-parse (done p es r) rest = refl
  end_frame-parse (aborted es) rest = refl

  -- A frame in the form that its length calls for, between two frames: the parser does what the
  -- handler of frames does with the opcode, the flags and the length of its header and exactly the
  -- bytes of its payload, once, and parses the bytes behind it from between two frames. The masking
  -- key is the one of the header where the length takes two or eight bytes more; a short frame with
  -- a mask keeps the key stored before, and a frame without a mask has none to apply.
  pub parse_framed :
      (p : Parser) (b0 : ℕ) (l : Length) (mask : Option Key) (wire rest : Bytes)
      → IsForm l
      → length_value l ≡ length wire
      → parse json (boundary p) (frame_header b0 l mask ++ (wire ++ rest))
        ≡ and_then (handle_frame (with_header b0 l mask p) wire) (λ q. parse json q rest)
  parse_framed p b0 l mask [] rest v e =
      parse-boundary p _
      ∙ loop-header p b0 l mask rest v
      ∙ ap (λ o. and_then o (λ q. loop json q rest)) (end_header_empty (header_read p b0 l mask) e)
      ∙ end_frame-parse (parse_empty_frame json (with_header b0 l mask p)) rest
  parse_framed p b0 l mask (w ∷ ws) rest v e =
      parse-boundary p _
      ∙ loop-header p b0 l mask ((w ∷ ws) ++ rest) v
      ∙ ap (λ o. and_then o (λ q. loop json q ((w ∷ ws) ++ rest)))
          (end_header_full (header_read p b0 l mask) (omega arith))
      ∙ prepend_nil _
      ∙ loop-payload (header_read p b0 l mask) w ws rest [] (omega arith)
      ∙ ap (λ o. and_then o (λ q. loop json q rest))
          (parse_frame-boundary
            (record (header_read p b0 l mask) { state = in_payload; buffer = [] }) (w ∷ ws))
      ∙ end_frame-parse (parse_frame json (with_header b0 l mask p) (w ∷ ws)) rest
