-- ===== src/WebSocket/Parser/Stream.antt =====
-- `parse` on a byte stream: it refuses nothing, how the stream is cut into reads does not matter,
-- and the buffer stays below the length that is waited for.
use mathlib.Core.Path.{fun_ext}
use suda_gureum.Base.{
  ℕ, ◌≤◌, ◌<◌, ◌≡◌, refl, sym, ap, ◌∙◌, ◌⊎◌, inl, true, List, [], ◌∷◌, ◌++◌, append_assoc, length,
  length-append, arith, Bytes,
}
use suda_gureum.WebSocket.Json.{Json}
use suda_gureum.WebSocket.Parser.{
  Parser, State, in_web_socket_frame_header, in_payload, parse_error, Outcome, done, aborted, Event,
  wait_for, end_frame, header_byte, payload_byte, end_header, short_length, header_fields,
  read_length, push, round_in, prepend, and_then, loop, parse, parse_frame, parse_empty_frame,
}

-- In a header of two bytes or more, and in a payload, fewer bytes than are waited for are there.
-- So `assert(masked_)` holds, and no frame is passed over.
abbrev InvIn : State → Parser → Type 0
InvIn in_web_socket_frame_header p = (length p.buffer < 2) ⊎ (length p.buffer < wait_for p)
InvIn in_payload p = length p.buffer < p.payload_len
InvIn parse_error p = ⊥

abbrev pub Inv : Parser → Type 0
Inv p = InvIn p.state p

-- The call returns true and leaves a parser with the property, or the process ended.
abbrev pub Accepts : (Parser → Type 0) → Outcome → Type 0
Accepts P (done p es r) = P p × (r ≡ true)
Accepts P (aborted es) = Unit

end_frame-Inv : (o : Outcome) → Accepts Inv (end_frame o)
end_frame-Inv (done p es r) = (inl (omega arith), refl)
end_frame-Inv (aborted es) = tt

prepend-Accepts :
    (P : Parser → Type 0) (es : List Event) (o : Outcome) → Accepts P o → Accepts P (prepend es o)
prepend-Accepts P es (done p es' r) h = h
prepend-Accepts P es (aborted es') h = tt

and_then-Accepts :
    (P : Parser → Type 0) (o : Outcome) (f : Parser → Outcome)
    → Accepts P o
    → ((p : Parser) → P p → Accepts P (f p))
    → Accepts P (and_then o f)
and_then-Accepts P (done p es r) f (h, _) k = prepend-Accepts P es (f p) (k p h)
and_then-Accepts P (aborted es) f h k = tt

pub prepend_nil : (o : Outcome) → prepend [] o ≡ o
prepend_nil (done p es r) = refl
prepend_nil (aborted es) = refl

prepend-and_then :
    (es : List Event) (o : Outcome) (g : Parser → Outcome)
    → prepend es (and_then o g) ≡ and_then (prepend es o) g
prepend-and_then es (done p es' r) g = prepend-prepend es es' (g p)
  where
    prepend-prepend :
        (xs ys : List Event) (o : Outcome) → prepend xs (prepend ys o) ≡ prepend (xs ++ ys) o
    prepend-prepend xs ys (done q zs r') = rw append_assoc
    prepend-prepend xs ys (aborted zs) = rw append_assoc
prepend-and_then es (aborted es') g = refl

pub and_then_assoc :
    (o : Outcome) (f g : Parser → Outcome)
    → and_then o (λ q. and_then (f q) g) ≡ and_then (and_then o f) g
and_then_assoc (done p es r) f g = prepend-and_then es (f p) g
and_then_assoc (aborted es) f g = refl

-- Two continuations that agree on what the first call leaves.
and_then_agree :
    (P : Parser → Type 0) (o : Outcome) (f g : Parser → Outcome)
    → Accepts P o
    → ((q : Parser) → P q → f q ≡ g q)
    → and_then o f ≡ and_then o g
and_then_agree P (done p es r) f g (h, _) e = ap (prepend es) (e p h)
and_then_agree P (aborted es) f g h e = refl

module _ (json : Json) where
  end_header-Inv : (p : Parser) → Accepts Inv (end_header json p)
  unfolding end_header
  end_header-Inv p = ground (arith, end_frame-Inv (parse_empty_frame json p))

  header_byte-Inv :
      (bytes : Bytes) (p : Parser)
      → p.state ≡ in_web_socket_frame_header
      → p.buffer ≡ bytes
      → length bytes < 3 ⊎ (length bytes ≤ wait_for p)
      → Accepts Inv (header_byte json bytes p)
  unfolding header_byte
  header_byte-Inv [] p s e h = ground arith
  header_byte-Inv (a ∷ []) p s e h = ground arith
  header_byte-Inv (b0 ∷ b1 ∷ []) p s e h =
      ground (arith, end_header-Inv (short_length (header_fields b0 b1 p)))
  header_byte-Inv (b0 ∷ b1 ∷ b2 ∷ bs) p s e h = ground (arith, end_header-Inv (read_length p))

  payload_byte-Inv :
      (p : Parser)
      → p.state ≡ in_payload
      → length p.buffer ≤ p.payload_len
      → Accepts Inv (payload_byte json p)
  unfolding payload_byte
  payload_byte-Inv p s h =
      ground (arith, end_frame-Inv (parse_frame json (record p { buffer = [] }) p.buffer))

  round_in-Inv :
      (st : State) (p : Parser) (c : ℕ)
      → p.state ≡ st
      → InvIn st p
      → Accepts Inv (round_in json st p c)
  unfolding round_in
  round_in-Inv in_web_socket_frame_header p c e v =
      header_byte-Inv (p.buffer ++ c ∷ []) (push json p c) e refl
        (omega (arith, length-append p.buffer (c ∷ [])))
  round_in-Inv in_payload p c e v =
      payload_byte-Inv (push json p c) e (omega (arith, length-append p.buffer (c ∷ [])))
  round_in-Inv parse_error p c e v = absurd v

  loop-Inv : (input : Bytes) (p : Parser) → Inv p → Accepts Inv (loop json p input)
  unfolding loop
  loop-Inv [] p v = (v, refl)
  loop-Inv (c ∷ input) p v =
      and_then-Accepts Inv (round_in json p.state p c) (λ q. loop json q input)
        (round_in-Inv p.state p c refl v) (λ q w. loop-Inv input q w)

  parse-loop : (p : Parser) (input : Bytes) → Inv p → parse json p input ≡ loop json p input
  unfolding parse
  parse-loop p input v = ground arith

  -- From a parser that meets the invariant `parse` returns true on whatever bytes and keeps the
  -- invariant, unless the process ends.
  pub parse-Inv : (p : Parser) (input : Bytes) → Inv p → Accepts Inv (parse json p input)
  parse-Inv p input v = rw (parse-loop p input v) (loop-Inv input p v)

  loop-append :
      (a b : Bytes) (p : Parser)
      → loop json p (a ++ b) ≡ and_then (loop json p a) (λ q. loop json q b)
  unfolding loop
  loop-append [] b p = sym (prepend_nil (loop json p b))
  loop-append (c ∷ a) b p =
      ap (and_then (round_in json p.state p c)) (fun_ext (λ q. loop-append a b q))
      ∙ and_then_assoc (round_in json p.state p c) (λ q. loop json q a) (λ q. loop json q b)

  -- From a parser that meets the invariant, reading a string is reading any first part of it and
  -- then the rest: the same events, the same result, the same parser.
  pub parse-append_frames :
      (p : Parser) (a b : Bytes)
      → Inv p
      → parse json p (a ++ b) ≡ and_then (parse json p a) (λ q. parse json q b)
  parse-append_frames p a b v =
      rw (parse-loop p (a ++ b) v, parse-loop p a v)
        (loop-append a b p
          ∙ and_then_agree Inv (loop json p a) (λ q. loop json q b) (λ q. parse json q b)
              (loop-Inv a p v) (λ q w. sym (parse-loop q b w)))
