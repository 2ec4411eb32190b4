-- ===== src/Irc/Parser/Stream.antt =====
-- `parse` on a byte stream: how the stream is cut into reads does not matter, whole messages come
-- through, and the buffer stays within its limit.
use suda_gureum.Base.Boost.{Boost}
use suda_gureum.Base.{
  ℕ, ◌≤◌, ◌<◌, ◌≡◌, refl, ◌⊎◌, true, false, [], ◌∷◌, ◌++◌, length, arith, Bytes, if◌then◌else◌,
}
use suda_gureum.Irc.Parser.{
  Parser, State, in_line, error, is_good, Parsed, Round, reject, next, deliver, round_in, round,
  then_parse, loop, parse, buffer_size_threshold,
}

-- A second read after a first one: it goes on where the first was accepted.
abbrev pub and_then : Parsed → (Parser → Parsed) → Parsed
and_then r rest =
    if r.accepted
    then record {
      parser = (rest r.parser).parser;
      messages = r.messages ++ (rest r.parser).messages;
      accepted = (rest r.parser).accepted;
    }
    else r

then_parse-and_then :
    (r : Round) (f g h : Parser → Parsed)
    → ((q : Parser) → f q ≡ and_then (g q) h)
    → then_parse r f ≡ and_then (then_parse r g) h
then_parse-and_then (reject q) f g h e = refl
then_parse-and_then (next q) f g h e = e q
then_parse-and_then (deliver m q) f g h e = ground (arith, e q)

-- A round that goes on leads to a parser with the property.
abbrev Keeps : (Parser → Type 0) → Round → Type 0
Keeps P (reject q) = Unit
Keeps P (next q) = P q
Keeps P (deliver m q) = P q

abbrev pub IsBounded : Parser → Type 0
IsBounded p = length p.buffer ≤ buffer_size_threshold

-- What a parser is like when it refuses its input.
abbrev pub HasGivenUp : Parser → Type 0
HasGivenUp p = (p.state ≡ error) ⊎ (buffer_size_threshold < length p.buffer)

abbrev Rejects : Round → Type 0
Rejects (reject q) = HasGivenUp q
Rejects _ = Unit

then_parse-Rejects :
    (r : Round) (f : Parser → Parsed)
    → Rejects r
    → ((q : Parser) → (f q).accepted ≡ false → HasGivenUp (f q).parser)
    → (then_parse r f).accepted ≡ false
    → HasGivenUp (then_parse r f).parser
then_parse-Rejects (reject q) f k h a = k
then_parse-Rejects (next q) f k h a = h q a
then_parse-Rejects (deliver m q) f k h a = h q a

then_parse-keeps :
    (P : Parser → Type 0) (r : Round) (f : Parser → Parsed)
    → Keeps P r
    → ((q : Parser) → P q → (f q).accepted ≡ true → P (f q).parser)
    → (then_parse r f).accepted ≡ true
    → P (then_parse r f).parser
then_parse-keeps P (reject q) f k h a = cc
then_parse-keeps P (next q) f k h a = h q k a
then_parse-keeps P (deliver m q) f k h a = h q k a

module _ (boost : Boost) where
  loop-append :
      (p : Parser) (a b : Bytes)
      → loop boost p (a ++ b) ≡ and_then (loop boost p a) (λ q. loop boost q b)
  unfolding loop
  loop-append p [] b = refl
  loop-append p (c ∷ a) b =
      then_parse-and_then (round boost p c) (λ q. loop boost q (a ++ b)) (λ q. loop boost q a)
        (λ q. loop boost q b) (λ q. loop-append q a b)

  -- What every round keeps holds after an accepted read.
  loop-keeps :
      (P : Parser → Type 0)
      → ((p : Parser) (c : ℕ) → P p → Keeps P (round boost p c))
      → (s : Bytes) (p : Parser) → P p
      → (loop boost p s).accepted ≡ true
      → P (loop boost p s).parser
  unfolding loop
  loop-keeps P step [] p h a = h
  loop-keeps P step (c ∷ s) p h a =
      then_parse-keeps P (round boost p c) (λ q. loop boost q s) (step p c h)
        (λ q k. loop-keeps P step s q k) a

  round_in-good :
      (st : State) (p : Parser) (c : ℕ)
      → p.state ≡ st
      → is_good p ≡ true
      → Keeps (λ q. is_good q ≡ true) (round_in boost st p c)
  unfolding round_in
  round_in-good in_line p c e h = ground arith
  round_in-good _ p c e h = ground arith

  loop-good :
      (s : Bytes) (p : Parser)
      → is_good p ≡ true
      → (loop boost p s).accepted ≡ true
      → is_good (loop boost p s).parser ≡ true
  loop-good = loop-keeps (λ q. is_good q ≡ true) (λ p c. round_in-good p.state p c refl)

  pub parse-good :
      (p : Parser) (s : Bytes)
      → is_good p ≡ true
      → (parse boost p s).accepted ≡ true
      → is_good (parse boost p s).parser ≡ true
  unfolding parse
  parse-good p s h a = ground (arith, loop-good s p h)

  -- Reading a string is reading any first part of it and, if that is accepted, the rest with the
  -- parser that this leaves: the same messages, the same result, the same parser.
  pub parse-append :
      (p : Parser) (a b : Bytes)
      → parse boost p (a ++ b) ≡ and_then (parse boost p a) (λ q. parse boost q b)
  unfolding parse
  parse-append p a b = ground (arith, loop-append p a b, loop-good a p)

  round_in-IsBounded :
      (st : State) (p : Parser) (c : ℕ) → IsBounded p → Keeps IsBounded (round_in boost st p c)
  unfolding round_in
  round_in-IsBounded in_line p c h = ground arith
  round_in-IsBounded _ p c h = ground arith

  -- A parser whose buffer is within the limit is so after every read that it accepts.
  pub parse-IsBounded :
      (p : Parser) (s : Bytes)
      → IsBounded p
      → (parse boost p s).accepted ≡ true
      → IsBounded (parse boost p s).parser
  unfolding parse
  parse-IsBounded p s h a =
      ground (arith, loop-keeps IsBounded (λ q c. round_in-IsBounded q.state q c) s p h)

  round_in-Rejects : (st : State) (p : Parser) (c : ℕ) → Rejects (round_in boost st p c)
  unfolding round_in
  round_in-Rejects in_line p c = ground arith
  round_in-Rejects _ p c = ground arith

  loop-HasGivenUp :
      (s : Bytes) (p : Parser)
      → (loop boost p s).accepted ≡ false
      → HasGivenUp (loop boost p s).parser
  unfolding loop
  loop-HasGivenUp [] p a = cc
  loop-HasGivenUp (c ∷ s) p a =
      then_parse-Rejects (round boost p c) (λ q. loop boost q s) (round_in-Rejects p.state p c)
        (λ q. loop-HasGivenUp s q) a

  -- A parser that refuses a read is then in the error state, or has more than 4096 bytes in its
  -- buffer.
  pub parse-HasGivenUp :
      (p : Parser) (s : Bytes)
      → (parse boost p s).accepted ≡ false
      → HasGivenUp (parse boost p s).parser
  unfolding parse
  parse-HasGivenUp p s a = ground (arith, loop-HasGivenUp s p)
