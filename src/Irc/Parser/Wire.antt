-- ===== src/Irc/Parser/Wire.antt =====
-- Whole messages on the wire, cut into reads in any way.
use mathlib.Core.List.{flatten}
use suda_gureum.Base.Boost.{Boost}
use suda_gureum.Base.{
  ◌+◌, ◌≤◌, ◌≡◌, refl, true, List, [], ◌∷◌, ◌++◌, map, append_assoc, append-nil, Option, length,
  length-append, arith, Bytes, Lacks, All,
}
use suda_gureum.Irc.Message.{Message, encode_message, wire}
use suda_gureum.Irc.Parser.RoundTrip.{IsSendable, parse_message-encode}
use suda_gureum.Irc.Parser.Stream.{and_then, parse-append, parse-good}
use suda_gureum.Irc.Parser.{
  Parser, in_line, initial, is_good, Parsed, deliver, then_parse, loop, parse, parse_message,
  buffer_size_threshold,
}

-- A message that fits on one line within the parser's limit.
pub record IsWirable (m : Message) : Type 0 where
  pub sendable : IsSendable m
  pub no_cr : Lacks b'\r' (encode_message m)
  pub no_lf : Lacks b'\n' (encode_message m)
  pub fits : length (encode_message m) ≤ buffer_size_threshold

abbrev in_line_with : Bytes → Parser
in_line_with buffer = record { state = in_line; buffer = buffer }

module _ (boost : Boost) where
  loop-in_line :
      (s buffer rest : Bytes)
      → Lacks b'\r' s
      → Lacks b'\n' s
      → length buffer + length s ≤ buffer_size_threshold
      → loop boost (in_line_with buffer) (s ++ rest) ≡ loop boost (in_line_with (buffer ++ s)) rest
  unfolding loop
  loop-in_line [] buffer rest cr lf fits = rw append-nil
  loop-in_line (c ∷ s) buffer rest (hc, cr) (hl, lf) fits = ground (
    arith,
    loop-in_line s (buffer ++ c ∷ []) rest cr lf,
    length-append buffer (c ∷ []),
    append_assoc buffer (c ∷ []) s,
  )

  parse_message_empty : parse_message boost [] ≡ Option.none
  unfolding parse_message
  parse_message_empty = rw boost.split_lem

  -- One line and its end.
  loop-line :
      (t : Bytes) (m : Message) (rest : Bytes)
      → parse_message boost t ≡ Option.some m
      → Lacks b'\r' t
      → Lacks b'\n' t
      → length t ≤ buffer_size_threshold
      → loop boost initial (t ++ (b'\r' ∷ b'\n' ∷ rest))
        ≡ then_parse (deliver m initial) (λ q. loop boost q rest)
  unfolding loop
  loop-line [] m rest e cr lf fits = cc (e, parse_message_empty)
  loop-line (c ∷ t) m rest e (hc, cr) (hl, lf) fits =
      ground (arith, loop-in_line t (c ∷ []) (b'\r' ∷ b'\n' ∷ rest) cr lf)

  loop-wires :
      (ms : List Message)
      → All IsWirable ms
      → loop boost initial (flatten (map wire ms))
        ≡ record { parser = initial; messages = ms; accepted = true }
  unfolding flatten
  loop-wires [] h = unfold loop in refl
  loop-wires (m ∷ ms) (h, hs) = ground (
    arith,
    append_assoc (encode_message m) (b'\r' ∷ b'\n' ∷ []) (flatten (map wire ms)),
    loop-line (encode_message m) m (flatten (map wire ms)) (parse_message-encode boost m h.sendable)
        h.no_cr h.no_lf h.fits,
    loop-wires ms hs,
  )

  pub parse-wires :
      (ms : List Message)
      → All IsWirable ms
      → parse boost initial (flatten (map wire ms))
        ≡ record { parser = initial; messages = ms; accepted = true }
  parse-wires ms h = unfold parse in loop-wires ms h

  -- `handleRead` once for each read, as long as the input is accepted.
  pub parse_reads : Parser → List Bytes → Parsed
  parse_reads p [] = record { parser = p; messages = []; accepted = true }
  parse_reads p (read ∷ reads) = and_then (parse boost p read) (λ q. parse_reads q reads)

  parse_reads-flatten :
      (reads : List Bytes) (p : Parser)
      → is_good p ≡ true
      → parse_reads p reads ≡ parse boost p (flatten reads)
  unfolding parse_reads flatten
  parse_reads-flatten [] p h = unfold parse loop in ground arith
  parse_reads-flatten (read ∷ reads) p h = ground (
    arith,
    parse-append boost p read (flatten reads),
    parse-good boost p read h,
    parse_reads-flatten reads (parse boost p read).parser,
  )

  -- Messages of the form that encodeMessage can write and parseMessage read back, each without CR
  -- and LF in its encoded text, which has at most 4096 bytes, and each ended by CR LF: however
  -- their bytes are cut into reads, IrcParser::parse delivers exactly those messages, in order, and
  -- ends ready for the next one.
  pub parse_reads-wires :
      (ms : List Message) (reads : List Bytes)
      → All IsWirable ms
      → flatten reads ≡ flatten (map wire ms)
      → parse_reads initial reads ≡ record { parser = initial; messages = ms; accepted = true }
  parse_reads-wires ms reads h e = rw (parse_reads-flatten reads initial refl, e, parse-wires ms h)
