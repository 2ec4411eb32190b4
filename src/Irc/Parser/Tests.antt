-- ===== src/Irc/Parser/Tests.antt =====
-- The parser on concrete input, and its theorems at concrete input.
use suda_gureum.Base.Boost.{ascii_boost}
use suda_gureum.Base.{◌≡◌, refl, true, [], ◌∷◌, Option, codes, arith}
use suda_gureum.Irc.Message.{Message, encode_message}
use suda_gureum.Irc.Parser.RoundTrip.{IsSendable, parse_message-encode}
use suda_gureum.Irc.Parser.Sound.{parse_message-IsSendable}
use suda_gureum.Irc.Parser.Stream.{IsBounded, parse-IsBounded}
use suda_gureum.Irc.Parser.Wire.{IsWirable, parse_reads, parse_reads-wires}
use suda_gureum.Irc.Parser.{initial, parse, parse_message}

abbrev greeting : Message
greeting = record {
  prefix = codes "nick!user@host";
  command = codes "PRIVMSG";
  params = codes "#hno3" ∷ codes "hello,  world " ∷ [];
}

abbrev pub ping : Message
ping = record { prefix = []; command = codes "PING"; params = codes "1:2" ∷ [] }

encode_greeting : encode_message greeting ≡ codes ":nick!user@host PRIVMSG #hno3 :hello,  world "
unfolding encode_message
encode_greeting = refl

parse_welcome :
    parse_message ascii_boost (codes ":irc.example 001 nick :Welcome to IRC")
    ≡ Option.some (record {
      prefix = codes "irc.example";
      command = codes "001";
      params = codes "nick" ∷ codes "Welcome to IRC" ∷ [];
    })
unfolding parse_message
parse_welcome = refl

parse_bad_command : parse_message ascii_boost (codes "01 nick") ≡ Option.none
unfolding parse_message
parse_bad_command = refl

-- A line that ends in a line feed alone is delivered too, and the parser then waits in the line.
parse_lf :
    (parse ascii_boost initial (codes "PING :1\nPING :2\r\n")).messages
    ≡ record { prefix = []; command = codes "PING"; params = codes "1" ∷ [] }
      ∷ record { prefix = []; command = codes "PING"; params = codes "2" ∷ [] }
      ∷ []
unfolding parse parse_message
parse_lf = refl

greeting-IsSendable : IsSendable greeting
greeting-IsSendable = record {
  prefix_is = omega arith;
  command_is = refl;
  params_are = omega arith;
  few_params = omega arith;
}

ping-IsSendable : IsSendable ping
ping-IsSendable = record {
  prefix_is = omega arith;
  command_is = refl;
  params_are = omega arith;
  few_params = omega arith;
}

greeting-IsWirable : IsWirable greeting
unfolding encode_message
greeting-IsWirable = record {
  sendable = greeting-IsSendable;
  no_cr = omega arith;
  no_lf = omega arith;
  fits = omega arith;
}

pub ping-IsWirable : IsWirable ping
unfolding encode_message
ping-IsWirable = record {
  sendable = ping-IsSendable;
  no_cr = omega arith;
  no_lf = omega arith;
  fits = omega arith;
}

parse_message-encode_example :
    parse_message ascii_boost (encode_message greeting) ≡ Option.some greeting
parse_message-encode_example = parse_message-encode ascii_boost greeting greeting-IsSendable

parse_message-IsSendable_example : IsSendable greeting
parse_message-IsSendable_example =
    parse_message-IsSendable ascii_boost (encode_message greeting) greeting
      parse_message-encode_example

parse_reads-wires_example :
    parse_reads ascii_boost initial (
      codes ":nick!user@host PRIV"
      ∷ codes "MSG #hno3 :hello,  world \r"
      ∷ codes "\nPING :1:2\r\n"
      ∷ [])
    ≡ record { parser = initial; messages = greeting ∷ ping ∷ []; accepted = true }
unfolding mathlib.Core.List.flatten encode_message
parse_reads-wires_example =
    parse_reads-wires ascii_boost (greeting ∷ ping ∷ []) _
      (greeting-IsWirable, (ping-IsWirable, tt)) refl

parse-IsBounded_example : IsBounded (parse ascii_boost initial (codes "PING :1")).parser
parse-IsBounded_example =
    parse-IsBounded ascii_boost initial (codes "PING :1") (omega arith)
      (unfold parse parse_message in refl)
