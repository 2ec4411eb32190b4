-- ===== src/Irc/Parser.antt =====
-- IrcParser.cpp: the byte-wise state machine of `parse`, and `parseMessage`. The messages that the
-- code hands to its callback are returned in order. `message.params_.back()` is the last parameter
-- read, so the parameters are kept with the last one in front while a line is read.
pub mod Words
pub mod RoundTrip
pub mod Stream
pub mod Wire
pub mod Sound
pub mod Tests
use mathlib.Core.List.{reverse}
use suda_gureum.Base.{
  ℕ, ◌+◌, Bool, true, false, ◌||◌, List, [], ◌∷◌, ◌++◌, Option, ◌==◌, ltb, leb, if◌then◌else◌,
  length, Bytes,
}
use suda_gureum.Base.Boost.{Boost}
use suda_gureum.Irc.Message.{Message}

pub data State : Type 0 where
  none in_line wait_lf error : State

pub record Parser : Type 0 where
  pub state : State
  pub buffer : Bytes

abbrev pub initial : Parser
initial = record { state = none; buffer = [] }

abbrev pub clear : Parser → Parser
clear p = initial

-- `operator bool`
abbrev pub is_good : Parser → Bool
is_good p = elim p.state [ error ↦ false | _ ↦ true ]

-- `ParseMessageState`
pub data WordState : Type 0 where
  none wait_command in_param in_trailing : WordState

-- The local variables of the loop over the words; `params` has the last parameter in front.
pub record Line : Type 0 where
  pub state : WordState
  pub prefix : Bytes
  pub command : Bytes
  pub params : List Bytes

abbrev pub first_line : Line
first_line = record { state = WordState.none; prefix = []; command = []; params = [] }

-- `message.params_.back() += " " + word`
abbrev pub extend_back : Bytes → List Bytes → List Bytes
extend_back word [] = []
extend_back word (p ∷ ps) = (p ++ b' ' ∷ word) ∷ ps

abbrev max_params : ℕ
max_params = 15

-- The state after a parameter with no colon.
abbrev after_param : ℕ → WordState
after_param n = if leb max_params n then in_trailing else in_param

-- One round of the loop, on the word's first byte and the rest; `none` is `return false`.
word_in : WordState → ℕ → Bytes → Line → Option Line
word_in WordState.none c cs l =
    if c == b':'
    then elim cs [
      | [] ↦ Option.none
      | x ∷ xs ↦ Option.some (record l { prefix = x ∷ xs; state = wait_command })
    ]
    else Option.some (record l { command = c ∷ cs; state = in_param })
word_in wait_command c cs l = Option.some (record l { command = c ∷ cs; state = in_param })
word_in in_param c cs l =
    if c == b':'
    then Option.some (record l { params = cs ∷ l.params; state = in_trailing })
    else Option.some
        (record l { params = (c ∷ cs) ∷ l.params; state = after_param (length l.params + 1) })
word_in in_trailing c cs l = Option.some (record l { params = extend_back (c ∷ cs) l.params })

-- An empty word ends the loop with an error unless it belongs to the trailing parameter.
empty_word : WordState → Line → Option Line
empty_word in_trailing l = Option.some (record l { params = extend_back [] l.params })
empty_word _ l = Option.none

word : Line → Bytes → Option Line
unfolding word_in empty_word
word l [] = empty_word l.state l
word l (c ∷ cs) = word_in l.state c cs l

abbrev pub bind {ℓ κ} : {A : Type ℓ} {B : Type κ} → Option A → (A → Option B) → Option B
bind Option.none f = Option.none
bind (Option.some a) f = f a

pub words : List Bytes → Line → Option Line
unfolding word
words [] l = Option.some l
words (w ∷ ws) l = bind (word l w) (λ l'. words ws l')

abbrev pub message_of : Line → Message
message_of l = record { prefix = l.prefix; command = l.command; params = reverse l.params }

abbrev pub is_space : ℕ → Bool
is_space c = c == b' '

module _ (boost : Boost) where
  -- `Option.none` is `return false`; otherwise the message that the callback gets.
  pub parse_message : Bytes → Option Message
  unfolding words
  parse_message line =
      bind (words (boost.split is_space line) first_line)
        λ l. if boost.match_command l.command then Option.some (message_of l) else Option.none

-- What `parse` leaves: the parser, the messages delivered, and the result.
pub record Parsed : Type 0 where
  pub parser : Parser
  pub messages : List Message
  pub accepted : Bool

-- One round of the loop over the bytes: `return false`, or the next round, with the message that
-- it delivers.
pub data Round : Type 0 where
  reject : Parser → Round
  next : Parser → Round
  deliver : Message → Parser → Round

abbrev pub buffer_size_threshold : ℕ
buffer_size_threshold = 4096

-- `append`: the byte is stored before the size is tested.
abbrev pub append : Parser → ℕ → Parser
append p ch = record p { buffer = p.buffer ++ ch ∷ [] }

abbrev pub is_over : Parser → Bool
is_over p = ltb buffer_size_threshold (length p.buffer)

abbrev is_line_end : ℕ → Bool
is_line_end ch = ch == b'\r' || ch == b'\n'

-- The end of a line: `p` has the state for what comes next.
line_end : Option Message → Parser → Round
line_end Option.none p = reject (record p { state = error })
line_end (Option.some m) p = deliver m (record p { buffer = [] })

module _ (boost : Boost) where
  round_in : State → Parser → ℕ → Round
  unfolding line_end
  round_in none p ch =
      if is_line_end ch
      then reject (record p { state = error })
      else if is_over (append p ch)
      then reject (record (append p ch) { state = error })
      else next (record (append p ch) { state = in_line })
  round_in in_line p ch =
      if is_line_end ch
      then line_end (parse_message boost p.buffer)
          (if ch == b'\r' then record p { state = wait_lf } else p)
      else if is_over (append p ch)
      then reject (append p ch)
      else next (append p ch)
  round_in wait_lf p ch =
      if ch == b'\n' then next (record p { state = none }) else reject (record p { state = error })
  round_in error p ch = next p

  abbrev round : Parser → ℕ → Round
  round p ch = round_in p.state p ch

abbrev pub then_parse : Round → (Parser → Parsed) → Parsed
then_parse (reject p) rest = record { parser = p; messages = []; accepted = false }
then_parse (next p) rest = rest p
then_parse (deliver m p) rest = record {
  parser = (rest p).parser;
  messages = m ∷ (rest p).messages;
  accepted = (rest p).accepted;
}

module _ (boost : Boost) where
  loop : Parser → Bytes → Parsed
  unfolding round_in
  loop p [] = record { parser = p; messages = []; accepted = true }
  loop p (ch ∷ str) = then_parse (round boost p ch) (λ q. loop q str)

  unfoldable pub parse : Parser → Bytes → Parsed
  unfolding loop
  parse p str =
      if is_good p then loop p str else record { parser = p; messages = []; accepted = false }
