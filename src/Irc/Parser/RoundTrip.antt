-- ===== src/Irc/Parser/RoundTrip.antt =====
-- `parseMessage` and `parse` on what `encodeMessage` writes.
use mathlib.Core.List.{reverse, reverse-reverse}
use suda_gureum.Base.Boost.{Boost, command_shape, is_alpha, is_digit}
use suda_gureum.Base.{
  ◌≤◌, ◌≡◌, refl, ◌⊎◌, inl, inr, true, List, [], ◌∷◌, ◌++◌, append_assoc, append-nil, Option,
  length, arith, Bytes, Lacks, split_on, split_on-append, split_on_whole, Lacks→avoids, all_of,
}
use suda_gureum.Irc.Message.{Message, encode_tail, encode_prefix, encode_message}
use suda_gureum.Irc.Parser.Words.{
  IsMiddle, AreMiddle, line_at, params_text, encode_params-text, words-params_text,
}
use suda_gureum.Irc.Parser.{
  WordState, in_param, in_trailing, wait_command, word, words, is_space, parse_message, first_line,
}

abbrev pub AreParams : List Bytes → Type 0
AreParams [] = Unit
AreParams (p ∷ ps) = AreMiddle p ps

-- A message that the line format can express.
pub record IsSendable (m : Message) : Type 0 where
  pub prefix_is : Lacks b' ' m.prefix
  pub command_is : command_shape m.command ≡ true
  pub params_are : AreParams m.params
  pub few_params : length m.params ≤ 15

all_alpha-Lacks : (s : Bytes) → all_of is_alpha s ≡ true → Lacks b' ' s
all_alpha-Lacks [] h = tt
all_alpha-Lacks (c ∷ s) h = ground (arith, all_alpha-Lacks s)

all_digit-Lacks : (s : Bytes) → all_of is_digit s ≡ true → Lacks b' ' s
all_digit-Lacks [] h = tt
all_digit-Lacks (c ∷ s) h = ground (arith, all_digit-Lacks s)

command_shape-IsMiddle : (s : Bytes) → command_shape s ≡ true → IsMiddle s
command_shape-IsMiddle [] h = ground arith
command_shape-IsMiddle (c ∷ s) h = ground (arith, all_alpha-Lacks s, all_digit-Lacks s)

-- The state of the loop after the last word.
abbrev last_state : List Bytes → WordState
last_state [] = in_param
last_state (p ∷ ps) = in_trailing

words-command :
    (st : WordState) (prefix command : Bytes) (params : List Bytes)
    → (st ≡ WordState.none) ⊎ (st ≡ wait_command)
    → IsMiddle command
    → AreParams params
    → length params ≤ 15
    → words (split_on is_space (command ++ encode_tail params)) (line_at st prefix [] [])
      ≡ Option.some (line_at (last_state params) prefix command (reverse params))
unfolding words word
words-command st prefix [] params e h ps fits = absurd h
words-command st prefix (c ∷ command) [] e (hc, h) ps fits =
    rw
      (
        append-nil command,
        split_on_whole is_space (c ∷ command) (Lacks→avoids b' ' (c ∷ command) h),
      )
      (ground arith)
words-command st prefix (c ∷ command) (p ∷ ps) e (hc, h) mid fits =
    rw
      (
        encode_params-text p ps,
        split_on-append is_space (c ∷ command) b' ' (params_text p ps)
            (Lacks→avoids b' ' (c ∷ command) h) refl,
      )
      (ground (
        arith,
        words-params_text prefix (c ∷ command) p ps [] mid (omega arith),
        append-nil (reverse (p ∷ ps)),
      ))

words-encode :
    (prefix command : Bytes) (params : List Bytes)
    → Lacks b' ' prefix
    → IsMiddle command
    → AreParams params
    → length params ≤ 15
    → words (split_on is_space (encode_prefix prefix ++ (command ++ encode_tail params))) first_line
      ≡ Option.some (line_at (last_state params) prefix command (reverse params))
words-encode [] command params hp hc mid fits =
    words-command WordState.none [] command params (inl refl) hc mid fits
words-encode (c ∷ prefix) command params hp hc mid fits =
    rw
      (
        append_assoc prefix (b' ' ∷ []) (command ++ encode_tail params),
        split_on-append is_space (b':' ∷ c ∷ prefix) b' ' (command ++ encode_tail params)
            (refl, Lacks→avoids b' ' (c ∷ prefix) hp) refl,
      )
      (unfold words word in
        words-command wait_command (c ∷ prefix) command params (inr refl) hc mid fits)

module _ (boost : Boost) where
  -- `parseMessage` reads back every message that can be sent, exactly as it was.
  pub parse_message-encode :
      (m : Message) → IsSendable m → parse_message boost (encode_message m) ≡ Option.some m
  unfolding parse_message encode_message
  parse_message-encode m h = rw (
    boost.split_lem,
    words-encode m.prefix m.command m.params h.prefix_is
        (command_shape-IsMiddle m.command h.command_is) h.params_are h.few_params,
    boost.match_command_lem,
    h.command_is,
    reverse-reverse,
  )
