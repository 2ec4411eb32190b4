-- ===== src/Irc/Parser/Sound.antt =====
-- What `parseMessage` accepts: every message that it delivers can be sent again.
use mathlib.Core.List.{reverse, reverse-cons}
use suda_gureum.Base.Boost.{Boost, command_shape}
use suda_gureum.Base.{
  ℕ, ◌≤◌, ◌≡◌, refl, ap, inl, inr, ◌≢◌, true, List, [], ◌∷◌, ◌++◌, Option, length, length-append,
  arith, Bytes, Lacks, if◌then◌else◌, Bool-cases, All, All-append, split_on, prepend_head, ◌==◌,
}
use suda_gureum.Irc.Message.{Message}
use suda_gureum.Irc.Parser.Words.{IsMiddle}
use suda_gureum.Irc.Parser.RoundTrip.{IsSendable, AreParams}
use suda_gureum.Irc.Parser.{
  Line, WordState, wait_command, in_param, in_trailing, word, words, bind, is_space, parse_message,
  first_line, message_of,
}

prepend_head-All :
    (c : ℕ) (ws : List Bytes)
    → c ≢ b' '
    → All (Lacks b' ') ws
    → All (Lacks b' ') (prepend_head c ws)
prepend_head-All c [] h hs = ((h, tt), tt)
prepend_head-All c (w ∷ ws) h (hw, hs) = ((h, hw), hs)

split_on-Lacks : (s : Bytes) → All (Lacks b' ') (split_on is_space s)
split_on-Lacks [] = (tt, tt)
split_on-Lacks (c ∷ s) = elim (Bool-cases (c == b' ')) [
  | inl sep ↦ rw sep (tt, split_on-Lacks s)
  | inr other ↦
      rw other (prepend_head-All c (split_on is_space s) (ground arith) (split_on-Lacks s))
]

-- What the loop over the words knows in each state.
abbrev Tail : List Bytes → Type 0
Tail [] = ⊥
Tail (p ∷ ps) = All IsMiddle ps × (length ps ≤ 14)

abbrev LineInv : WordState → Line → Type 0
LineInv WordState.none l = (l.prefix ≡ []) × (l.params ≡ [])
LineInv wait_command l = Lacks b' ' l.prefix × (l.params ≡ [])
LineInv in_param l = Lacks b' ' l.prefix × All IsMiddle l.params × (length l.params ≤ 14)
LineInv in_trailing l = Lacks b' ' l.prefix × Tail l.params

abbrev AfterWord : Option Line → Type 0
AfterWord Option.none = Unit
AfterWord (Option.some l) = LineInv l.state l

word_in-LineInv :
    (st : WordState) (l : Line) (w : Bytes)
    → l.state ≡ st
    → LineInv st l
    → Lacks b' ' w
    → AfterWord (word l w)
unfolding word
word_in-LineInv WordState.none l [] e v h = ground arith
word_in-LineInv WordState.none l (c ∷ []) e v h = ground arith
word_in-LineInv WordState.none l (c ∷ d ∷ w) e v h = ground arith
word_in-LineInv wait_command l [] e v h = ground arith
word_in-LineInv wait_command l (c ∷ w) e v h = ground arith
word_in-LineInv in_param l [] e v h = ground arith
word_in-LineInv in_param l (c ∷ w) e v h = ground arith
word_in-LineInv in_trailing l [] e v h = ground arith
word_in-LineInv in_trailing l (c ∷ w) e v h = ground arith

bind-AfterWord :
    (r : Option Line) (f : Line → Option Line)
    → AfterWord r
    → ((l : Line) → LineInv l.state l → AfterWord (f l))
    → AfterWord (bind r f)
bind-AfterWord Option.none f a h = tt
bind-AfterWord (Option.some l) f a h = h l a

words-LineInv :
    (ws : List Bytes) (l : Line) → All (Lacks b' ') ws → LineInv l.state l → AfterWord (words ws l)
unfolding words
words-LineInv [] l h v = v
words-LineInv (w ∷ ws) l (hw, hs) v =
    bind-AfterWord (word l w) (λ l'. words ws l') (word_in-LineInv l.state l w refl v hw)
      (λ l' v'. words-LineInv ws l' hs v')

IsMiddle→AreParams : (ps : List Bytes) → All IsMiddle ps → AreParams ps
IsMiddle→AreParams [] h = tt
IsMiddle→AreParams (p ∷ []) h = tt
IsMiddle→AreParams (p ∷ q ∷ ps) (hp, h) = (hp, IsMiddle→AreParams (q ∷ ps) h)

AreParams-concat : (ps : List Bytes) (q : Bytes) → All IsMiddle ps → AreParams (ps ++ q ∷ [])
AreParams-concat [] q h = tt
AreParams-concat (p ∷ []) q (hp, h) = (hp, tt)
AreParams-concat (p ∷ r ∷ ps) q (hp, h) = (hp, AreParams-concat (r ∷ ps) q h)

IsMiddle-reverse : (ps : List Bytes) → All IsMiddle ps → All IsMiddle (reverse ps)
IsMiddle-reverse [] h = tt
IsMiddle-reverse (p ∷ ps) (hp, h) =
    rw (reverse-cons p ps)
      (All-append IsMiddle (reverse ps) (p ∷ []) (IsMiddle-reverse ps h) (hp, tt))

length-reverse : (ps : List Bytes) → length (reverse ps) ≡ length ps
length-reverse [] = refl
length-reverse (p ∷ ps) =
    omega
      (arith, ap length (reverse-cons p ps), length-append (reverse ps) (p ∷ []), length-reverse ps)

Tail-length : (ps : List Bytes) → Tail ps → length ps ≤ 15
Tail-length [] h = absurd h
Tail-length (p ∷ ps) (h, few) = omega arith

Tail→AreParams : (ps : List Bytes) → Tail ps → AreParams (reverse ps)
Tail→AreParams [] h = absurd h
Tail→AreParams (p ∷ ps) (h, few) =
    rw (reverse-cons p ps) (AreParams-concat (reverse ps) p (IsMiddle-reverse ps h))

-- What every state at the end of the line says of the message.
record Parts (l : Line) : Type 0 where
  prefix_is : Lacks b' ' l.prefix
  params_are : AreParams (reverse l.params)
  few : length l.params ≤ 15

LineInv→Parts : (st : WordState) (l : Line) → LineInv st l → Parts l
LineInv→Parts WordState.none l (a, b) = record {
  prefix_is = rw a tt;
  params_are = rw b tt;
  few = rw b (omega arith);
}
LineInv→Parts wait_command l (a, b) = record {
  prefix_is = a;
  params_are = rw b tt;
  few = rw b (omega arith);
}
LineInv→Parts in_param l (a, b, n) = record {
  prefix_is = a;
  params_are = IsMiddle→AreParams _ (IsMiddle-reverse l.params b);
  few = omega arith;
}
LineInv→Parts in_trailing l (a, b) = record {
  prefix_is = a;
  params_are = Tail→AreParams l.params b;
  few = Tail-length l.params b;
}

module _ (boost : Boost) where
  -- The end of `parseMessage`.
  abbrev finish : Line → Option Message
  finish l = if boost.match_command l.command then Option.some (message_of l) else Option.none

  finish-IsSendable :
      (r : Option Line) (m : Message) → AfterWord r → bind r finish ≡ Option.some m → IsSendable m
  finish-IsSendable Option.none m a e = cc
  finish-IsSendable (Option.some l) m a e =
      let parts = LineInv→Parts l.state l a in
      let accepted : (command_shape l.command ≡ true) × (m ≡ message_of l) =
        ground (arith, boost.match_command_lem l.command) in
      rw accepted.1 (record {
        prefix_is = parts.prefix_is;
        command_is = accepted.0;
        params_are = parts.params_are;
        few_params = rw (length-reverse l.params) parts.few;
      })

  -- Every message that `parseMessage` delivers is one that `encodeMessage` can write: its command
  -- has one of the two forms, the prefix and all parameters but the last have no space, those
  -- parameters are not empty and start with no colon, and there are at most 15.
  pub parse_message-IsSendable :
      (line : Bytes) (m : Message) → parse_message boost line ≡ Option.some m → IsSendable m
  unfolding parse_message
  parse_message-IsSendable line m e =
      finish-IsSendable (words (split_on is_space line) first_line) m
        (words-LineInv (split_on is_space line) first_line (split_on-Lacks line) (refl, refl))
        (rw (boost.split_lem) at e)
