-- ===== src/Irc/Client/Modes.antt =====
-- The loop of `procMessage` over the letters of a channel's MODE message. `nextParam` hands out the
-- parameters from the third on, so what is left of them is kept; it throws when none is left.
pub mod Letters
use suda_gureum.Base.{
  ℕ, Bool, true, false, ◌||◌, ◌&&◌, List, [], ◌∷◌, Option, none, some, ◌==◌, if◌then◌else◌, Bytes,
}
use suda_gureum.Base.AssocMap.{modify}
use suda_gureum.Base.Boost.{Boost}
use suda_gureum.Irc.Client.Commands.{contains}
use suda_gureum.Irc.Client.State.{
  ChannelModes, ChannelParticipantSet, NicknamePrefixMap, Participant, fold_case, set_mode,
  participant_mode_from_permission,
}

-- The letters with a case of their own that changes a participant.
abbrev pub is_participant_letter : ℕ → Bool
is_participant_letter c = (c == b'q') || (c == b'a') || (c == b'o') || (c == b'h') || (c == b'v')

-- The other letters with a case of their own; nothing is done for them yet.
abbrev pub is_ignored_letter : ℕ → Bool
is_ignored_letter c =
    (c == b'O') || (c == b'l') || (c == b'k') || (c == b'b') || (c == b'e') || (c == b'I')

-- `nicknamePrefixMap_.get<1>().find`
abbrev pub has_permission : ℕ → NicknamePrefixMap → Bool
has_permission letter [] = false
has_permission letter ((k, v) ∷ m) = if v == letter then true else has_permission letter m

-- The modification of a participant; the letters of `is_participant_letter` all stand for a mode.
abbrev pub change_mode : ℕ → Bool → Participant → Participant
change_mode c on p = elim (participant_mode_from_permission c) [
  | some mode ↦ record p { modes = set_mode mode on p.modes }
  | none ↦ p
]

-- What one letter leaves of the sign, the parameters and the participants, or an exception.
pub data Round : Type 0 where
  goes :
      (operation : Option Bool) (params : List Bytes) (participants : ChannelParticipantSet) → Round
  throws : (participants : ChannelParticipantSet) → Round

pub data Looped : Type 0 where
  ended : (participants : ChannelParticipantSet) → Looped
  threw : (participants : ChannelParticipantSet) → Looped

abbrev pub has_value : Option Bool → Bool
has_value none = false
has_value (some b) = true

module _ (boost : Boost) (channel_modes : ChannelModes) (prefix_map : NicknamePrefixMap) where
  -- The default case: whether the letter comes with a parameter, which is skipped. The last test
  -- reads `operation &&`, and `operation` is an `optional`.
  pub takes_param : ℕ → Option Bool → Bool
  takes_param c operation =
      contains c channel_modes.mode_a
      || contains c channel_modes.mode_b
      || has_permission c prefix_map
      || (has_value operation && contains c channel_modes.mode_c)

  pub change_participant : ℕ → Bool → List Bytes → ChannelParticipantSet → Round
  change_participant c on [] ps = throws ps
  change_participant c on (nickname ∷ rest) ps =
      goes (some on) rest (modify (fold_case boost) nickname (change_mode c on) ps)

  pub skip_param : Option Bool → List Bytes → ChannelParticipantSet → Round
  skip_param operation [] ps = throws ps
  skip_param operation (param ∷ rest) ps = goes operation rest ps

  -- A letter behind a sign.
  pub letter : ℕ → Bool → List Bytes → ChannelParticipantSet → Round
  unfolding takes_param change_participant skip_param
  letter c on params ps =
      if is_participant_letter c
      then change_participant c on params ps
      else if is_ignored_letter c
      then goes (some on) params ps
      else if takes_param c (some on)
      then skip_param (some on) params ps
      else goes (some on) params ps

  pub round : ℕ → Option Bool → List Bytes → ChannelParticipantSet → Round
  unfolding letter
  round c operation params ps =
      if c == b'+'
      then goes (some true) params ps
      else if c == b'-'
      then goes (some false) params ps
      else elim operation [ none ↦ goes none params ps | some on ↦ letter c on params ps ]

  unfoldable pub loop : Bytes → Option Bool → List Bytes → ChannelParticipantSet → Looped
  unfolding round
  loop [] operation params ps = ended ps
  loop (c ∷ cs) operation params ps = elim (round c operation params ps) [
    | goes operation' rest qs ↦ loop cs operation' rest qs
    | throws qs ↦ threw qs
  ]
