-- ===== src/Irc/Client/Process/Names.antt =====
-- The loop over the nicknames of RPL_NAMREPLY.
use suda_gureum.Base.{
  ℕ, ◌≡◌, refl, ◌==◌, inl, inr, Bool-cases, Option-cases, true, false, List, [], ◌∷◌, Option, none,
  some, if◌then◌else◌, Bytes, All, arith,
}
use suda_gureum.Base.AssocMap.{find, same, emplace, find-emplace}
use suda_gureum.Base.Boost.{Boost}
use suda_gureum.Irc.Client.Commands.{parse_participant, permission_of}
use suda_gureum.Irc.Client.Modes.{ended}
use suda_gureum.Irc.Client.Process.{names_loop}
use suda_gureum.Irc.Client.Process.Membership.{or_else}
use suda_gureum.Irc.Client.State.{
  Mode, set_mode, no_modes, ChannelParticipantSet, NicknamePrefixMap, Participant,
  participant_named, fold_case, participant_mode_from_permission, default_nickname_prefix_map,
}

abbrev pub IsModeLetter : ℕ → Type 0
IsModeLetter letter = (mode : Mode) × (participant_mode_from_permission letter ≡ some mode)

-- Every letter of the map stands for a mode, as those of the default map do.
abbrev pub IsModeMap : NicknamePrefixMap → Type 0
IsModeMap = All (λ x. IsModeLetter x.1)

pub default-IsModeMap : IsModeMap default_nickname_prefix_map
unfolding participant_mode_from_permission
default-IsModeMap = (
  (Mode.owner, refl),
  ((Mode.admin, refl), ((Mode.op, refl), ((Mode.half_op, refl), ((Mode.voice, refl), tt)))),
)

permission_of-IsModeLetter :
    (key : ℕ) (m : NicknamePrefixMap) (letter : ℕ)
    → IsModeMap m
    → permission_of key m ≡ some letter
    → IsModeLetter letter
permission_of-IsModeLetter key [] letter h e = absurd (ground arith)
permission_of-IsModeLetter key ((k, v) ∷ m) letter (hv, h) e = elim (Bool-cases (k == key)) [
  | inl here ↦ let same : v ≡ letter = ground arith in rw same at hv
  | inr later ↦ permission_of-IsModeLetter key m letter h (ground arith)
]

parse_participant-total :
    (m : NicknamePrefixMap) (n : Bytes)
    → IsModeMap m
    → (p : Participant) × (parse_participant m n ≡ some p)
unfolding parse_participant
parse_participant-total m [] h = (participant_named [], refl)
parse_participant-total m (c ∷ cs) h = elim (Option-cases (permission_of c m)) [
  | inl stranger ↦ (participant_named (c ∷ cs), ground (arith, stranger))
  | inr (letter, e) ↦
      let (mode, f) = permission_of-IsModeLetter c m letter h e in
      (
        record { modes = set_mode mode true no_modes; nickname = cs; away = false },
        ground (arith, e, f),
      )
]

module _ (boost : Boost) (m : NicknamePrefixMap) where
  -- The first entry of the list for a participant.
  abbrev pub first_entry : List Bytes → Bytes → Option Participant
  first_entry [] who = none
  first_entry (n ∷ ns) who = elim (parse_participant m n) [
    | none ↦ none
    | some p ↦ if same (fold_case boost) p.nickname who then some p else first_entry ns who
  ]

  -- With a prefix map of letters that stand for modes the loop does not throw; a participant that
  -- was there keeps its entry, and any other gets the first entry of the list for its nickname.
  pub names_loop-ended :
      (ns : List Bytes) (ps : ChannelParticipantSet)
      → IsModeMap m
      → (qs : ChannelParticipantSet) × (names_loop boost m ns ps ≡ ended qs)
        × ((who : Bytes)
            → find (fold_case boost) who qs
              ≡ or_else (find (fold_case boost) who ps) (first_entry ns who))
  unfolding names_loop
  names_loop-ended [] ps h = (ps, refl, λ who. ground arith)
  names_loop-ended (n ∷ ns) ps h =
      let (p, e) = parse_participant-total m n h in
      let (qs, run, found) = names_loop-ended ns (emplace (fold_case boost) p.nickname p ps) h in
      (
        qs,
        ground (arith, e, run),
        λ who. ground (arith, e, found who, find-emplace (fold_case boost) who p.nickname p ps),
      )
