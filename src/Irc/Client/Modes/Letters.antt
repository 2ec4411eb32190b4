-- ===== src/Irc/Client/Modes/Letters.antt =====
-- A sign and letters with a participant each.
use mathlib.Core.Option
use suda_gureum.Base.{
  ℕ, ◌≡◌, refl, Bool, true, List, [], ◌∷◌, ◌++◌, none, some, if◌then◌else◌, Bytes, All, arith,
}
use suda_gureum.Base.AssocMap.{modify, find, same, find-modify}
use suda_gureum.Base.Boost.{Boost}
use suda_gureum.Irc.Client.Modes.{is_participant_letter, change_mode, ended, loop}
use suda_gureum.Irc.Client.State.{
  ChannelModes, ChannelParticipantSet, NicknamePrefixMap, Participant, fold_case,
}

-- The letters and the nicknames that come with them.
abbrev pub letters_of : List (ℕ × Bytes) → Bytes
letters_of [] = []
letters_of ((c, n) ∷ cs) = c ∷ letters_of cs

abbrev pub nicknames_of : List (ℕ × Bytes) → List Bytes
nicknames_of [] = []
nicknames_of ((c, n) ∷ cs) = n ∷ nicknames_of cs

abbrev pub sign_of : Bool → ℕ
sign_of on = if on then b'+' else b'-'

module _ (boost : Boost) (channel_modes : ChannelModes) (prefix_map : NicknamePrefixMap) where
  -- The changes, one after the other.
  abbrev pub all_changes : Bool → List (ℕ × Bytes) → ChannelParticipantSet → ChannelParticipantSet
  all_changes on [] ps = ps
  all_changes on ((c, n) ∷ cs) ps =
      all_changes on cs (modify (fold_case boost) n (change_mode c on) ps)

  loop_signed :
      (on : Bool) (cs : List (ℕ × Bytes)) (more : List Bytes) (ps : ChannelParticipantSet)
      → All (λ x. is_participant_letter x.0 ≡ true) cs
      → loop boost channel_modes prefix_map (letters_of cs) (some on) (nicknames_of cs ++ more) ps
        ≡ ended (all_changes on cs ps)
  unfolding loop
  loop_signed on [] more ps h = refl
  loop_signed on ((c, n) ∷ cs) more ps (hc, h) =
      ground (arith, loop_signed on cs more (modify (fold_case boost) n (change_mode c on) ps) h)

  -- The changes that name this participant, in any case of letters.
  abbrev pub changes_for : Bytes → Bool → List (ℕ × Bytes) → Participant → Participant
  changes_for who on [] p = p
  changes_for who on ((c, n) ∷ cs) p =
      changes_for who on cs (if same (fold_case boost) n who then change_mode c on p else p)

  find-all_changes :
      (who : Bytes) (on : Bool) (cs : List (ℕ × Bytes)) (ps : ChannelParticipantSet)
      → find (fold_case boost) who (all_changes on cs ps)
        ≡ Option.map (changes_for who on cs) (find (fold_case boost) who ps)
  find-all_changes who on [] ps = ground arith
  find-all_changes who on ((c, n) ∷ cs) ps = ground (
    arith,
    find-all_changes who on cs (modify (fold_case boost) n (change_mode c on) ps),
    find-modify (fold_case boost) who n (change_mode c on) ps,
  )

  -- A sign with letters among `qaohv` and with a parameter for each: the loop does not throw, and
  -- it changes exactly the participants named, each by the letters that come with its nickname (in
  -- any case of letters); a participant that is not in the channel is passed over, and further
  -- parameters are left alone.
  pub loop-signed_letters :
      (on : Bool) (cs : List (ℕ × Bytes)) (more : List Bytes) (ps : ChannelParticipantSet)
      → All (λ x. is_participant_letter x.0 ≡ true) cs
      → (qs : ChannelParticipantSet) × (loop boost channel_modes prefix_map
            (sign_of on ∷ letters_of cs)
            none
            (nicknames_of cs ++ more)
            ps
          ≡ ended qs)
        × ((who : Bytes)
            → find (fold_case boost) who qs
              ≡ Option.map (changes_for who on cs) (find (fold_case boost) who ps))
  unfolding loop
  loop-signed_letters on cs more ps h = (
    all_changes on cs ps,
    ground (arith, loop_signed on cs more ps h),
    λ who. find-all_changes who on cs ps,
  )
