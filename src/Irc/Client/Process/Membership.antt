-- ===== src/Irc/Client/Process/Membership.antt =====
-- Who is in a channel, through JOIN and PART.
use mathlib.Core.Option
use suda_gureum.Base.{
  ℕ, ◌≡◌, sym, ◌∙◌, inl, inr, Bool-cases, ◌&&◌, true, false, List, [], ◌∷◌, Option, none, some,
  if◌then◌else◌, Bytes, codes, arith,
}
use suda_gureum.Base.AssocMap.{
  find, same, emplace, erase, find-emplace, find-erase, find-modify, find-same,
}
use suda_gureum.Base.Boost.{Boost}
use suda_gureum.Irc.Client.Commands.{get_nickname_from_prefix, is_my_prefix}
use suda_gureum.Irc.Client.Process.{
  channel_of, proc_join, proc_part, proc_message, update, with_participants,
}
use suda_gureum.Irc.Client.State.{
  Client, Channel, ChannelParticipantSet, new_channel, Participant, participant_named, returned,
  fold_case, on_join_channel, fire,
}
use suda_gureum.Irc.Message.{Message}

abbrev pub message_from : Bytes → Bytes → List Bytes → Message
message_from prefix command params = record { prefix = prefix; command = command; params = params }

-- The first of two that is there.
abbrev pub or_else : Option Participant → Option Participant → Option Participant
or_else none q = q
or_else (some p) q = some p

module _ (boost : Boost) where
  abbrev pub participant_in : Option Channel → Bytes → Option Participant
  participant_in none who = none
  participant_in (some ch) who = find (fold_case boost) who ch.participants

  abbrev pub participant_of : Bytes → Client → Bytes → Option Participant
  participant_of channel c who = participant_in (channel_of boost channel c) who

  abbrev changed : (ChannelParticipantSet → ChannelParticipantSet) → Channel → Channel
  changed f ch = with_participants (f ch.participants) ch

  abbrev in_channel : Bytes → (ChannelParticipantSet → ChannelParticipantSet) → Client → Client
  in_channel channel f c = update boost channel (changed f) c

  participant_of-join :
      (channel nickname other who : Bytes) (c : Client) (ch : Channel)
      → channel_of boost channel c ≡ some ch
      → participant_of other
          (in_channel channel (emplace (fold_case boost) nickname (participant_named nickname)) c)
          who
        ≡ (if same (fold_case boost) channel other
            then or_else (participant_of other c who) (
                if same (fold_case boost) nickname who
                then some (participant_named nickname)
                else none)
            else participant_of other c who)
  participant_of-join channel nickname other who c ch e =
      elim (Bool-cases (same (fold_case boost) channel other)) [
        | inl here ↦
            let there : channel_of boost other c ≡ some ch =
              sym (find-same (fold_case boost) channel other c.channels here) ∙ e in
            ground (
              arith,
              there,
              find-modify (fold_case boost) other channel
                  (changed (emplace (fold_case boost) nickname (participant_named nickname)))
                  c.channels,
              find-emplace (fold_case boost) who nickname (participant_named nickname)
                  ch.participants,
            )
        | inr elsewhere ↦ ground (
          arith,
          find-modify (fold_case boost) other channel
              (changed (emplace (fold_case boost) nickname (participant_named nickname)))
              c.channels,
        )
      ]

  participant_of-part :
      (channel nickname other who : Bytes) (c : Client)
      → participant_of other (in_channel channel (erase (fold_case boost) nickname) c) who ≡ (
          if same (fold_case boost) channel other && same (fold_case boost) nickname who
          then none
          else participant_of other c who)
  participant_of-part channel nickname other who c =
      rw
        (find-modify (fold_case boost) other channel (changed (erase (fold_case boost) nickname))
          c.channels)
        (go (channel_of boost other c))
    where
      go :
          (o : Option Channel)
          → participant_in
              (if same (fold_case boost) channel other
                then Option.map (changed (erase (fold_case boost) nickname)) o
                else o)
              who
            ≡ (if same (fold_case boost) channel other && same (fold_case boost) nickname who
                then none
                else participant_in o who)
      go none = ground arith
      go (some ch) = ground (arith, find-erase (fold_case boost) who nickname ch.participants)

  -- Another user's JOIN of a channel that the client is in and the PART after it: both return; after
  -- the JOIN the user is a participant of that channel (with the entry it had, if it was there in
  -- any case of letters), after the PART it is none, and no other participant of any channel
  -- changes.
  pub proc_message-join_part :
      (now : ℕ) (prefix channel : Bytes) (c : Client) (ch : Channel)
      → is_my_prefix prefix c ≡ false
      → channel_of boost channel c ≡ some ch
      → (d : Client) × (e : Client) × (proc_message boost now
            (message_from prefix (codes "JOIN") (channel ∷ []))
            c
          ≡ returned d)
        × (proc_message boost now (message_from prefix (codes "PART") (channel ∷ [])) d
            ≡ returned e)
        × ((other who : Bytes)
            → participant_of other d who ≡ (
                if same (fold_case boost) channel other
                then or_else (participant_of other c who) (
                    if same (fold_case boost) (get_nickname_from_prefix prefix) who
                    then some (participant_named (get_nickname_from_prefix prefix))
                    else none)
                else participant_of other c who))
        × ((other who : Bytes)
            → participant_of other e who ≡ (
                if same (fold_case boost) channel other
                  && same (fold_case boost) (get_nickname_from_prefix prefix) who
                then none
                else participant_of other c who))
  unfolding proc_message proc_join proc_part
  proc_message-join_part now prefix channel c ch mine e =
      let nickname : Bytes = get_nickname_from_prefix prefix in
      let joined : Client =
        in_channel channel (emplace (fold_case boost) nickname (participant_named nickname)) c in
      (
        fire (on_join_channel channel nickname) joined,
        in_channel channel (erase (fold_case boost) nickname)
            (fire (on_join_channel channel nickname) joined),
        ground (arith, mine, e),
        rw mine,
        λ other who. participant_of-join channel nickname other who c ch e,
        λ other who. ground (
          arith,
          participant_of-join channel nickname other who c ch e,
          participant_of-part channel nickname other who joined,
        ),
      )

  -- The client's own JOIN and PART: both return; after the JOIN the channel is known (as it was,
  -- if it was known in any case of letters), after the PART it is not, and no other channel changes.
  pub proc_message-own_join_part :
      (now : ℕ) (prefix channel : Bytes) (c : Client)
      → is_my_prefix prefix c ≡ true
      → (d : Client) × (e : Client) × (proc_message boost now
            (message_from prefix (codes "JOIN") (channel ∷ []))
            c
          ≡ returned d)
        × (proc_message boost now (message_from prefix (codes "PART") (channel ∷ [])) d
            ≡ returned e)
        × ((other : Bytes)
            → channel_of boost other d ≡ elim (channel_of boost other c) [
              | some ch ↦ some ch
              | none ↦ if same (fold_case boost) channel other then some new_channel else none
            ])
        × ((other : Bytes)
            → channel_of boost other e
              ≡ (if same (fold_case boost) channel other then none else channel_of boost other c))
  unfolding proc_message proc_join proc_part
  proc_message-own_join_part now prefix channel c mine =
      let joined : Client = record c {
        channels = emplace (fold_case boost) channel new_channel c.channels;
      } in
      (
        joined,
        record c { channels = erase (fold_case boost) channel joined.channels },
        rw mine,
        rw mine,
        λ other. find-emplace (fold_case boost) other channel new_channel c.channels,
        λ other. ground (
          arith,
          find-emplace (fold_case boost) other channel new_channel c.channels,
          find-erase (fold_case boost) other channel joined.channels,
        ),
      )
