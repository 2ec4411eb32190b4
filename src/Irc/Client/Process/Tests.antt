-- ===== src/Irc/Client/Process/Tests.antt =====
-- The client at concrete input.
use mathlib.Core.Option
use mathlib.Core.List.{flatten}
use suda_gureum.Base.AssocMap.{find, same}
use suda_gureum.Base.Boost.{ascii_boost}
use suda_gureum.Base.{
  ℕ, ◌<◌, ◌≡◌, refl, ◌↔◌, true, false, ◌&&◌, List, [], ◌∷◌, ◌++◌, none, some, if◌then◌else◌, length,
  Bytes, codes,
}
use suda_gureum.Irc.Client.Commands.{get_nickname_from_prefix}
use suda_gureum.Irc.Client.Modes.Letters.{changes_for, loop-signed_letters}
use suda_gureum.Irc.Client.Modes.{ended, loop}
use suda_gureum.Irc.Client.Process.Membership.{
  message_from, participant_of, or_else, proc_message-join_part,
}
use suda_gureum.Irc.Client.Process.Names.{default-IsModeMap, first_entry, names_loop-ended}
use suda_gureum.Irc.Client.Process.Replies.{
  pong, Settled, handle_read-wire_pings, proc_messages-refusals,
}
use suda_gureum.Irc.Client.Process.Safety.{indexed, proc_message-undefined_iff}
use suda_gureum.Irc.Client.Process.{handle_read, names_loop, proc_message, proc_messages}
use suda_gureum.Irc.Client.State.{
  Client, ChannelParticipantSet, new_client, new_channel, participant_named,
  default_nickname_prefix_map, fold_case, returned, undefined, idle_writer,
}
use suda_gureum.Irc.Client.Writer.Order.{
  System, start, Reach, here, next, pushes, writes, completes, Orderly, Reach-Orderly, queued,
}
use suda_gureum.Irc.Parser.Tests.{ping, ping-IsWirable}
use suda_gureum.Irc.Parser.{initial}
use suda_gureum.Irc.Client.Writer.{push, write, write_front, completed}
use suda_gureum.Irc.Message.{Message, encode_message, command_message, wire}

abbrev me : Client
me = record (new_client 1) {
  nickname = codes "me";
  channels = (codes "#a", new_channel) ∷ [];
  connect_beginning = true;
  nickname_candidates = codes "me" ∷ codes "me_" ∷ [];
}

abbrev you : Bytes
you = codes "you!u@h"

abbrev ann_and_bob : ChannelParticipantSet
ann_and_bob =
    (codes "ann", participant_named (codes "ann"))
    ∷ (codes "bob", participant_named (codes "bob"))
    ∷ []

abbrev op_and_voice : List (ℕ × Bytes)
op_and_voice = (b'o', codes "ANN") ∷ (b'v', codes "bob") ∷ []

loop-signed_letters_example :
    (qs : ChannelParticipantSet) × (loop ascii_boost me.channel_modes me.nickname_prefix_map
        (codes "+ov")
        none
        (codes "ANN" ∷ codes "bob" ∷ [])
        ann_and_bob
      ≡ ended qs)
    × ((who : Bytes)
        → find (fold_case ascii_boost) who qs
          ≡ Option.map
              (changes_for ascii_boost me.channel_modes me.nickname_prefix_map who true
                op_and_voice)
              (find (fold_case ascii_boost) who ann_and_bob))
loop-signed_letters_example =
    loop-signed_letters ascii_boost me.channel_modes me.nickname_prefix_map true op_and_voice []
      ann_and_bob (refl, (refl, tt))

abbrev short_notice : Message
short_notice = message_from [] (codes "NOTICE") (codes "x" ∷ [])

proc_message-undefined_iff_example :
    (proc_message ascii_boost 0 short_notice me ≡ undefined)
    ↔ (length short_notice.params < indexed short_notice.command)
proc_message-undefined_iff_example = proc_message-undefined_iff ascii_boost 0 short_notice me

proc_message-join_part_example :
    (d : Client) × (e : Client) × (proc_message ascii_boost 0
        (message_from you (codes "JOIN") (codes "#A" ∷ []))
        me
      ≡ returned d)
    × (proc_message ascii_boost 0 (message_from you (codes "PART") (codes "#A" ∷ [])) d
        ≡ returned e)
    × ((other who : Bytes)
        → participant_of ascii_boost other d who ≡ (
            if same (fold_case ascii_boost) (codes "#A") other
            then or_else (participant_of ascii_boost other me who) (
                if same (fold_case ascii_boost) (get_nickname_from_prefix you) who
                then some (participant_named (get_nickname_from_prefix you))
                else none)
            else participant_of ascii_boost other me who))
    × ((other who : Bytes)
        → participant_of ascii_boost other e who ≡ (
            if same (fold_case ascii_boost) (codes "#A") other
              && same (fold_case ascii_boost) (get_nickname_from_prefix you) who
            then none
            else participant_of ascii_boost other me who))
unfolding find get_nickname_from_prefix
proc_message-join_part_example =
    proc_message-join_part ascii_boost 0 you (codes "#A") me new_channel refl refl

names_loop-ended_example :
    (qs : ChannelParticipantSet) × (names_loop ascii_boost default_nickname_prefix_map
        (codes "@Ann" ∷ codes "eve" ∷ [])
        ann_and_bob
      ≡ ended qs)
    × ((who : Bytes)
        → find (fold_case ascii_boost) who qs
          ≡ or_else (find (fold_case ascii_boost) who ann_and_bob) (
              first_entry ascii_boost default_nickname_prefix_map
                (codes "@Ann" ∷ codes "eve" ∷ [])
                who))
names_loop-ended_example =
    names_loop-ended ascii_boost default_nickname_prefix_map (codes "@Ann" ∷ codes "eve" ∷ [])
      ann_and_bob default-IsModeMap

handle_read-wire_pings_example :
    (d : Client) × (handle_read ascii_boost 0 false (wire ping ++ []) me ≡ returned d)
    × (queued d.writer ≡ wire (pong ping) ∷ [])
    × (d.read_pending ≡ true)
    × (d.parser ≡ initial)
unfolding flatten
handle_read-wire_pings_example =
    handle_read-wire_pings ascii_boost 0 (ping ∷ []) me refl tt (ping-IsWirable, tt) (refl, tt)

abbrev nickname_in_use : Message
nickname_in_use = message_from (codes "server") (codes "433") (codes "*" ∷ codes "me" ∷ [])

proc_messages-refusals_example :
    (d : Client) × (proc_messages ascii_boost 0 (nickname_in_use ∷ []) me ≡ returned d)
    × Settled (codes "me_" ∷ []) d
proc_messages-refusals_example =
    proc_messages-refusals ascii_boost 0 nickname_in_use [] me refl (refl, tt)

abbrev hello : Message
hello = command_message (codes "JOIN") (codes "#a" ∷ [])

abbrev empty : System
empty = start idle_writer

empty-Orderly : Orderly empty
empty-Orderly = record { fifo = refl; one_write = refl; woken = λ ok none off. refl; filled = tt }

abbrev half_sent : System
half_sent = record {
  writer = record { buffer_to_write = wire ping ∷ []; in_write = false; handed = wire hello ∷ [] };
  pushed = wire hello ∷ wire ping ∷ [];
  owed = 1;
  completions = 1;
  failed = false;
}

-- Two threads send; the first to call `write` hands over, and the other finds it busy.
Reach-two_sends : Reach empty half_sent
unfolding push write write_front completed encode_message
Reach-two_sends =
    next
      (next (next (next (next here (pushes hello)) (pushes ping)) (writes 1 refl)) (writes 0 refl))
      (completes false refl)

Reach-Orderly_example : Orderly half_sent
Reach-Orderly_example = Reach-Orderly empty-Orderly Reach-two_sends
