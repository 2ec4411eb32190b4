-- ===== src/Irc/Client/Process.antt =====
-- `IrcClient::procMessage`, a function for each branch, and `handleRead`, which calls it for every
-- message of a read. The time is an argument where the code asks the clock. When a message raises
-- an exception, `handleRead` is left by it and no further read is asked for.
pub mod Safety
pub mod Membership
pub mod Names
pub mod Replies
pub mod Tests
use suda_gureum.Base.{
  ℕ, zero, suc, Bool, true, false, ◌||◌, List, [], ◌∷◌, Option, none, some, ◌==◌, if◌then◌else◌,
  Bytes, bytes_eq, codes,
}
use suda_gureum.Base.AssocMap.{find, emplace, erase, modify}
use suda_gureum.Base.Boost.{Boost}
use suda_gureum.Irc.Client.Commands.{
  get_nickname_from_prefix, send_message, is_my_prefix, try_next_nickname, parse_participant,
  force_close, read,
}
use suda_gureum.Irc.Client.Modes.{Looped, ended, threw, loop}
use suda_gureum.Irc.Client.State.{
  Client, Channel, new_channel, ChannelParticipantSet, on_connect, on_server_message,
  on_join_channel, on_channel_message, on_channel_notice, on_personal_message, Handled, returned,
  raised, undefined, ◌>>=◌, fire, fold_case, participant_named, NicknamePrefixMap,
}
use suda_gureum.Irc.Client.Support.{proc_isupport}
use suda_gureum.Irc.Message.{Message, command_message}
use suda_gureum.Irc.Parser.{Parsed, parse}

-- `params_.at`
abbrev pub at : ℕ → List Bytes → Option Bytes
at i [] = none
at zero (p ∷ ps) = some p
at (suc i) (p ∷ ps) = at i ps

abbrev pub with_at : ℕ → Message → Client → (Bytes → Handled) → Handled
with_at i m c k = elim (at i m.params) [ none ↦ raised c | some p ↦ k p ]

-- `params_[…]`
abbrev pub with_index : ℕ → Message → (Bytes → Handled) → Handled
with_index i m k = elim (at i m.params) [ none ↦ undefined | some p ↦ k p ]

pub proc_error : Client → Handled
proc_error c =
    if c.quit_ready
    then returned
        (record c { socket_open = false; left_pool = if c.clear_me then true else c.left_pool })
    else returned c

pub proc_ping : Message → Client → Handled
proc_ping m c = returned (send_message (command_message (codes "PONG") m.params) c)

pub proc_notice : Message → Client → Handled
proc_notice m c = with_index 0 m λ channel.
    with_index 1 m
      λ text. returned (fire (on_channel_notice channel (get_nickname_from_prefix m.prefix) text) c)

pub proc_privmsg : Message → Client → Handled
proc_privmsg m c = with_index 0 m λ channel. with_index 1 m λ text.
    let who : Bytes = get_nickname_from_prefix m.prefix in
    if bytes_eq channel c.nickname
    then returned (fire (on_personal_message who text) c)
    else returned (fire (on_channel_message channel who text) c)

pub proc_welcome : Message → Client → Handled
proc_welcome m c = with_index 0 m λ text. returned (
    fire (on_server_message m.command text)
      (fire on_connect (record c { connect_beginning = false })))

pub proc_nickname_error : Client → Handled
proc_nickname_error c = if c.connect_beginning then returned (try_next_nickname c) else returned c

-- `Channel::Public`, `Private` and `Secret`
abbrev pub is_accessivity : ℕ → Bool
is_accessivity a = (a == b'=') || (a == b'*') || (a == b'@')

-- The first character; that of an empty string is the terminating zero.
abbrev pub first : Bytes → ℕ
first [] = 0
first (b ∷ bs) = b

abbrev pub with_participants : ChannelParticipantSet → Channel → Channel
with_participants ps ch = record ch { participants = ps }

module _ (boost : Boost) where
  abbrev pub channel_of : Bytes → Client → Option Channel
  channel_of name c = find (fold_case boost) name c.channels

  abbrev pub update : Bytes → (Channel → Channel) → Client → Client
  update name f c = record c { channels = modify (fold_case boost) name f c.channels }

  -- What an iterator to a channel is used for, if there is one.
  abbrev pub with_channel : Bytes → Client → (Channel → Handled) → Handled
  with_channel name c k = elim (channel_of name c) [ none ↦ returned c | some ch ↦ k ch ]

  pub proc_join : Message → Client → Handled
  proc_join m c = with_at 0 m c λ channel.
      if is_my_prefix m.prefix c
      then returned
          (record c { channels = emplace (fold_case boost) channel new_channel c.channels })
      else with_channel channel c λ ch.
        let who : Bytes = get_nickname_from_prefix m.prefix in
        returned (
          fire (on_join_channel channel who) (
            update channel
              (λ ch'.
                with_participants
                  (emplace (fold_case boost) who (participant_named who) ch'.participants) ch')
              c))

  pub proc_part : Message → Client → Handled
  proc_part m c = with_at 0 m c λ channel.
      if is_my_prefix m.prefix c
      then returned (record c { channels = erase (fold_case boost) channel c.channels })
      else returned (
          update channel
            (λ ch.
              with_participants
                (erase (fold_case boost) (get_nickname_from_prefix m.prefix) ch.participants) ch)
            c)

  -- The participants as the loop left them, also when it threw.
  abbrev pub looped : Bytes → Looped → Client → Handled
  looped channel (ended ps) c = returned (update channel (with_participants ps) c)
  looped channel (threw ps) c = raised (update channel (with_participants ps) c)

  abbrev pub from_third : List Bytes → List Bytes
  from_third (a ∷ b ∷ ps) = ps
  from_third _ = []

  pub proc_mode : Message → Client → Handled
  proc_mode m c = with_at 0 m c λ to.
      if bytes_eq to c.nickname
      then returned c
      else with_channel to c λ ch. with_at 1 m c λ modifier.
        looped to
          (loop boost c.channel_modes c.nickname_prefix_map modifier none (from_third m.params)
            ch.participants)
          c

  pub proc_no_topic : ℕ → Message → Client → Handled
  proc_no_topic now m c = with_at 1 m c λ channel.
      returned
        (update channel (λ ch. record ch { topic = []; topic_setter = []; topic_set_time = now }) c)

  pub proc_topic : Message → Client → Handled
  proc_topic m c = with_at 1 m c λ channel.
      with_channel channel c λ ch.
        with_at 2 m c λ topic. returned (update channel (λ ch'. record ch' { topic = topic }) c)

  -- The setter is stored before the time is read.
  pub proc_topic_setter : Message → Client → Handled
  proc_topic_setter m c = with_at 1 m c λ channel. with_channel channel c λ ch.
      with_at 2 m c λ setter.
        let d : Client = update channel (λ ch'. record ch' { topic_setter = setter }) c in
        with_at 3 m d λ time. elim (boost.lexical_cast_time time) [
          | none ↦ raised d
          | some t ↦ returned (update channel (λ ch'. record ch' { topic_set_time = t }) d)
        ]

  -- The loop over the nicknames.
  pub names_loop : NicknamePrefixMap → List Bytes → ChannelParticipantSet → Looped
  names_loop m [] ps = ended ps
  names_loop m (n ∷ ns) ps = elim (parse_participant m n) [
    | none ↦ threw ps
    | some p ↦ names_loop m ns (emplace (fold_case boost) p.nickname p ps)
  ]

  pub proc_names : Message → Client → Handled
  proc_names m c = with_at 2 m c λ channel. with_channel channel c λ ch. with_at 1 m c λ kind.
      let d : Client = update channel (λ ch'. record ch' { accessivity = first kind }) c in
      if is_accessivity (first kind)
      then (with_at 3 m d λ names.
          looped channel
            (names_loop c.nickname_prefix_map (boost.split boost.is_space names) ch.participants) d)
      else returned c

  pub proc_message : ℕ → Message → Client → Handled
  proc_message now m c =
      let is : Bytes → Bool = bytes_eq m.command in
      if is (codes "ERROR")
      then proc_error c
      else if is (codes "JOIN")
      then proc_join m c
      else if is (codes "MODE")
      then proc_mode m c
      else if is (codes "NOTICE")
      then proc_notice m c
      else if is (codes "PART")
      then proc_part m c
      else if is (codes "PING")
      then proc_ping m c
      else if is (codes "PRIVMSG")
      then proc_privmsg m c
      else if is (codes "001")
      then proc_welcome m c
      else if is (codes "005")
      then proc_isupport boost m.params c
      else if is (codes "331")
      then proc_no_topic now m c
      else if is (codes "332")
      then proc_topic m c
      else if is (codes "333")
      then proc_topic_setter m c
      else if is (codes "353")
      then proc_names m c
      else if is (codes "432") || is (codes "433") || is (codes "436") || is (codes "437")
      then proc_nickname_error c
      else returned c

  pub proc_messages : ℕ → List Message → Client → Handled
  proc_messages now [] c = returned c
  proc_messages now (m ∷ ms) c = proc_message now m c >>= proc_messages now ms

  -- The end of `handleRead`, on the value that `parse` returned.
  abbrev pub after_parse : Bool → Client → Client
  after_parse ok c = if ok then read c else force_close c

  unfoldable pub parsed : ℕ → Parsed → Client → Handled
  parsed now p c = do
    d ← proc_messages now p.messages c
    returned (after_parse p.accepted (record d { parser = p.parser }))

  -- The flag is the error code.
  unfoldable pub handle_read : ℕ → Bool → Bytes → Client → Handled
  handle_read now true input c = if c.quit_ready then returned c else returned (force_close c)
  handle_read now false input c = parsed now (parse boost c.parser input) c
