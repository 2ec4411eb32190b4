-- ===== src/Irc/Client/Commands.antt =====
-- What the client sends of its own accord, the way it connects and closes, and its small helpers.
use suda_gureum.Base.{
  ℕ, ◌+◌, Bool, true, false, List, [], ◌∷◌, Option, none, some, ◌==◌, if◌then◌else◌, drop, Bytes,
  bytes_eq, codes, is_empty,
}
use suda_gureum.Irc.Client.State.{
  Client, Participant, participant_named, NicknamePrefixMap, no_modes, set_mode,
  participant_mode_from_permission,
}
use suda_gureum.Irc.Client.Writer.{push, write, completed}
use suda_gureum.Irc.Message.{Message, command_message, wire}

-- The string up to the first such byte, or `none` if there is none.
abbrev pub before : ℕ → Bytes → Option Bytes
before b [] = none
before b (c ∷ cs) =
    if c == b then some [] else elim (before b cs) [ none ↦ none | some w ↦ some (c ∷ w) ]

unfoldable pub get_nickname_from_prefix : Bytes → Bytes
get_nickname_from_prefix prefix = elim (before b'!' prefix) [
  | some nickname ↦ nickname
  | none ↦ elim (before b'@' prefix) [ some nickname ↦ nickname | none ↦ prefix ]
]

unfoldable pub send_message : Message → Client → Client
send_message m c = record c { writer = write (push (wire m) c.writer) }

unfoldable pub set_nickname : Bytes → Client → Client
unfolding send_message
set_nickname nickname c =
    send_message (command_message (codes "NICK") (nickname ∷ [])) (record c { nickname = nickname })

unfoldable pub own_mode : Bytes → Client → Client
own_mode modifier c = send_message (command_message (codes "MODE") (c.nickname ∷ modifier ∷ [])) c

unfoldable pub join : Bytes → Client → Client
join channel c = send_message (command_message (codes "JOIN") (channel ∷ [])) c

pub join_with_key : Bytes → Bytes → Client → Client
join_with_key channel key c = send_message (command_message (codes "JOIN") (channel ∷ key ∷ [])) c

pub part : Bytes → Bytes → Client → Client
part channel message c = send_message (command_message (codes "PART") (channel ∷ message ∷ [])) c

pub channel_mode : Bytes → Bytes → Bytes → Client → Client
channel_mode channel nickname modifier c =
    send_message (command_message (codes "MODE") (channel ∷ nickname ∷ modifier ∷ [])) c

pub privmsg : Bytes → Bytes → Client → Client
privmsg target message c =
    send_message (command_message (codes "PRIVMSG") (target ∷ message ∷ [])) c

abbrev pub read : Client → Client
read c = record c { read_pending = true }

unfoldable pub close : Bool → Client → Client
unfolding send_message
close clear_me c =
    record (send_message (command_message (codes "QUIT") (codes "Bye!" ∷ []))
      (record c { quit_ready = true; clear_me = clear_me })) { close_timer_pending = true }

pub force_close : Client → Client
force_close c = record c { socket_open = false; left_pool = true }

-- `nicknames.empty() || nicknames[0].empty()`
abbrev pub has_no_nickname : List Bytes → Bool
has_no_nickname [] = true
has_no_nickname (n ∷ ns) = is_empty n

-- Up to the call of `asyncConnect`.
pub connect : List Bytes → Client → Client
connect nicknames c = if has_no_nickname nicknames then c else record c {
  nickname_candidates = nicknames;
  current_nickname_index = 0;
  socket_open = true;
}

-- `nicknameCandidates_[0]`, which `connect` found there.
abbrev pub first_candidate : List Bytes → Bytes
first_candidate [] = []
first_candidate (n ∷ ns) = n

abbrev pub user_message : Bytes → Message
user_message n = command_message (codes "USER") (n ∷ codes "0" ∷ codes "*" ∷ n ∷ [])

-- The completion of `asyncConnect`; the flag is the error code.
pub handle_connect : Bool → Client → Client
unfolding set_nickname
handle_connect true c = c
handle_connect false c =
    let nickname : Bytes = first_candidate c.nickname_candidates in
    read (
      set_nickname nickname
        (send_message (user_message nickname) (record c { connect_beginning = true })))

-- The candidate at the index, or the end of the attempts.
unfoldable pub with_candidate : List Bytes → Client → Client
unfolding close set_nickname
with_candidate [] c = close true c
with_candidate (nickname ∷ ns) c = set_nickname nickname c

unfoldable pub try_next_nickname : Client → Client
unfolding with_candidate
try_next_nickname c =
    let index : ℕ = c.current_nickname_index + 1 in
    with_candidate (drop index c.nickname_candidates) (record c { current_nickname_index = index })

abbrev pub is_my_prefix : Bytes → Client → Bool
is_my_prefix prefix c = bytes_eq c.nickname (get_nickname_from_prefix prefix)

-- `std::find` in `channelTypes_`
abbrev pub contains : ℕ → Bytes → Bool
contains b [] = false
contains b (c ∷ cs) = if c == b then true else contains b cs

pub is_channel : Bytes → Client → Bool
is_channel [] c = false
is_channel (b ∷ bs) c = contains b c.channel_types

-- `nicknamePrefixMap_.find`
abbrev pub permission_of : ℕ → NicknamePrefixMap → Option ℕ
permission_of key [] = none
permission_of key ((k, v) ∷ m) = if k == key then some v else permission_of key m

-- `none` when `set` throws: the letter stands for no mode.
unfoldable pub parse_participant : NicknamePrefixMap → Bytes → Option Participant
parse_participant m [] = some (participant_named [])
parse_participant m (c ∷ cs) = elim (permission_of c m) [
  | some permission ↦ elim (participant_mode_from_permission permission) [
    | some mode ↦ some (record { modes = set_mode mode true no_modes; nickname = cs; away = false })
    | none ↦ none
  ]
  | none ↦ some (participant_named (c ∷ cs))
]

-- The flag is the error code.
unfoldable pub handle_write : Bool → Client → Client
unfolding force_close
handle_write true c =
    let d : Client = record c { writer = completed c.writer } in
    if c.quit_ready then d else force_close d
handle_write false c = record c { writer = write (completed c.writer) }

-- The flag says that the timer was cancelled.
unfoldable pub handle_close_timeout : Bool → Client → Client
unfolding force_close
handle_close_timeout cancelled c = if cancelled then c else force_close c
