-- ===== src/Irc/Client/State.antt =====
-- The data of `IrcClient` (IrcClient.h), the signals it fires, and how a handler can end.
use suda_gureum.Base.{
  ℕ, Bool, false, List, [], ◌∷◌, ◌++◌, Option, none, some, ◌==◌, if◌then◌else◌, Bytes,
}
use suda_gureum.Base.AssocMap.{AssocMap}
pub use suda_gureum.Base.Boost.{fold_case}
use suda_gureum.Irc.Parser.{Parser, initial}

pub data Mode : Type 0 where
  voice half_op op admin owner : Mode

-- `std::bitset<5>`
pub record Modes : Type 0 where
  pub voice : Bool
  pub half_op : Bool
  pub op : Bool
  pub admin : Bool
  pub owner : Bool

abbrev pub no_modes : Modes
no_modes = record { voice = false; half_op = false; op = false; admin = false; owner = false }

-- `modes_.set` and `modes_.reset`
abbrev pub set_mode : Mode → Bool → Modes → Modes
set_mode Mode.voice on m = record m { voice = on }
set_mode Mode.half_op on m = record m { half_op = on }
set_mode Mode.op on m = record m { op = on }
set_mode Mode.admin on m = record m { admin = on }
set_mode Mode.owner on m = record m { owner = on }

abbrev pub has_mode : Mode → Modes → Bool
has_mode Mode.voice m = m.voice
has_mode Mode.half_op m = m.half_op
has_mode Mode.op m = m.op
has_mode Mode.admin m = m.admin
has_mode Mode.owner m = m.owner

-- `none` is the largest `size_t`, which `set` refuses with `out_of_range`.
unfoldable pub participant_mode_from_permission : ℕ → Option Mode
participant_mode_from_permission permission =
    if permission == b'q'
    then some Mode.owner
    else if permission == b'a'
    then some Mode.admin
    else if permission == b'o'
    then some Mode.op
    else if permission == b'h'
    then some Mode.half_op
    else if permission == b'v'
    then some Mode.voice
    else none

pub record Participant : Type 0 where
  pub modes : Modes
  pub nickname : Bytes
  pub away : Bool

abbrev pub participant_named : Bytes → Participant
participant_named nickname = record { modes = no_modes; nickname = nickname; away = false }

-- `ChannelParticipantSet`, each entry under its nickname
abbrev pub ChannelParticipantSet : Type 0
ChannelParticipantSet = AssocMap Participant

pub record Channel : Type 0 where
  pub accessivity : ℕ
  pub topic : Bytes
  pub topic_setter : Bytes
  -- seconds since the epoch
  pub topic_set_time : ℕ
  pub participants : ChannelParticipantSet
  pub key : Bytes
  pub limit : ℕ

abbrev pub new_channel : Channel
new_channel = record {
  accessivity = 0;
  topic = [];
  topic_setter = [];
  topic_set_time = 0;
  participants = [];
  key = [];
  limit = 0;
}

-- The signals, with the arguments that are not the client itself.
pub data Event : Type 0 where
  on_connect : Event
  on_server_message : (command : Bytes) (text : Bytes) → Event
  on_join_channel : (channel : Bytes) (nickname : Bytes) → Event
  on_channel_message : (channel : Bytes) (nickname : Bytes) (message : Bytes) → Event
  on_channel_notice : (channel : Bytes) (nickname : Bytes) (message : Bytes) → Event
  on_personal_message : (nickname : Bytes) (message : Bytes) → Event

-- `NicknamePrefixMap`: pairs of a prefix character and a mode letter, both unique
abbrev pub NicknamePrefixMap : Type 0
NicknamePrefixMap = List (ℕ × ℕ)

abbrev pub default_nickname_prefix_map : NicknamePrefixMap
default_nickname_prefix_map =
    (b'~', b'q') ∷ (b'&', b'a') ∷ (b'@', b'o') ∷ (b'%', b'h') ∷ (b'+', b'v') ∷ []

-- `channelModes_`, an array of four
pub record ChannelModes : Type 0 where
  pub mode_a : Bytes
  pub mode_b : Bytes
  pub mode_c : Bytes
  pub mode_d : Bytes

-- The write buffer: `handed` are the strings given to `socket_->asyncWrite`, in order.
pub record Writer : Type 0 where
  pub buffer_to_write : List Bytes
  pub in_write : Bool
  pub handed : List Bytes

abbrev pub idle_writer : Writer
idle_writer = record { buffer_to_write = []; in_write = false; handed = [] }

pub record Client : Type 0 where
  pub connection_id : ℕ
  pub parser : Parser
  pub writer : Writer
  pub server_options : AssocMap Bytes
  pub channel_modes : ChannelModes
  pub channel_types : Bytes
  pub nickname_prefix_map : NicknamePrefixMap
  pub connect_beginning : Bool
  pub nickname_candidates : List Bytes
  pub current_nickname_index : ℕ
  pub nickname : Bytes
  pub channels : AssocMap Channel
  pub quit_ready : Bool
  pub clear_me : Bool
  -- what was asked of the outside: the socket, the timer, the pool, and the signals fired
  pub socket_open : Bool
  pub read_pending : Bool
  pub close_timer_pending : Bool
  pub left_pool : Bool
  pub events : List Event

abbrev pub new_client : ℕ → Client
new_client connection_id = record {
  connection_id = connection_id;
  parser = initial;
  writer = idle_writer;
  server_options = [];
  channel_modes = record { mode_a = []; mode_b = []; mode_c = []; mode_d = [] };
  channel_types = [];
  nickname_prefix_map = default_nickname_prefix_map;
  connect_beginning = false;
  nickname_candidates = [];
  current_nickname_index = 0;
  nickname = [];
  channels = [];
  quit_ready = false;
  clear_me = false;
  socket_open = false;
  read_pending = false;
  close_timer_pending = false;
  left_pool = false;
  events = [];
}

-- A handler returned, or left with an exception (of `at`, `set` or `lexical_cast`), or did what
-- the language gives no meaning to (an index out of range with `[]`).
pub data Handled : Type 0 where
  returned : Client → Handled
  raised : Client → Handled
  undefined : Handled

infixl 5 ◌>>=◌
abbrev pub ◌>>=◌ : Handled → (Client → Handled) → Handled
returned c >>= f = f c
raised c >>= f = raised c
undefined >>= f = undefined

abbrev pub fire : Event → Client → Client
fire e c = record c { events = c.events ++ e ∷ [] }
