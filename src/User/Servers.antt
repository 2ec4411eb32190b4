-- ===== src/User/Servers.antt =====
-- `User` (User.h, User.cpp): the servers of a user, their clients in the pool, and what a client sends
-- when it is connected. A client is known by its connection number; the other signals do nothing.
pub mod Connected
pub mod Added
pub mod Tests
use suda_gureum.Base.AssocMap.{AssocMap, find, emplace, erase}
use suda_gureum.Base.Boost.{Boost, fold_case}
use suda_gureum.Base.{
  ℕ, Bool, true, false, List, [], ◌∷◌, Option, none, some, ◌==◌, if◌then◌else◌, Bytes, codes,
}
use suda_gureum.Base.Result.{Exception, Result, ok, raised, endless}
use suda_gureum.Irc.Client.Commands.{own_mode, join}
use suda_gureum.Irc.Client.Pool.{ClientPool, connect_client}
use suda_gureum.Irc.Client.State.{Client}

-- `UserServerInfo`
pub record ServerInfo : Type 0 where
  pub name : Bytes
  pub host : Bytes
  pub port : ℕ
  pub encoding : Bytes
  pub nicknames : List Bytes
  pub ssl : Bool
  pub channels : List Bytes

abbrev pub no_info : ServerInfo
no_info = record {
  name = [];
  host = [];
  port = 0;
  encoding = [];
  nicknames = [];
  ssl = false;
  channels = [];
}

-- `User::Server`: the number is that of the client behind the `weak_ptr`.
pub record Server : Type 0 where
  pub info : ServerInfo
  pub irc_client : Option ℕ

abbrev pub ServerSet : Type 0
ServerSet = AssocMap Server

abbrev pub no_server : Server
no_server = record { info = no_info; irc_client = none }

module _ (boost : Boost) where
  -- `modify`: a name that another entry has makes it fail, and the assertion with it.
  abbrev pub renamed : ServerInfo → Server → ServerSet → Option ServerSet
  renamed info server others = elim (find (fold_case boost) info.name others) [
    | some other ↦ none
    | none ↦ some (emplace (fold_case boost) info.name (record server { info = info }) others)
  ]

  -- A round of the loop of the constructor: `emplace` of an entry with no name, which stays as it is
  -- if there is one, and `modify` of that entry.
  pub add_server : ServerInfo → ServerSet → Option ServerSet
  add_server info servers =
      let emplaced : ServerSet = emplace (fold_case boost) [] no_server servers in
      elim (find (fold_case boost) [] emplaced) [
        | none ↦ none
        | some server ↦ renamed info server (erase (fold_case boost) [] emplaced)
      ]

  abbrev pub then_added : (ServerSet → Option ServerSet) → Option ServerSet → Option ServerSet
  then_added rest none = none
  then_added rest (some servers) = rest servers

  -- The loop of the constructor; `none` is a failed assertion.
  pub add_servers : List ServerInfo → ServerSet → Option ServerSet
  unfolding add_server
  add_servers [] servers = some servers
  add_servers (info ∷ infos) servers = then_added (add_servers infos) (add_server info servers)

-- `onIrcClientCreate` only binds the signals.
abbrev pub on_irc_client_create : Client → Client
on_irc_client_create c = c

abbrev pub with_client : ℕ → Bytes × Server → Bytes × Server
with_client id (name, server) = (name, record server { irc_client = some id })

-- A server whose client was made, and those behind it.
abbrev pub connected :
    Option Exception
    → Bytes × Server
    → Result (ServerSet × ClientPool)
    → Result (ServerSet × ClientPool)
connected (some e) entry rest = raised e
connected none entry (raised e) = raised e
connected none entry endless = endless
connected none entry (ok (servers, pool)) = ok (entry ∷ servers, pool)

-- The resolver throws for some servers, and `connect` with it.
unfoldable pub connect_to_servers :
    (ServerInfo → Option Exception) → ServerSet → ClientPool → Result (ServerSet × ClientPool)
connect_to_servers resolver [] pool = ok ([], pool)
connect_to_servers resolver ((name, server) ∷ servers) pool =
    let made : Option Exception × ClientPool =
      connect_client (resolver server.info) on_irc_client_create server.info.nicknames pool in
    connected made.0 (with_client pool.next_connection_id (name, server))
      (connect_to_servers resolver servers made.1)

abbrev pub is_client : ℕ → Option ℕ → Bool
is_client id none = false
is_client id (some n) = n == id

pub server_info : ServerSet → ℕ → Option Server
server_info [] id = none
server_info ((name, server) ∷ servers) id =
    if is_client id server.irc_client then some server else server_info servers id

abbrev pub join_each : List Bytes → Client → Client
join_each [] c = c
join_each (channel ∷ channels) c = join_each channels (join channel c)

abbrev pub joined : Option Server → Client → Client
joined none c = c
joined (some server) c = join_each server.info.channels c

pub on_irc_client_connect : ServerSet → Client → Client
unfolding server_info
on_irc_client_connect servers c =
    joined (server_info servers c.connection_id) (own_mode (codes "+x") c)
