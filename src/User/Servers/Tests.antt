-- ===== src/User/Servers/Tests.antt =====
-- The servers of a user at concrete input.
use suda_gureum.Base.Boost.{ascii_boost}
use suda_gureum.Base.{◌≡◌, refl, true, [], ◌∷◌, ◌++◌, map, Option, none, some, Bytes, codes, arith}
use suda_gureum.Irc.Client.Pool.{ClientPool, new_pool, put_client, connect_client}
use suda_gureum.Base.Result.{Exception, ok}
use suda_gureum.Irc.Client.State.{Client, new_client}
use suda_gureum.Irc.Client.Writer.Order.{queued}
use suda_gureum.User.Servers.Added.{server_of, add_servers-map}
use suda_gureum.User.Servers.Connected.{mode_text, join_text, on_irc_client_connect-connected}
use suda_gureum.User.Servers.{
  ServerInfo, ServerSet, on_irc_client_create, add_servers, connect_to_servers, server_info,
  on_irc_client_connect,
}

abbrev info_named : Bytes → ServerInfo
info_named name = record {
  name = name;
  host = codes "irc.example.org";
  port = 6697;
  encoding = codes "UTF-8";
  nicknames = codes "me" ∷ codes "me2" ∷ [];
  ssl = true;
  channels = codes "#a" ∷ codes "#b" ∷ [];
}

add_servers-map_example :
    add_servers ascii_boost (info_named (codes "One") ∷ info_named (codes "two") ∷ []) []
    ≡ some (map (server_of ascii_boost) (info_named (codes "One") ∷ info_named (codes "two") ∷ []))
add_servers-map_example =
    add_servers-map ascii_boost (info_named (codes "One") ∷ info_named (codes "two") ∷ [])
      (refl, ((refl, tt), (refl, (tt, tt))))

-- The client of the second server.
abbrev second : Client
second = record (new_client 2) { nickname = codes "me" }

-- All hosts are found.
abbrev resolves : ServerInfo → Option Exception
resolves info = none

abbrev two_servers : ServerSet
two_servers =
    server_of ascii_boost (info_named (codes "One"))
    ∷ server_of ascii_boost (info_named (codes "two"))
    ∷ []

abbrev two_connected : ServerSet
two_connected =
    (codes "One", record { info = info_named (codes "One"); irc_client = some 1 })
    ∷ (codes "two", record { info = info_named (codes "two"); irc_client = some 2 })
    ∷ []

abbrev two_clients : ClientPool
two_clients =
    put_client on_irc_client_create (codes "me" ∷ codes "me2" ∷ [])
      (put_client on_irc_client_create (codes "me" ∷ codes "me2" ∷ []) new_pool)

connects_two : connect_to_servers resolves two_servers new_pool ≡ ok (two_connected, two_clients)
unfolding connect_to_servers connect_client put_client
connects_two = refl

on_irc_client_connect-connected_example :
    (server_info two_connected 2
      ≡ some (record { info = info_named (codes "two"); irc_client = some 2 }))
    × (queued (on_irc_client_connect two_connected second).writer
        ≡ queued second.writer
          ++ (mode_text (codes "me") ∷ map join_text (codes "#a" ∷ codes "#b" ∷ [])))
on_irc_client_connect-connected_example =
    on_irc_client_connect-connected resolves (server_of ascii_boost (info_named (codes "One")) ∷ [])
      [] two_connected (codes "two") (record { info = info_named (codes "two"); irc_client = none })
      new_pool two_clients second connects_two (omega arith) tt
