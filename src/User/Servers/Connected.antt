-- ===== src/User/Servers/Connected.antt =====
-- A client that is connected joins the channels of its own server.
use suda_gureum.Base.{
  ◌+◌, ◌≡◌, refl, sym, ap, ◌∙◌, List, [], ◌∷◌, ◌++◌, map, append_assoc, append-nil, some, length,
  Bytes, codes, arith,
}
use suda_gureum.Irc.Client.Commands.{own_mode, join, send_message}
use suda_gureum.Irc.Client.Pool.{ClientPool, put_client, connect_client}
use suda_gureum.Irc.Client.Pool.Table.{connect_client-unnamed, connect_client-thrown}
use suda_gureum.Base.Result.{Exception, Result, ok, raised, endless, value_or, raised-ne-ok}
use suda_gureum.Irc.Client.Commands.{has_no_nickname}
use suda_gureum.Base.{Option, none, Bool-cases, inl, inr}
use suda_gureum.Irc.Client.State.{Client}
use suda_gureum.Irc.Client.Writer.Order.{queued, Filled, write-push}
use mathlib.Core.Path.{subst}
use suda_gureum.Irc.Message.{command_message, wire}
use suda_gureum.User.Servers.{
  ServerInfo, with_client, connected, Server, ServerSet, on_irc_client_create, connect_to_servers,
  server_info, join_each, joined, on_irc_client_connect,
}

abbrev pub join_text : Bytes → Bytes
join_text channel = wire (command_message (codes "JOIN") (channel ∷ []))

join_each-queued :
    (channels : List Bytes) (c : Client)
    → Filled c.writer
    → queued (join_each channels c).writer ≡ queued c.writer ++ map join_text channels
unfolding join send_message
join_each-queued [] c h = sym (append-nil _)
join_each-queued (channel ∷ channels) c h =
    let (one, filled) = write-push (command_message (codes "JOIN") (channel ∷ [])) c.writer h in
    join_each-queued channels (join channel c) filled
    ∙ ap (λ xs. xs ++ map join_text channels) one
    ∙ append_assoc (queued c.writer) (join_text channel ∷ []) (map join_text channels)

-- The servers and the pool where no call throws.
abbrev all_connected : ServerSet → ClientPool → ServerSet × ClientPool
all_connected [] pool = ([], pool)
all_connected ((name, server) ∷ servers) pool =
    let rest : ServerSet × ClientPool =
      all_connected servers (put_client on_irc_client_create server.info.nicknames pool) in
    (with_client pool.next_connection_id (name, server) ∷ rest.0, rest.1)

put_client-next :
    (nicknames : List Bytes) (pool : ClientPool)
    → (put_client on_irc_client_create nicknames pool).next_connection_id
      ≡ pool.next_connection_id + 1
unfolding put_client
put_client-next nicknames pool = refl

-- A call of `connect` that returns has put the client in the table.
connect_client-returned :
    (resolver : Option Exception) (nicknames : List Bytes) (pool : ClientPool)
    → (connect_client resolver on_irc_client_create nicknames pool).0 ≡ none
    → connect_client resolver on_irc_client_create nicknames pool
      ≡ (none, put_client on_irc_client_create nicknames pool)
connect_client-returned none nicknames pool h = unfold connect_client in refl
connect_client-returned (some e) nicknames pool h = elim (Bool-cases (has_no_nickname nicknames)) [
  | inl unnamed ↦ connect_client-unnamed e on_irc_client_create nicknames pool unnamed
  | inr named ↦ absurd (
      ground (
        arith,
        sym h ∙ ap (λ r. r.0) (connect_client-thrown e on_irc_client_create nicknames pool named),
      ))
]

-- What the loop leaves if it returns.
record Splits (made : Option Exception) (entry : Bytes × Server)
    (rest : Result (ServerSet × ClientPool)) (servers : ServerSet) (pool : ClientPool)
    : Type 0 where
  returned : made ≡ none
  others : ServerSet
  rests : rest ≡ ok (others, pool)
  both : servers ≡ entry ∷ others

same_fst :
    {s t : ServerSet} {p q : ClientPool}
    → ◌≡◌ {A = Result (ServerSet × ClientPool)} (ok (s, p)) (ok (t, q))
    → (s ≡ t) × (p ≡ q)
same_fst {s} {t} {p} {q} h = (
  ap (λ r. (value_or {A = ServerSet × ClientPool} (s, p) r).0) h,
  ap (λ r. (value_or {A = ServerSet × ClientPool} (s, p) r).1) h,
)

connected-Splits :
    (made : Option Exception) (entry : Bytes × Server) (rest : Result (ServerSet × ClientPool))
    (servers : ServerSet) (pool : ClientPool)
    → connected made entry rest ≡ ok (servers, pool)
    → Splits made entry rest servers pool
connected-Splits (some e) entry rest servers pool h = absurd (raised-ne-ok e (servers, pool) h)
connected-Splits none entry (raised e) servers pool h = absurd (raised-ne-ok e (servers, pool) h)
connected-Splits none entry endless servers pool h = absurd (ground (arith, h))
connected-Splits none entry (ok (others, q)) servers pool h = record {
  returned = refl;
  others = others;
  rests = ap (λ p. ok (others, p)) (same_fst h).1;
  both = sym (same_fst h).0;
}

connect_to_servers-all_connected :
    (resolver : ServerInfo → Option Exception) (servers made : ServerSet) (pool after : ClientPool)
    → connect_to_servers resolver servers pool ≡ ok (made, after)
    → made ≡ (all_connected servers pool).0
unfolding connect_to_servers
connect_to_servers-all_connected resolver [] made pool after h = sym (same_fst h).0
connect_to_servers-all_connected resolver ((name, server) ∷ servers) made pool after h =
    let call =
      connect_client (resolver server.info) on_irc_client_create server.info.nicknames pool in
    let v =
      connected-Splits call.0 (with_client pool.next_connection_id (name, server))
        (connect_to_servers resolver servers call.1) made after h in
    v.both
    ∙ ap (λ rest. with_client pool.next_connection_id (name, server) ∷ rest)
        (connect_to_servers-all_connected resolver servers v.others call.1 after v.rests
          ∙ ap (λ r. (all_connected servers r.1).0)
              (connect_client-returned (resolver server.info) server.info.nicknames pool
                v.returned))

-- The servers behind one another get the numbers from the next one of the pool on.
server_info-connected :
    (before after : ServerSet) (name : Bytes) (server : Server) (pool : ClientPool)
    → server_info
        (all_connected (before ++ (name, server) ∷ after) pool).0
        (pool.next_connection_id + length before)
      ≡ some (record server { irc_client = some (pool.next_connection_id + length before) })
unfolding server_info
server_info-connected [] after name server pool = ground arith
server_info-connected ((n, s) ∷ before) after name server pool = ground (
  arith,
  server_info-connected before after name server
      (put_client on_irc_client_create s.info.nicknames pool),
  put_client-next s.info.nicknames pool,
)

abbrev pub mode_text : Bytes → Bytes
mode_text nickname = wire (command_message (codes "MODE") (nickname ∷ codes "+x" ∷ []))

connected-queued :
    (server : Server) (c : Client)
    → Filled c.writer
    → queued (joined (some server) (own_mode (codes "+x") c)).writer
      ≡ queued c.writer ++ (mode_text c.nickname ∷ map join_text server.info.channels)
unfolding own_mode send_message
connected-queued server c h =
    let (one, filled) =
      write-push (command_message (codes "MODE") (c.nickname ∷ codes "+x" ∷ [])) c.writer h in
    join_each-queued server.info.channels (own_mode (codes "+x") c) filled
    ∙ ap (λ xs. xs ++ map join_text server.info.channels) one
    ∙ append_assoc (queued c.writer) (mode_text c.nickname ∷ [])
        (map join_text server.info.channels)

-- The servers of a user, connected through the pool by calls that all return, and the client of any
-- of them: the pool gives its number to that server alone, and when it is connected, with a buffer
-- of non-empty strings, it sends MODE with its nickname and then a JOIN for each channel of its own
-- server, in order and behind everything sent before.
pub on_irc_client_connect-connected :
    (resolver : ServerInfo → Option Exception) (before after made : ServerSet) (name : Bytes)
    (server : Server) (pool pool_after : ClientPool) (c : Client)
    → connect_to_servers resolver (before ++ (name, server) ∷ after) pool ≡ ok (made, pool_after)
    → c.connection_id ≡ pool.next_connection_id + length before
    → Filled c.writer
    → (server_info made c.connection_id
        ≡ some (record server { irc_client = some c.connection_id }))
      × (queued (on_irc_client_connect made c).writer
          ≡ queued c.writer ++ (mode_text c.nickname ∷ map join_text server.info.channels))
unfolding on_irc_client_connect
on_irc_client_connect-connected resolver before after made name server pool pool_after c returned e
      h =
    let found : server_info made c.connection_id
        ≡ some (record server { irc_client = some c.connection_id }) =
      ap (λ s. server_info s c.connection_id)
        (connect_to_servers-all_connected resolver (before ++ (name, server) ∷ after) made pool
          pool_after returned)
      ∙ subst
          (λ id.
            server_info (all_connected (before ++ (name, server) ∷ after) pool).0 id
            ≡ some (record server { irc_client = some id }))
          (sym e) (server_info-connected before after name server pool) in
    (
      found,
      ap (λ s. queued (joined s (own_mode (codes "+x") c)).writer) found
          ∙ connected-queued (record server { irc_client = some c.connection_id }) c h,
    )
