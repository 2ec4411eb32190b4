-- ===== src/Irc/Client/Pool.antt =====
-- `IrcClientPool` (IrcClient.cpp): the table of the clients by their connection number. Each method
-- holds `clientsLock_` while it uses the table. A client that left the table lives on in its
-- handlers; those that `closeAll` closes are returned.
pub mod Signals
pub mod Table
pub mod Tests
use suda_gureum.Base.{
  ℕ, ◌+◌, Bool, true, false, List, [], ◌∷◌, ◌++◌, Option, none, some, ◌==◌, if◌then◌else◌, Bytes,
}
use suda_gureum.Irc.Client.Commands.{connect, close, has_no_nickname}
use suda_gureum.Base.Result.{Exception}
use suda_gureum.Irc.Client.State.{Client, new_client}

pub record ClientPool : Type 0 where
  pub clients : List (ℕ × Client)
  pub next_connection_id : ℕ

abbrev pub new_pool : ClientPool
new_pool = record { clients = []; next_connection_id = 1 }

pub client_of : ℕ → List (ℕ × Client) → Option Client
client_of id [] = none
client_of id ((j, c) ∷ cs) = if j == id then some c else client_of id cs

-- `clients_.emplace`: a number that is there keeps its client.
pub emplace_client : ℕ → Client → List (ℕ × Client) → List (ℕ × Client)
emplace_client id c [] = (id, c) ∷ []
emplace_client id c ((j, d) ∷ cs) = if j == id then (j, d) ∷ cs else (j, d) ∷ emplace_client id c cs

pub erase_client : ℕ → List (ℕ × Client) → List (ℕ × Client)
erase_client id [] = []
erase_client id ((j, c) ∷ cs) = if j == id then cs else (j, c) ∷ erase_client id cs

-- The callback may change the client before it connects; the number stays.
abbrev pub constructed : (Client → Client) → ℕ → List Bytes → Client
constructed construct_cb id nicknames = connect nicknames (construct_cb (new_client id))

-- `connect` where nothing throws.
unfoldable pub put_client : (Client → Client) → List Bytes → ClientPool → ClientPool
unfolding emplace_client
put_client construct_cb nicknames p = record {
  clients =
      emplace_client p.next_connection_id (constructed construct_cb p.next_connection_id nicknames)
        p.clients;
  next_connection_id = p.next_connection_id + 1;
}

-- `connect`: the exception of the resolver, if it has one, leaves it before the client is in the table,
-- with the number taken. With no nickname nothing is resolved.
unfoldable pub connect_client :
    Option Exception → (Client → Client) → List Bytes → ClientPool → Option Exception × ClientPool
connect_client none construct_cb nicknames p = (none, put_client construct_cb nicknames p)
connect_client (some e) construct_cb nicknames p =
    if has_no_nickname nicknames
    then (none, put_client construct_cb nicknames p)
    else (some e, record p { next_connection_id = p.next_connection_id + 1 })

abbrev pub close_each : List (ℕ × Client) → List Client
close_each [] = []
close_each ((j, c) ∷ cs) = close false c ∷ close_each cs

unfoldable pub close_all : ClientPool → List Client × ClientPool
close_all p = (close_each p.clients, record p { clients = [] })

pub closed : ℕ → ClientPool → ClientPool
unfolding erase_client
closed id p = record p { clients = erase_client id p.clients }
