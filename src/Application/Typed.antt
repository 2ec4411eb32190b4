-- ===== src/Application/Typed.antt =====
-- A start that succeeds: the one user is connected, and what is typed is sent.
use suda_gureum.Application.{World, Session}
use suda_gureum.Base.Result.{ok}
use suda_gureum.Base.{◌≡◌, List, [], ◌∷◌, map, Option, some, if◌then◌else◌, is_empty, Bytes, codes}
use suda_gureum.Http.Server.Setup.{Built}
use suda_gureum.Irc.Client.Commands.{privmsg}
use suda_gureum.Irc.Client.Pool.{ClientPool, new_pool}
use suda_gureum.Irc.Client.Commands.{close}
use suda_gureum.Http.Server.{Server}
use suda_gureum.Base.{ℕ, false}
use suda_gureum.Irc.Client.State.{Client}
use suda_gureum.User.Table.{Users, User, user, load, loaded_servers}

-- Lines typed while the client is there.
abbrev pub present : Bytes × Client → Bytes × Option Client
present (line, c) = (line, some c)

module _ (w : World) (convert : Bytes → Bytes) where
  -- The lines before the first blank one.
  abbrev pub until_blank : List (Bytes × Client) → List (Bytes × Client)
  until_blank [] = []
  until_blank ((line, c) ∷ lines) =
      let rest : List (Bytes × Client) = until_blank lines in
      if is_empty (w.boost.trim line) then [] else (line, c) ∷ rest

  -- The client after the line was sent, trimmed and in UTF-8, to the channel.
  abbrev pub after_line : Bytes × Client → Client
  after_line (line, c) = privmsg (codes "#HNO3") (convert (w.boost.trim line)) c

  -- The one user, with the one client of the pool.
  abbrev pub one_user : User
  one_user = record { user_id = codes "SudaGureum"; servers = loaded_servers w.boost new_pool }

  abbrev pub closed_client : ℕ × Client → Client
  closed_client (id, c) = close false c

  -- What a run leaves.
  pub record Ran (built : Built w.asio w.ssl) (lines : List (Bytes × Client))
      (s : Session w.asio w.ssl) : Type 0 where
    pub was_built : s.built ≡ built
    pub users : user (codes "SudaGureum") s.users ≡ some one_user
    pub sent : s.sent ≡ map after_line (until_blank lines)
    pub pool_threads : s.pool.running ≡ 4
    pub server_threads : s.server.running ≡ 4
    pub serves : s.server.state ≡ built.server
    pub stopped : s.server.stopped ≡ w.signalled
    pub cleared : s.pool.state.clients ≡ []
    pub loaded : Users
    pub pool : ClientPool
    pub loads : load w.boost w.resolver [] new_pool ≡ ok (some (loaded, pool))
    pub closed : s.closed ≡ map closed_client (w.at_end pool).clients
