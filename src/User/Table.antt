-- ===== src/User/Table.antt =====
-- `Users` (User.h, User.cpp): the table of the users, and the only one that `load` puts there.
use suda_gureum.Base.AssocMap.{AssocMap, find, emplace, find-emplace}
use suda_gureum.Base.Boost.{Boost}
use suda_gureum.Base.{
  arith, ap, ◌∙◌, map, ◌≡◌, refl, true, [], ◌∷◌, Option, none, some, Bytes, codes,
}
use suda_gureum.Base.Result.{Exception, Result, ok, raised, ◌>>=◌}
use suda_gureum.Irc.Client.Pool.{ClientPool, put_client, connect_client}
use suda_gureum.User.Servers.Added.{server_of, add_servers-map}
use suda_gureum.User.Servers.{
  ServerInfo, ServerSet, add_servers, on_irc_client_create, connect_to_servers,
}

pub record User : Type 0 where
  pub user_id : Bytes
  pub servers : ServerSet

abbrev pub Users : Type 0
Users = AssocMap User

abbrev pub exact : Bytes → Bytes
exact user_id = user_id

abbrev pub ozinger : ServerInfo
ozinger = record {
  name = codes "Ozinger";
  host = codes "irc.ozinger.org";
  port = 16666;
  encoding = codes "UTF-8";
  nicknames = codes "SudaGureum1" ∷ codes "SudaGureum2" ∷ [];
  ssl = true;
  channels = codes "#HNO3" ∷ [];
}

-- The user is connected whether or not the table takes it.
abbrev pub with_user : Users → ServerSet × ClientPool → Users × ClientPool
with_user users (servers, pool) = (
  emplace exact (codes "SudaGureum") (record { user_id = codes "SudaGureum"; servers = servers })
      users,
  pool,
)

-- `none` is a failed assertion; the resolver may throw.
abbrev pub with_servers :
    (ServerInfo → Option Exception)
    → Users
    → ClientPool
    → Option ServerSet
    → Result (Option (Users × ClientPool))
with_servers resolver users pool none = ok none
with_servers resolver users pool (some servers) = do
  made ← connect_to_servers resolver servers pool
  ok (some (with_user users made))

pub load :
    Boost
    → (ServerInfo → Option Exception)
    → Users
    → ClientPool
    → Result (Option (Users × ClientPool))
load boost resolver users pool =
    with_servers resolver users pool (add_servers boost (ozinger ∷ []) [])

-- `none` is `nullptr`.
pub user : Bytes → Users → Option User
user user_id users = find exact user_id users

-- No user is loaded at first.
pub user-nil : (user_id : Bytes) → user user_id [] ≡ none
unfolding user find
user-nil user_id = refl

module _ (boost : Boost) where
  abbrev pub loaded_servers : ClientPool → ServerSet
  loaded_servers pool =
      (codes "Ozinger", record { info = ozinger; irc_client = some pool.next_connection_id }) ∷ []

  load-servers :
      (resolver : ServerInfo → Option Exception) (users : Users) (pool : ClientPool)
      → load boost resolver users pool
        ≡ with_servers resolver users pool (some (map (server_of boost) (ozinger ∷ [])))
  unfolding load
  load-servers resolver users pool =
      ap (with_servers resolver users pool) (add_servers-map boost (ozinger ∷ []) (refl, (tt, tt)))

  -- The resolver throws: so does `load`.
  pub load-raised :
      (resolver : ServerInfo → Option Exception) (users : Users) (pool : ClientPool) (e : Exception)
      → resolver ozinger ≡ some e
      → load boost resolver users pool ≡ raised e
  unfolding connect_to_servers connect_client
  load-raised resolver users pool e h = load-servers resolver users pool ∙ rw h

  -- Loaded into a table where the user is not there yet: no assertion fails, and the user is found
  -- with the one server, whose client has the next number of the pool.
  pub user-load :
      (resolver : ServerInfo → Option Exception) (users : Users) (pool : ClientPool)
      → resolver ozinger ≡ none
      → user (codes "SudaGureum") users ≡ none
      → (after : Users) × (pool_after : ClientPool) × (load boost resolver users pool
          ≡ ok (some (after, pool_after)))
        × (user (codes "SudaGureum") after
            ≡ some (record { user_id = codes "SudaGureum"; servers = loaded_servers pool }))
  unfolding user connect_to_servers connect_client
  user-load resolver users pool resolved h =
      let (after, pool_after) =
        with_user users
          (loaded_servers pool, put_client on_irc_client_create ozinger.nicknames pool) in
      (
        after,
        pool_after,
        load-servers resolver users pool ∙ rw resolved,
        ground (
          arith,
          h,
          find-emplace exact (codes "SudaGureum") (codes "SudaGureum")
              (record { user_id = codes "SudaGureum"; servers = loaded_servers pool }) users,
        ),
      )
