-- ===== src/Irc/Client/Pool/Tests.antt =====
-- The pool at concrete input.
use suda_gureum.Base.{[], ◌∷◌, none, codes}
use suda_gureum.Irc.Client.Pool.Table.{Operation, connects, operate}
use suda_gureum.Irc.Client.Pool.{ClientPool, new_pool}

abbrev connects_me : Operation
connects_me = connects none (λ c. c) (codes "me" ∷ [])

abbrev two_clients : ClientPool
two_clients = operate connects_me (operate connects_me new_pool)
