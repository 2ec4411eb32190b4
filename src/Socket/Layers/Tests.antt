-- ===== src/Socket/Layers/Tests.antt =====
-- A socket with SSL that connects: the handler waits for the handshake.
use suda_gureum.Base.{ℕ, ◌≡◌, refl, true, [], ◌∷◌, none, All}
use suda_gureum.Socket.Layers.Once.{Reach, here, next, connects, completes, System, fresh, IsOnce}
use suda_gureum.Socket.Layers.Secured.{IsSecured, Reach-IsOnce}
use suda_gureum.Socket.Layers.{connect_ssl, handshake_as_client, new_stream, complete}
use suda_gureum.Socket.{initial}

abbrev shaking : System
shaking = record {
  socket = (record new_stream { pending = handshake_as_client 7 ∷ [] }, initial);
  given = 7 ∷ [];
}

Reach-shaking : Reach true (fresh initial) shaking
unfolding complete
Reach-shaking = next (next here (connects 7)) (completes [] (connect_ssl 7) [] none refl)

Reach-IsOnce_example :
    ((n : ℕ) → IsOnce shaking n) × (true ≡ true → All IsSecured shaking.socket.0.called)
Reach-IsOnce_example = Reach-IsOnce true initial shaking Reach-shaking
