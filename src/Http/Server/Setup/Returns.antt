-- ===== src/Http/Server/Setup/Returns.antt =====
-- The constructor of the server returns exactly under its conditions.
use suda_gureum.Base.{ℕ, ◌≡◌, [], Bool, true, false, Option, none, some, if◌then◌else◌, codes}
use suda_gureum.Configure.{ConfigureMap, get_as}
use suda_gureum.Http.Server.Setup.{Asio, Ssl, Environment, Built, keep_alive_max_count}
use suda_gureum.Http.Server.{made}
use suda_gureum.Http.Server.Setup.Conditions.{Listens, HasCertificate}

-- What the constructor needs, and what it leaves.
pub record Starts (asio : Asio) (ssl : Ssl) (env : Environment) (conf : ConfigureMap) (port : ℕ)
    (is_ssl : Bool) (s : Built asio ssl) : Type 0 where
  pub listens : Listens asio port s.acceptor
  pub is_listening : asio.is_listening s.acceptor ≡ true
  pub secured :
      if is_ssl
      then ((ctx : ssl.Context) × (s.ctx ≡ some ctx) × HasCertificate ssl env conf ctx)
      else (s.ctx ≡ none)
  pub max : ℕ
  pub counts : get_as env.lexical_cast (codes "http_server_keep_alive_max_count") 20 conf ≡ some max
  pub server : s.server ≡ record {
    ssl = is_ssl;
    keep_alive_max_count = max;
    next_conn = some (made is_ssl max);
    accept_pending = true;
    accepted = [];
    web_sockets = [];
    crashed = false;
  }

module _ (asio : Asio) (ssl : Ssl) (env : Environment) (conf : ConfigureMap) where
  Secured : Bool → Option ssl.Context → Type 0
  Secured is_ssl c =
      if is_ssl
      then ((ctx : ssl.Context) × (c ≡ some ctx) × HasCertificate ssl env conf ctx)
      else (c ≡ none)
