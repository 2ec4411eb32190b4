-- ===== src/Http/Server/Setup.antt =====
-- The constructor of `HttpServer` (HttpServer.cpp): the acceptor, and the certificate and the key for SSL.
-- The acceptor and the SSL context are asio's, and parameters with their documented behaviour.
pub mod Conditions
pub mod Returns
pub mod Tests
use suda_gureum.Base.{
  ℕ, ◌+◌, ◌<◌, ◌≡◌, Bool, true, false, List, [], ◌∷◌, ◌++◌, length, Option, none, some, ◌==◌,
  is_empty, if◌then◌else◌, Bytes, codes,
}
use suda_gureum.Configure.{ConfigureMap, get, get_as}
use suda_gureum.Http.Server.{Server, listening}
use suda_gureum.Utility.Files.{read_file}
use suda_gureum.Base.Result.{
  Result, ok, raised, endless, ◌>>=◌, system_error, runtime_error, std_exception,
}

pub data Family : Type 0 where
  v4 v6 : Family

-- An operation on the acceptor leaves it changed, with an error code or none.
pub record Asio : Type 1 where
  pub Acceptor : Type 0
  pub closed : Acceptor
  pub open_acceptor : Family → Acceptor → Acceptor × Option ℕ
  pub set_reuse_address : Acceptor → Acceptor × Option ℕ
  pub bind : Family → ℕ → Acceptor → Acceptor × Option ℕ
  pub listen : Acceptor → Acceptor × Option ℕ
  pub what : ℕ → Bytes
  pub address_family_not_supported : ℕ
  pub already_open : ℕ
  -- Opening an open acceptor fails, and nothing but `close` makes it closed again.
  pub is_open : Acceptor → Bool
  pub open_lem : (f : Family) (a b : Acceptor) → open_acceptor f a ≡ (b, none) → is_open b ≡ true
  pub open_again_lem :
      (f : Family) (a : Acceptor) → is_open a ≡ true → open_acceptor f a ≡ (a, some already_open)
  pub set_reuse_address_lem :
      (a b : Acceptor) (e : Option ℕ) → set_reuse_address a ≡ (b, e) → is_open b ≡ is_open a
  pub bind_lem :
      (f : Family) (port : ℕ) (a b : Acceptor) (e : Option ℕ)
      → bind f port a ≡ (b, e)
      → is_open b ≡ is_open a
  -- An acceptor listens once `listen` has succeeded on it.
  pub is_listening : Acceptor → Bool
  pub closed_lem : is_listening closed ≡ false
  pub listening_lem : (a b : Acceptor) → listen a ≡ (b, none) → is_listening b ≡ true
  pub listen_lem : (a b : Acceptor) (e : Option ℕ) → listen a ≡ (b, e) → is_open b ≡ is_open a

-- The SSL context; the password is what its callback gives.
pub record Ssl : Type 1 where
  pub Context : Type 0
  pub new_context : Bytes → Context
  pub use_certificate_chain : Bytes → Context → Result Context
  pub use_certificate : Bytes → Context → Result Context
  pub use_private_key : Bytes → Context → Result Context

-- What the constructor takes besides: the bytes of the file that a path in UTF-8 opens, the size of a
-- chunk, and the cast of the count.
pub record Environment : Type 0 where
  pub files : Bytes → Option Bytes
  pub buf_size : ℕ
  pub buf_size_lem : 0 < buf_size
  pub lexical_cast : Bytes → Option ℕ

abbrev read_through : Option Bytes → Result Bytes
read_through none = endless
read_through (some bytes) = ok bytes

abbrev read_opened : ℕ → Option Bytes → Result Bytes
read_opened buf_size none = raised (runtime_error (codes "cannot open the file"))
read_opened buf_size (some bytes) = read_through (read_file (length bytes + 2) buf_size bytes)

pub read_file_into_vector : Environment → Bytes → Result Bytes
read_file_into_vector env path = read_opened env.buf_size (env.files path)

abbrev value_or_empty : Option Bytes → Bytes
value_or_empty none = []
value_or_empty (some value) = value

pub handle_get_password : ConfigureMap → Bytes
handle_get_password conf = value_or_empty (get (codes "ssl_certificate_password") conf)

module _ (asio : Asio) where
  -- The next operation, unless the last one failed.
  abbrev pub then_on :
      asio.Acceptor × Option ℕ
      → (asio.Acceptor → asio.Acceptor × Option ℕ)
      → asio.Acceptor × Option ℕ
  then_on (a, none) f = f a
  then_on (a, some code) f = (a, some code)

  pub listen_on : Family → ℕ → asio.Acceptor → asio.Acceptor × Option ℕ
  listen_on family port a =
      then_on (asio.open_acceptor family a)
        λ b. then_on (asio.set_reuse_address b) λ c. then_on (asio.bind family port c) asio.listen

  abbrev pub accepting : asio.Acceptor × Option ℕ → Result asio.Acceptor
  accepting (a, none) = ok a
  accepting (a, some code) = raised (system_error (asio.what code))

  abbrev pub fall_back : ℕ → asio.Acceptor × Option ℕ → Result asio.Acceptor
  fall_back port (a, none) = ok a
  fall_back port (a, some code) =
      if code == asio.address_family_not_supported
      then accepting (listen_on v4 port a)
      else raised (system_error (asio.what code))

  pub open_port : ℕ → Result asio.Acceptor
  unfolding listen_on
  open_port port = fall_back port (listen_on v6 port asio.closed)

abbrev pub chain_file : Bytes
chain_file = codes "ssl_certificate_chain_file"

abbrev pub certificate_file : Bytes
certificate_file = codes "ssl_certificate_file"

abbrev pub private_key_file : Bytes
private_key_file = codes "ssl_private_key_file"

module _ (ssl : Ssl) (env : Environment) (conf : ConfigureMap) where
  abbrev pub used :
      Bytes → (Bytes → ssl.Context → Result ssl.Context) → Bytes → ssl.Context → Result ssl.Context
  used name use_file text ctx =
      if is_empty text
      then raised (runtime_error (codes "invalid " ++ (name ++ codes " configure")))
      else use_file text ctx

  -- A file that the configuration names.
  pub use_configured :
      Bytes → (Bytes → ssl.Context → Result ssl.Context) → Bytes → ssl.Context → Result ssl.Context
  use_configured name use_file path ctx = do
    text ← read_file_into_vector env path
    used name use_file text ctx

  abbrev pub on_certificate_file : Option Bytes → ssl.Context → Result ssl.Context
  on_certificate_file none ctx =
      raised
        (runtime_error (codes "neither ssl_certificate_chain_file nor ssl_certificate_file is set"))
  on_certificate_file (some path) ctx = use_configured certificate_file ssl.use_certificate path ctx

  abbrev pub on_chain_file : Option Bytes → ssl.Context → Result ssl.Context
  on_chain_file none ctx = on_certificate_file (get certificate_file conf) ctx
  on_chain_file (some path) ctx = use_configured chain_file ssl.use_certificate_chain path ctx

  abbrev pub on_private_key_file : Option Bytes → ssl.Context → Result ssl.Context
  on_private_key_file none ctx = raised (runtime_error (codes "ssl_private_key_file is not set"))
  on_private_key_file (some path) ctx = use_configured private_key_file ssl.use_private_key path ctx

  pub set_up_ssl : Result ssl.Context
  unfolding use_configured handle_get_password
  set_up_ssl = do
    ctx ← on_chain_file (get chain_file conf) (ssl.new_context (handle_get_password conf))
    on_private_key_file (get private_key_file conf) ctx

-- A server, its acceptor, and its SSL context if it has one.
pub record Built (asio : Asio) (ssl : Ssl) : Type 0 where
  pub server : Server
  pub acceptor : asio.Acceptor
  pub ctx : Option ssl.Context

abbrev pub max_count_of : Option ℕ → Result ℕ
max_count_of none = raised (std_exception (codes "bad lexical cast"))
max_count_of (some count) = ok count

-- `http_server_keep_alive_max_count`, which the constructor of every connection reads.
pub keep_alive_max_count : Environment → ConfigureMap → Result ℕ
keep_alive_max_count env conf =
    max_count_of (get_as env.lexical_cast (codes "http_server_keep_alive_max_count") 20 conf)

module _ (asio : Asio) (ssl : Ssl) (env : Environment) (conf : ConfigureMap) where
  pub context_for : Bool → Result (Option ssl.Context)
  unfolding set_up_ssl
  context_for false = ok none
  context_for true = do ctx ← set_up_ssl ssl env conf; ok (some ctx)

  pub construct : ℕ → Bool → Result (Built asio ssl)
  unfolding open_port context_for keep_alive_max_count
  construct port is_ssl = do
    acceptor ← open_port asio port
    ctx ← context_for is_ssl
    max ← keep_alive_max_count env conf
    ok (record { server = listening is_ssl max; acceptor = acceptor; ctx = ctx })
