-- ===== src/Http/Server/Setup/Tests.antt =====
-- The constructor at concrete input: a host with no IPv6, and a certificate with its key.
use suda_gureum.Base.AssocMap.{find}
use suda_gureum.Base.{
  ℕ, ◌≡◌, refl, ap, sym, Bool, true, false, [], ◌∷◌, ◌++◌, Option, none, some, if◌then◌else◌,
  bytes_eq, Bytes, codes, arith,
}
use suda_gureum.Configure.{ConfigureMap, get, get_as}
use suda_gureum.Base.Result.{ok}
use suda_gureum.Http.Server.Setup.{
  Family, v4, v6, Asio, Ssl, Environment, Built, construct, listen_on, use_configured, set_up_ssl,
  read_file_into_vector, keep_alive_max_count,
}
use suda_gureum.Http.Server.{listening}
use suda_gureum.Utility.Files.{read_file}

-- An acceptor is open or not.
abbrev pub opened : Family → Bool → Bool × Option ℕ
opened f true = (true, some 2)
opened v6 false = (false, some 1)
opened v4 false = (true, none)

pub opened_lem : (f : Family) (a b : Bool) → opened f a ≡ (b, none) → b ≡ true
opened_lem v4 true b h = ground (arith, h)
opened_lem v6 true b h = ground (arith, h)
opened_lem v4 false b h = ground (arith, h)
opened_lem v6 false b h = ground (arith, h)

pub opened_again : (f : Family) (a : Bool) → a ≡ true → opened f a ≡ (a, some 2)
opened_again v4 true h = refl
opened_again v6 true h = refl
opened_again v4 false h = ground (arith, h)
opened_again v6 false h = ground (arith, h)

abbrev pub no_v6 : Asio
no_v6 = record {
  Acceptor = Bool × Bool;
  closed = (false, false);
  open_acceptor = λ f a. let (b, e) = opened f a.0 in ((b, a.1), e);
  set_reuse_address = λ a. (a, none);
  bind = λ f port a. (a, none);
  listen = λ a. ((a.0, true), none);
  what = λ code. [];
  address_family_not_supported = 1;
  already_open = 2;
  is_open = λ a. a.0;
  is_listening = λ a. a.1;
  closed_lem = refl;
  listening_lem = λ a b h. ap (λ r. r.0.1) (sym h);
  open_lem = λ f a b h. opened_lem f a.0 b.0 (ap (λ r. (r.0.0, r.1)) h);
  open_again_lem = λ f a h. ap (λ r. ((r.0, a.1), r.1)) (opened_again f a.0 h);
  set_reuse_address_lem = λ a b e h. ap (λ r. r.0.0) (sym h);
  bind_lem = λ f port a b e h. ap (λ r. r.0.0) (sym h);
  listen_lem = λ a b e h. ap (λ r. r.0.0) (sym h);
}

abbrev pub plain_ssl : Ssl
plain_ssl = record {
  Context = Bytes;
  new_context = λ password. password;
  use_certificate_chain = λ text ctx. ok (ctx ++ text);
  use_certificate = λ text ctx. ok (ctx ++ text);
  use_private_key = λ text ctx. ok (ctx ++ text);
}

abbrev pub two_files : Environment
two_files = record {
  files = λ path. if bytes_eq path (codes "c") then some (codes "CERT") else some (codes "KEY");
  buf_size = 3;
  buf_size_lem = omega arith;
  lexical_cast = λ s. none;
}

abbrev pub conf : ConfigureMap
conf =
    (codes "ssl_certificate_file", codes "c")
    ∷ (codes "ssl_private_key_file", codes "k")
    ∷ (codes "ssl_certificate_password", codes "pw")
    ∷ []

abbrev pub built : Built no_v6 plain_ssl
built = record {
  server = listening true 20;
  acceptor = (true, true);
  ctx = some (codes "pwCERTKEY");
}

pub construct_example : construct no_v6 plain_ssl two_files conf 44444 true ≡ ok built
unfolding construct listen_on use_configured set_up_ssl read_file_into_vector read_file
    keep_alive_max_count get_as get find
construct_example = refl
