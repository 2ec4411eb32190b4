-- ===== src/Http/Server/Setup/Conditions.antt =====
-- When the constructor of the server returns, and with what.
use suda_gureum.Base.{
  ℕ, ◌+◌, ◌≡◌, refl, sym, ap, ◌∙◌, ◌⊎◌, inl, inr, Bool-cases, true, false, length, Option, none,
  some, ◌==◌, ==_iff, is_empty, Bytes, arith,
}
use suda_gureum.Configure.{ConfigureMap, get}
use suda_gureum.Base.Result.{Result, ok, >>=-eq-ok, bind-ok, raised-ne-ok, system_error}
use suda_gureum.Http.Server.Setup.{
  Family, v4, v6, Asio, Ssl, Environment, read_file_into_vector, read_opened, read_through,
  handle_get_password, then_on, listen_on, accepting, fall_back, open_port, used, use_configured,
  chain_file, certificate_file, private_key_file, on_chain_file,
}
use suda_gureum.Utility.Files.{read_file-some}

same_text : {s t : Bytes} → ok s ≡ ok t → some s ≡ some t
same_text h = ground (arith, h)

-- The port is open: by IPv6, or by IPv4 if already the opening fails for want of IPv6.
pub data Listens (asio : Asio) (port : ℕ) (a : asio.Acceptor) : Type 0 where
  by_v6 : listen_on asio v6 port asio.closed ≡ (a, none) → Listens asio port a
  by_v4 :
      (b : asio.Acceptor)
      → asio.open_acceptor v6 asio.closed ≡ (b, some asio.address_family_not_supported)
      → listen_on asio v4 port b ≡ (a, none)
      → Listens asio port a

-- A path that the configuration has under the name, to a file that can be opened and is not empty, and
-- which the library takes.
pub record Uses (ssl : Ssl) (env : Environment) (conf : ConfigureMap) (name : Bytes)
    (use_file : Bytes → ssl.Context → Result ssl.Context) (before after : ssl.Context)
    : Type 0 where
  pub path : Bytes
  pub text : Bytes
  pub named : get name conf ≡ some path
  pub readable : env.files path ≡ some text
  pub filled : is_empty text ≡ false
  pub taken : use_file text before ≡ ok after

-- The chain of certificates if one is named, a certificate otherwise, and then the key.
pub record HasCertificate (ssl : Ssl) (env : Environment) (conf : ConfigureMap) (ctx : ssl.Context)
    : Type 0 where
  pub certified : ssl.Context
  pub certificate :
      Uses ssl env conf chain_file ssl.use_certificate_chain
        (ssl.new_context (handle_get_password conf))
        certified
      ⊎ ((get chain_file conf ≡ none)
          × Uses ssl env conf certificate_file ssl.use_certificate
              (ssl.new_context (handle_get_password conf))
              certified)
  pub key : Uses ssl env conf private_key_file ssl.use_private_key certified ctx

module _ (asio : Asio) where
  then_on-none :
      (x : asio.Acceptor × Option ℕ) (f : asio.Acceptor → asio.Acceptor × Option ℕ)
      (a : asio.Acceptor)
      → then_on asio x f ≡ (a, none)
      → (b : asio.Acceptor) × (f b ≡ (a, none))
  then_on-none (b, none) f a h = (b, h)
  then_on-none (b, some code) f a h = absurd (ground (arith, ap (λ r. r.1) h))

  listen_on-is_listening :
      (family : Family) (port : ℕ) (b a : asio.Acceptor)
      → listen_on asio family port b ≡ (a, none)
      → asio.is_listening a ≡ true
  unfolding listen_on
  listen_on-is_listening family port b a h =
      let (c, h1) = then_on-none (asio.open_acceptor family b) _ a h in
      let (d, h2) = then_on-none (asio.set_reuse_address c) _ a h1 in
      let (e, h3) = then_on-none (asio.bind family port d) _ a h2 in asio.listening_lem e a h3

  pub Listens-is_listening :
      (port : ℕ) (a : asio.Acceptor) → Listens asio port a → asio.is_listening a ≡ true
  Listens-is_listening port a (by_v6 h) = listen_on-is_listening v6 port asio.closed a h
  Listens-is_listening port a (by_v4 b refused h) = listen_on-is_listening v4 port b a h

  then_on-open :
      (x : asio.Acceptor × Option ℕ) (f : asio.Acceptor → asio.Acceptor × Option ℕ)
      (c : asio.Acceptor) (e : Option ℕ)
      → asio.is_open x.0 ≡ true
      → ((b d : asio.Acceptor) (e : Option ℕ)
          → asio.is_open b ≡ true
          → f b ≡ (d, e)
          → asio.is_open d ≡ true)
      → then_on asio x f ≡ (c, e)
      → asio.is_open c ≡ true
  then_on-open (a, none) f c e opened keeps h = keeps a c e opened h
  then_on-open (a, some code) f c e opened keeps h = sym (ap (λ x. asio.is_open x.0) h) ∙ opened

  -- Everything behind the opening leaves an open acceptor open.
  listen_on-open :
      (f : Family) (port : ℕ) (a b c : asio.Acceptor) (e : Option ℕ)
      → asio.open_acceptor f a ≡ (b, none)
      → listen_on asio f port a ≡ (c, e)
      → asio.is_open c ≡ true
  unfolding listen_on
  listen_on-open f port a b c e opened h =
      then_on-open (asio.set_reuse_address b) (λ d. then_on asio (asio.bind f port d) asio.listen) c
        e (asio.set_reuse_address_lem b _ _ refl ∙ asio.open_lem f a b opened)
        (λ d d' e' is_open.
          then_on-open (asio.bind f port d) asio.listen d' e'
            (asio.bind_lem f port d _ _ refl ∙ is_open)
            (λ k k' e'' k_open eq. asio.listen_lem k k' e'' eq ∙ k_open))
        (rw opened at h)

  listen_on-again :
      (f : Family) (port : ℕ) (a : asio.Acceptor)
      → asio.is_open a ≡ true
      → listen_on asio f port a ≡ (a, some asio.already_open)
  unfolding listen_on
  listen_on-again f port a h = rw (asio.open_again_lem f a h)

  listen_on-refused :
      (f : Family) (port code : ℕ) (a b : asio.Acceptor)
      → asio.open_acceptor f a ≡ (b, some code)
      → listen_on asio f port a ≡ (b, some code)
  unfolding listen_on
  listen_on-refused f port code a b h = rw h

  accepting-ok :
      (x : asio.Acceptor × Option ℕ) (a : asio.Acceptor) → accepting asio x ≡ ok a → x ≡ (a, none)
  accepting-ok (b, none) a h = ground (arith, h)
  accepting-ok (b, some code) a h = ground (arith, h)

  -- IPv6 was refused with the one code that is passed over: it was the opening that failed.
  refused-Listens :
      (port : ℕ) (a b : asio.Acceptor)
      → listen_on asio v6 port asio.closed ≡ (b, some asio.address_family_not_supported)
      → accepting asio (listen_on asio v4 port b) ≡ ok a
      → Listens asio port a
  refused-Listens port a b e h = go (asio.open_acceptor v6 asio.closed) refl
    where
      go :
          (x : asio.Acceptor × Option ℕ)
          → asio.open_acceptor v6 asio.closed ≡ x
          → Listens asio port a
      go (c, none) opened =
          let again = listen_on-again v4 port b (
            listen_on-open v6 port asio.closed c b (some asio.address_family_not_supported) opened
              e) in
          absurd (raised-ne-ok _ a (sym (ap (accepting asio) again) ∙ h))
      go (c, some code) refused =
          by_v4 b (refused ∙ sym (listen_on-refused v6 port code asio.closed c refused) ∙ e)
            (accepting-ok (listen_on asio v4 port b) a h)

  pub open_port-Listens :
      (port : ℕ) (a : asio.Acceptor) → open_port asio port ≡ ok a → Listens asio port a
  unfolding open_port
  open_port-Listens port a h = go (listen_on asio v6 port asio.closed) refl h
    where
      go :
          (x : asio.Acceptor × Option ℕ)
          → listen_on asio v6 port asio.closed ≡ x
          → fall_back asio port x ≡ ok a
          → Listens asio port a
      go (b, none) e k = by_v6 (e ∙ accepting-ok (b, none) a k)
      go (b, some code) e k = elim (Bool-cases (code == asio.address_family_not_supported)) [
        | inl same ↦
            refused-Listens port a b
              (e ∙ ap (λ n. (b, some n)) ((==_iff code asio.address_family_not_supported).0 same))
              (rw same at k)
        | inr other ↦ absurd (raised-ne-ok (system_error (asio.what code)) a (rw other at k))
      ]

  pub Listens-open_port :
      (port : ℕ) (a : asio.Acceptor) → Listens asio port a → open_port asio port ≡ ok a
  unfolding open_port
  Listens-open_port port a (by_v6 h) = rw h
  Listens-open_port port a (by_v4 b refused h) =
      rw (listen_on-refused v6 port asio.address_family_not_supported asio.closed b refused)
        (ground (arith, h))

module _ (ssl : Ssl) (env : Environment) (conf : ConfigureMap) where
  read_file_into_vector-some :
      (path text : Bytes) → env.files path ≡ some text → read_file_into_vector env path ≡ ok text
  unfolding read_file_into_vector
  read_file_into_vector-some path text h =
      ap (read_opened env.buf_size) h
      ∙ ap read_through
          (read_file-some (length text + 2) env.buf_size text env.buf_size_lem (omega arith))

  read_file_into_vector-ok :
      (path text : Bytes) → read_file_into_vector env path ≡ ok text → env.files path ≡ some text
  unfolding read_file_into_vector
  read_file_into_vector-ok path text h = go (env.files path) refl
    where
      go : (found : Option Bytes) → env.files path ≡ found → env.files path ≡ some text
      go none e = absurd (raised-ne-ok _ text (sym (ap (read_opened env.buf_size) e) ∙ h))
      go (some bytes) e = e ∙ same_text (sym (read_file_into_vector-some path bytes e) ∙ h)

  pub use_configured-Uses :
      (name path : Bytes) (use_file : Bytes → ssl.Context → Result ssl.Context)
      (before after : ssl.Context)
      → get name conf ≡ some path
      → use_configured ssl env conf name use_file path before ≡ ok after
      → Uses ssl env conf name use_file before after
  unfolding use_configured
  use_configured-Uses name path use_file before after named h =
      let (text, taken, readable) =
        >>=-eq-ok (read_file_into_vector env path)
          (λ text. used ssl env conf name use_file text before) h in
      elim (Bool-cases (is_empty text)) [
        | inl blank ↦ absurd (raised-ne-ok _ after (rw blank at taken))
        | inr filled ↦ record {
          path = path;
          text = text;
          named = named;
          readable = read_file_into_vector-ok path text readable;
          filled = filled;
          taken = rw filled at taken;
        }
      ]

  pub Uses-use_configured :
      (name : Bytes) (use_file : Bytes → ssl.Context → Result ssl.Context)
      (before after : ssl.Context) (u : Uses ssl env conf name use_file before after)
      → use_configured ssl env conf name use_file u.path before ≡ ok after
  unfolding use_configured
  Uses-use_configured name use_file before after u =
      bind-ok (read_file_into_vector env u.path)
        (λ text. used ssl env conf name use_file text before)
        (read_file_into_vector-some u.path u.text u.readable) (ground (arith, u.filled, u.taken))

  pub certificate-ok :
      (before after : ssl.Context)
      → on_chain_file ssl env conf (get chain_file conf) before ≡ ok after
      → Uses ssl env conf chain_file ssl.use_certificate_chain before after
        ⊎ ((get chain_file conf ≡ none)
            × Uses ssl env conf certificate_file ssl.use_certificate before after)
  certificate-ok before after h = go (get chain_file conf) refl (get certificate_file conf) refl h
    where
      go :
          (chain : Option Bytes)
          → get chain_file conf ≡ chain
          → (single : Option Bytes) → get certificate_file conf ≡ single
          → on_chain_file ssl env conf chain before ≡ ok after
          → Uses ssl env conf chain_file ssl.use_certificate_chain before after
            ⊎ ((get chain_file conf ≡ none)
                × Uses ssl env conf certificate_file ssl.use_certificate before after)
      go (some path) e single f k =
          inl (use_configured-Uses chain_file path ssl.use_certificate_chain before after e k)
      go none e none f k = absurd (raised-ne-ok _ after (rw f at k))
      go none e (some path) f k = inr (
        e,
        use_configured-Uses certificate_file path ssl.use_certificate before after f (rw f at k),
      )
