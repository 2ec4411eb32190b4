-- ===== src/User/Tests.antt =====
-- The users and their sessions at concrete input.
use suda_gureum.Base.Boost.{ascii_boost}
use suda_gureum.Base.{bytes_eq, if◌then◌else◌}
use suda_gureum.Base.{
  ℕ, suc, ◌≡◌, refl, true, false, [], ◌∷◌, some, take, Bytes, codes, is_empty, arith,
}
use suda_gureum.Scrypt.{Library, crypt}
use suda_gureum.Session.Fresh.{NeverRepeats}
use suda_gureum.Session.Tests.{keys, keys-NeverRepeats, one_session}
use suda_gureum.Session.{UserSession, UserSessions, alloc}
use suda_gureum.User.Authorized.{authorize_password-threw, authorize_session-alloc}
use suda_gureum.User.{
  Environment, new_context, threw, authorize_password, authorize_session, is_authorized,
}
use suda_gureum.Utility.Tests.{only_letters, as_many}

-- A hash that is the password.
abbrev password_library : Library
password_library = record {
  boost = ascii_boost;
  to_base64 = only_letters;
  from_base64 = as_many;
  stoul_hex = λ s. some 919553;
  crypto_scrypt = λ password salt n r p len. some (take len password);
}

abbrev salt : Bytes
salt = codes "0123456789abcdef"

abbrev users : Environment
users = record {
  password_hashes = λ user_id. crypt password_library salt (codes "secret") ∷ [];
  library = password_library;
  generator = λ n. keys (suc n);
}

authorize_password-threw_example :
    authorize_password users 2 (codes "ann") (codes "secret") new_context one_session ≡ threw
authorize_password-threw_example =
    authorize_password-threw users 2 (codes "ann") (codes "secret") new_context one_session

users-NeverRepeats : NeverRepeats users.generator
users-NeverRepeats i j e = omega (arith, keys-NeverRepeats (suc i) (suc j) e)

users-filled : (n : ℕ) → is_empty (users.generator n) ≡ false
users-filled n = refl

abbrev first_session : UserSession
first_session = record { session_key = keys 1; user_id = codes "ann" }

abbrev no_sessions : UserSessions
no_sessions = record { sessions = []; generated = 0 }

authorize_session-alloc_example :
    (session : UserSession) × (t : UserSessions) × (alloc users.generator 1
        (codes "bob")
        no_sessions
      ≡ some (session, t))
    × (is_authorized (authorize_session users session.session_key t new_context).1 ≡ true)
    × (authorize_session users (keys 1) t new_context ≡ (
        if bytes_eq (keys 1) session.session_key
        then (true, record { user_id = codes "bob"; session_key = session.session_key })
        else authorize_session users (keys 1) no_sessions new_context))
authorize_session-alloc_example =
    authorize_session-alloc users (codes "bob") (keys 1) no_sessions new_context users-NeverRepeats
      users-filled refl
