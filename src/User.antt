-- ===== src/User.antt =====
-- `UserContext` and `Users` (User.h, User.cpp), and `UserDB::fetchPasswordHash` (DB.cpp): who may use the
-- program. The rows that the database finds for a user are a parameter.
pub mod Authorized
pub mod Servers
pub mod Table
pub mod Tests
use suda_gureum.Base.{
  ℕ, Bool, true, false, not, ◌&&◌, List, [], ◌∷◌, Option, none, some, if◌then◌else◌, Bytes,
  is_empty,
}
use suda_gureum.Scrypt.{Library, Checked, checked, raised, undefined, check}
use suda_gureum.Session.{UserSession, UserSessions, alloc, get}

-- `UserContext`
pub record UserContext : Type 0 where
  pub user_id : Bytes
  pub session_key : Bytes

abbrev pub new_context : UserContext
new_context = record { user_id = []; session_key = [] }

-- What the users take from outside: the hashes in the rows of a user, in the order in which the
-- database gives them, the library for the hashes, and the generator of session keys.
pub record Environment : Type 0 where
  pub password_hashes : Bytes → List Bytes
  pub library : Library
  pub generator : ℕ → Bytes

-- The result of `authorize` with a password. It does not return if `check` throws; `endless` is a search
-- for a key that used up its fuel.
pub data Authorization : Type 0 where
  returned : Bool → UserContext → UserSessions → Authorization
  threw : Authorization
  shifted : Authorization
  endless : Authorization

module _ (env : Environment) where
  -- The first row counts; with none the hash is empty.
  abbrev pub first_hash : List Bytes → Bytes
  first_hash [] = []
  first_hash (hash ∷ hashes) = hash

  pub fetch_password_hash : Bytes → Bytes
  fetch_password_hash user_id = first_hash (env.password_hashes user_id)

  pub check_password : Bytes → Bytes → Checked
  unfolding fetch_password_hash
  check_password user_id password = check env.library password (fetch_password_hash user_id)

  abbrev pub with_session : Bytes → Option (UserSession × UserSessions) → Authorization
  with_session user_id none = endless
  with_session user_id (some (session, sessions)) =
      returned true (record { user_id = user_id; session_key = session.session_key }) sessions

  abbrev pub on_check : ℕ → Bytes → UserContext → UserSessions → Checked → Authorization
  on_check fuel user_id c s raised = threw
  on_check fuel user_id c s undefined = shifted
  on_check fuel user_id c s (checked false) = returned false c s
  on_check fuel user_id c s (checked true) =
      with_session user_id (alloc env.generator fuel user_id s)

  -- `authorize` with a user and a password
  pub authorize_password : ℕ → Bytes → Bytes → UserContext → UserSessions → Authorization
  unfolding check_password
  authorize_password fuel user_id password c s =
      on_check fuel user_id c s (check_password user_id password)

  abbrev pub on_session : Bytes → UserContext → Option UserSession → Bool × UserContext
  on_session session_key c none = (false, c)
  on_session session_key c (some session) =
      (true, record { user_id = session.user_id; session_key = session_key })

  -- `authorize` with the key of a session
  pub authorize_session : Bytes → UserSessions → UserContext → Bool × UserContext
  authorize_session session_key s c = on_session session_key c (get session_key s)

pub is_authorized : UserContext → Bool
is_authorized c = not (is_empty c.user_id) && not (is_empty c.session_key)
