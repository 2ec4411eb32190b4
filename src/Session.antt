-- ===== src/Session.antt =====
-- Session.h and Session.cpp. The generator of keys is Boost's: a parameter, the sequence of the
-- keys that it gives out. The loop that looks for a free key runs on fuel.
pub mod Fresh
pub mod Tests
use suda_gureum.Base.{
  ℕ, zero, suc, ◌+◌, Bool, true, false, Option, none, some, if◌then◌else◌, Bytes,
}
use suda_gureum.Base.AssocMap.{AssocMap, find, emplace}

pub record UserSession : Type 0 where
  pub session_key : Bytes
  pub user_id : Bytes

-- The sessions under their keys, and how many keys the generator has given out.
pub record UserSessions : Type 0 where
  pub sessions : AssocMap UserSession
  pub generated : ℕ

abbrev pub same_key : Bytes → Bytes
same_key key = key

-- A key that no session has, and the number of keys given out by then.
abbrev pub Generated : Type 0
Generated = Option (Bytes × ℕ)

abbrev pub is_some {ℓ} : {A : Type ℓ} → Option A → Bool
is_some none = false
is_some (some a) = true

module _ (generator : ℕ → Bytes) where
  -- `none` when the fuel is used up.
  pub generate_session_key : ℕ → AssocMap UserSession → ℕ → Generated
  generate_session_key zero sessions n = none
  generate_session_key (suc fuel) sessions n =
      let rest : Generated = generate_session_key fuel sessions (n + 1) in
      if is_some (find same_key (generator n) sessions) then rest else some (generator n, n + 1)

  -- The session allocated and the sessions after it.
  pub alloc : ℕ → Bytes → UserSessions → Option (UserSession × UserSessions)
  unfolding generate_session_key
  alloc fuel user_id s = elim (generate_session_key fuel s.sessions s.generated) [
    | none ↦ none
    | some (key, generated) ↦
        let session : UserSession = record { session_key = key; user_id = user_id } in
        some (
          session,
          record { sessions = emplace same_key key session s.sessions; generated = generated },
        )
  ]

unfoldable pub get : Bytes → UserSessions → Option UserSession
get session_key s = find same_key session_key s.sessions
