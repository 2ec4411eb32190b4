-- ===== src/User/Authorized.antt =====
-- Who is authorized.
use suda_gureum.Base.{
  ℕ, ◌+◌, ◌≡◌, ap, ◌∙◌, Bool-cases, inl, inr, bytes_eq, bytes_eq_iff, if◌then◌else◌, true, false,
  some, length, Bytes, is_empty, arith,
}
use suda_gureum.Scrypt.Refused.{check-raised}
use suda_gureum.Session.Fresh.{NeverRepeats, get-alloc, alloc-filled}
use suda_gureum.Session.{UserSession, UserSessions, alloc, get}
use suda_gureum.User.{
  UserContext, Environment, threw, on_check, fetch_password_hash, check_password,
  authorize_password, authorize_session, is_authorized,
}

module _ (env : Environment) where
  -- Whoever asks, whatever the database holds for the user, and whatever the password, authorizing
  -- with a password throws.
  pub authorize_password-threw :
      (fuel : ℕ) (user_id password : Bytes) (c : UserContext) (s : UserSessions)
      → authorize_password env fuel user_id password c s ≡ threw
  unfolding authorize_password check_password
  authorize_password-threw fuel user_id password c s =
      ap (on_check env fuel user_id c s)
        (check-raised env.library password (fetch_password_hash env user_id))

  authorize_session-same :
      (key : Bytes) (s t : UserSessions) (c : UserContext)
      → get key t ≡ get key s
      → authorize_session env key t c ≡ authorize_session env key s c
  unfolding authorize_session
  authorize_session-same key s t c e = ground (arith, e)

  -- A session that alloc makes for a user with a name, among any sessions or none, with a generator
  -- that does not repeat itself and gives no empty key: its key authorizes as that user, whatever
  -- the context was, and every other key is accepted or refused as before, with the same context
  -- left.
  pub authorize_session-alloc :
      (user_id other : Bytes) (s : UserSessions) (c : UserContext)
      → NeverRepeats env.generator
      → ((n : ℕ) → is_empty (env.generator n) ≡ false)
      → is_empty user_id ≡ false
      → (session : UserSession) × (t : UserSessions) × (alloc env.generator
            (length s.sessions + 1)
            user_id
            s
          ≡ some (session, t))
        × (is_authorized (authorize_session env session.session_key t c).1 ≡ true)
        × (authorize_session env other t c ≡ (
            if bytes_eq other session.session_key
            then (true, record { user_id = user_id; session_key = session.session_key })
            else authorize_session env other s c))
  unfolding authorize_session is_authorized
  authorize_session-alloc user_id other s c distinct filled named =
      let (session, t, allocated, of_user, free, found, others) =
        get-alloc env.generator user_id s distinct in
      (
        session,
        t,
        allocated,
        ground (
          arith,
          found,
          of_user,
          named,
          alloc-filled env.generator filled (length s.sessions + 1) user_id s t session allocated,
        ),
        elim (Bool-cases (bytes_eq other session.session_key)) [
          | inl same ↦
              ap (λ key. authorize_session env key t c)
                ((bytes_eq_iff other session.session_key).0 same)
              ∙ rw same (ground (arith, found, of_user))
          | inr differs ↦ rw differs (
              authorize_session-same other s t c (
                others other
                  (λ e. ground (arith, differs, (bytes_eq_iff other session.session_key).1 e))))
        ],
      )
