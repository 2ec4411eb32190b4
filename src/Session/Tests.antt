-- ===== src/Session/Tests.antt =====
-- The sessions at concrete input.
use suda_gureum.Base.{
  ℕ, zero, suc, ◌≡◌, ◌≢◌, refl, sym, ap, ◌∙◌, [], ◌∷◌, none, some, length, Bytes, codes, arith,
}
use suda_gureum.Session.Fresh.{NeverRepeats, get-alloc}
use suda_gureum.Session.{UserSession, UserSessions, alloc, get}

-- Keys of growing length.
abbrev pub keys : ℕ → Bytes
keys zero = []
keys (suc n) = b'k' ∷ keys n

length-keys : (n : ℕ) → length (keys n) ≡ n
length-keys zero = refl
length-keys (suc n) = omega (arith, length-keys n)

pub keys-NeverRepeats : NeverRepeats keys
keys-NeverRepeats i j e = sym (length-keys i) ∙ ap length e ∙ length-keys j

-- The next key of the generator is taken.
abbrev pub one_session : UserSessions
one_session = record {
  sessions = (keys 1, record { session_key = keys 1; user_id = codes "ann" }) ∷ [];
  generated = 1;
}

get-alloc_example :
    (session : UserSession) × (t : UserSessions) × (alloc keys 2 (codes "bob") one_session
      ≡ some (session, t))
    × (session.user_id ≡ codes "bob")
    × (get session.session_key one_session ≡ none)
    × (get session.session_key t ≡ some session)
    × ((key : Bytes) → key ≢ session.session_key → get key t ≡ get key one_session)
get-alloc_example = get-alloc keys (codes "bob") one_session keys-NeverRepeats
