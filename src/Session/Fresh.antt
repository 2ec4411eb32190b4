-- ===== src/Session/Fresh.antt =====
-- A generator that does not repeat itself: the loop ends, and the session is new.
use mathlib.Core.Path.{subst}
use suda_gureum.Base.AssocMap.{AssocMap, find, emplace, erase, find-emplace, find-erase}
use suda_gureum.Base.{
  ℕ, zero, suc, ◌+◌, ◌≤◌, ◌<◌, ◌≡◌, ◌≢◌, refl, sym, true, inl, inr, Bool-cases, Option-cases, [],
  ◌∷◌, none, some, length, false, is_empty, Bytes, bytes_eq, bytes_eq_iff, arith,
}
use suda_gureum.Session.{
  UserSession, UserSessions, same_key, is_some, generate_session_key, alloc, get,
}

length-erase_le : (k : Bytes) (m : AssocMap UserSession) → length (erase same_key k m) ≤ length m
unfolding erase
length-erase_le k [] = omega arith
length-erase_le k ((j, w) ∷ m) = ground (arith, length-erase_le k m)

length-erase_lt :
    (k : Bytes) (m : AssocMap UserSession)
    → is_some (find same_key k m) ≡ true
    → length (erase same_key k m) < length m
unfolding erase find
length-erase_lt k [] h = absurd (ground arith)
length-erase_lt k ((j, w) ∷ m) h = ground (arith, length-erase_le k m, length-erase_lt k m)

-- No key is given out twice.
abbrev pub NeverRepeats : (ℕ → Bytes) → Type 0
NeverRepeats generator = (i j : ℕ) → generator i ≡ generator j → i ≡ j

shift : (n i : ℕ) → n + suc i ≡ suc n + i
shift n i = omega arith

shift_zero : (n : ℕ) → n + 0 ≡ n
shift_zero n = omega arith

shift_one : (n i : ℕ) → n + 1 + i ≡ n + suc i
shift_one n i = omega arith

module _ (generator : ℕ → Bytes) (distinct : NeverRepeats generator) where
  abbrev Taken : AssocMap UserSession → ℕ → Type 0
  Taken m n = is_some (find same_key (generator n) m) ≡ true

  still_taken :
      (m : AssocMap UserSession) (n i : ℕ)
      → is_some (find same_key (generator (suc n + i)) m) ≡ true
      → is_some (find same_key (generator (suc n + i)) (erase same_key (generator n) m)) ≡ true
  still_taken m n i h = elim (Bool-cases (bytes_eq (generator n) (generator (suc n + i)))) [
    | inl e ↦ absurd (
        omega (
          arith,
          distinct n (suc n + i) ((bytes_eq_iff (generator n) (generator (suc n + i))).0 e),
        ))
    | inr e ↦ ground (arith, find-erase same_key (generator (suc n + i)) (generator n) m)
  ]

  -- As many keys as are taken are in the sessions.
  taken-length :
      (k : ℕ) (m : AssocMap UserSession) (n : ℕ)
      → ((i : ℕ) → i < k → is_some (find same_key (generator (n + i)) m) ≡ true)
      → k ≤ length m
  taken-length zero m n h = omega arith
  taken-length (suc k) m n h = omega (
    arith,
    taken-length k (erase same_key (generator n) m) (suc n)
        (λ i lt. still_taken m n i (subst (Taken m) (shift n i) (h (suc i) (omega arith)))),
    length-erase_lt (generator n) m (subst (Taken m) (shift_zero n) (h zero (omega arith))),
  )

  all_taken :
      (k : ℕ) (m : AssocMap UserSession) (n : ℕ)
      → generate_session_key generator k m n ≡ none
      → (i : ℕ) → i < k
      → is_some (find same_key (generator (n + i)) m) ≡ true
  unfolding generate_session_key
  all_taken zero m n e i lt = absurd (omega arith)
  all_taken (suc k) m n e zero lt =
      let now : Taken m n = ground arith in subst (Taken m) (sym (shift_zero n)) now
  all_taken (suc k) m n e (suc i) lt =
      let later : generate_session_key generator k m (n + 1) ≡ none = ground arith in
      subst (Taken m) (shift_one n i) (all_taken k m (n + 1) later i (omega arith))

generated_key-free :
    (generator : ℕ → Bytes) (k : ℕ) (m : AssocMap UserSession) (n : ℕ) (key : Bytes) (n' : ℕ)
    → generate_session_key generator k m n ≡ some (key, n')
    → find same_key key m ≡ none
unfolding generate_session_key
generated_key-free generator zero m n key n' e = absurd (ground arith)
generated_key-free generator (suc k) m n key n' e =
    ground (arith, generated_key-free generator k m (n + 1) key n')

-- If the generator does not repeat itself, one key more than there are sessions is enough to end
-- the loop: the session allocated has a key that no session had, `get` finds it, and every other
-- key finds what it found before.
pub get-alloc :
    (generator : ℕ → Bytes) (user_id : Bytes) (s : UserSessions)
    → NeverRepeats generator
    → (session : UserSession) × (t : UserSessions) × (alloc generator
          (length s.sessions + 1)
          user_id
          s
        ≡ some (session, t))
      × (session.user_id ≡ user_id)
      × (get session.session_key s ≡ none)
      × (get session.session_key t ≡ some session)
      × ((key : Bytes) → key ≢ session.session_key → get key t ≡ get key s)
unfolding alloc get
get-alloc generator user_id s distinct =
    elim (Option-cases
      (generate_session_key generator (length s.sessions + 1) s.sessions s.generated)) [
        | inl used_up ↦ absurd (
            omega (
              arith,
              taken-length generator distinct (length s.sessions + 1) s.sessions s.generated (
                  all_taken generator distinct (length s.sessions + 1) s.sessions s.generated
                    used_up),
            ))
        | inr ((key, generated), e) ↦
            let free : find same_key key s.sessions ≡ none =
              generated_key-free generator (length s.sessions + 1) s.sessions s.generated key
                generated e in
            let session : UserSession = record { session_key = key; user_id = user_id } in
            (
              session,
              record { sessions = emplace same_key key session s.sessions; generated = generated },
              ground (arith, e),
              refl,
              free,
              ground (
                arith,
                free,
                find-emplace same_key key key session s.sessions,
                bytes_eq_iff key key,
              ),
              λ other differs. ground (
                arith,
                differs,
                find-emplace same_key other key session s.sessions,
                bytes_eq_iff key other,
              ),
            )
      ]

generate_session_key-filled :
    (generator : ℕ → Bytes)
    → ((n : ℕ) → is_empty (generator n) ≡ false)
    → (fuel : ℕ) (sessions : AssocMap UserSession) (n : ℕ) (key : Bytes) (generated : ℕ)
    → generate_session_key generator fuel sessions n ≡ some (key, generated)
    → is_empty key ≡ false
unfolding generate_session_key
generate_session_key-filled generator filled zero sessions n key generated e =
    absurd (ground (arith, e))
generate_session_key-filled generator filled (suc fuel) sessions n key generated e =
    elim (Bool-cases (is_some (find same_key (generator n) sessions))) [
      | inl taken ↦
          generate_session_key-filled generator filled fuel sessions (n + 1) key generated
            (ground (arith, e, taken))
      | inr free ↦ ground (arith, e, free, filled n)
    ]

-- A generator that gives no empty key gives none to a session.
pub alloc-filled :
    (generator : ℕ → Bytes)
    → ((n : ℕ) → is_empty (generator n) ≡ false)
    → (fuel : ℕ) (user_id : Bytes) (s t : UserSessions) (session : UserSession)
    → alloc generator fuel user_id s ≡ some (session, t)
    → is_empty session.session_key ≡ false
unfolding alloc
alloc-filled generator filled fuel user_id s t session e =
    elim (Option-cases (generate_session_key generator fuel s.sessions s.generated)) [
      | inl used_up ↦ absurd (ground (arith, e, used_up))
      | inr ((key, generated), found) ↦ ground (
        arith,
        e,
        found,
        generate_session_key-filled generator filled fuel s.sessions s.generated key generated
            found,
      )
    ]
