-- ===== src/Irc/Client/Pool/Table.antt =====
-- The table under any sequence of the pool's operations.
use suda_gureum.Base.{
  ℕ, ◌+◌, ◌<◌, ◌≡◌, ◌≢◌, List, [], ◌∷◌, Option, none, some, ◌==◌, if◌then◌else◌, Bytes, All, arith,
  Bool-cases, inl, inr,
}
use suda_gureum.Irc.Client.Pool.{
  ClientPool, client_of, emplace_client, erase_client, put_client, connect_client, close_all,
  closed, constructed,
}
use suda_gureum.Irc.Client.State.{Client}
use suda_gureum.Irc.Client.Commands.{has_no_nickname}
use suda_gureum.Base.Result.{Exception}
use suda_gureum.Base.{Bool, false, true, not, sym, ap}
use mathlib.Core.Path.{subst}

pub data Operation : Type 0 where
  connects :
      (resolver : Option Exception) (construct_cb : Client → Client) (nicknames : List Bytes)
      → Operation
  closes : (id : ℕ) → Operation
  closes_all : Operation

abbrev pub operate : Operation → ClientPool → ClientPool
operate (connects resolver construct_cb nicknames) p =
    (connect_client resolver construct_cb nicknames p).1
operate (closes id) p = closed id p
operate closes_all p = (close_all p).1

abbrev pub operate_all : List Operation → ClientPool → ClientPool
operate_all [] p = p
operate_all (o ∷ os) p = operate_all os (operate o p)

-- No client has this number, and no two have the same.
abbrev pub Fresh : ℕ → List (ℕ × Client) → Type 0
Fresh id = All (λ x. x.0 < id)

abbrev pub Distinct : List (ℕ × Client) → Type 0
Distinct [] = Unit
Distinct ((j, c) ∷ cs) = All (λ x. x.0 ≢ j) cs × Distinct cs

-- The numbers are distinct and below the next one.
abbrev pub Numbered : ClientPool → Type 0
Numbered p = Fresh p.next_connection_id p.clients × Distinct p.clients

Fresh-suc : (id : ℕ) (cs : List (ℕ × Client)) → Fresh id cs → Fresh (id + 1) cs
Fresh-suc id [] h = tt
Fresh-suc id (x ∷ cs) (hx, h) = (omega arith, Fresh-suc id cs h)

emplace_client-All :
    (P : ℕ × Client → Type 0) (id : ℕ) (c : Client) (cs : List (ℕ × Client))
    → P (id, c)
    → All P cs
    → All P (emplace_client id c cs)
unfolding emplace_client
emplace_client-All P id c [] p h = (p, tt)
emplace_client-All P id c ((j, d) ∷ cs) p (hd, h) = elim (Bool-cases (j == id)) [
  | inl e ↦ rw e (hd, h)
  | inr e ↦ rw e (hd, emplace_client-All P id c cs p h)
]

emplace_client-Distinct :
    (id : ℕ) (c : Client) (cs : List (ℕ × Client))
    → Fresh id cs
    → Distinct cs
    → Distinct (emplace_client id c cs)
unfolding emplace_client
emplace_client-Distinct id c [] f h = (tt, tt)
emplace_client-Distinct id c ((j, d) ∷ cs) (fj, f) (hd, h) = elim (Bool-cases (j == id)) [
  | inl e ↦ rw e (hd, h)
  | inr e ↦ rw e (
    emplace_client-All (λ x. x.0 ≢ j) id c cs (ground (arith, fj)) hd,
    emplace_client-Distinct id c cs f h,
  )
]

erase_client-All :
    (P : ℕ × Client → Type 0) (id : ℕ) (cs : List (ℕ × Client))
    → All P cs
    → All P (erase_client id cs)
unfolding erase_client
erase_client-All P id [] h = tt
erase_client-All P id ((j, d) ∷ cs) (hd, h) = elim (Bool-cases (j == id)) [
  | inl e ↦ rw e h
  | inr e ↦ rw e (hd, erase_client-All P id cs h)
]

erase_client-Distinct :
    (id : ℕ) (cs : List (ℕ × Client)) → Distinct cs → Distinct (erase_client id cs)
unfolding erase_client
erase_client-Distinct id [] h = tt
erase_client-Distinct id ((j, d) ∷ cs) (hd, h) = elim (Bool-cases (j == id)) [
  | inl e ↦ rw e h
  | inr e ↦ rw e (erase_client-All (λ x. x.0 ≢ j) id cs hd, erase_client-Distinct id cs h)
]

pub connect_client-unnamed :
    (e : Exception) (construct_cb : Client → Client) (nicknames : List Bytes) (p : ClientPool)
    → has_no_nickname nicknames ≡ true
    → connect_client (some e) construct_cb nicknames p ≡ (none, put_client construct_cb nicknames p)
unfolding connect_client
connect_client-unnamed e construct_cb nicknames p unnamed = rw unnamed

pub connect_client-thrown :
    (e : Exception) (construct_cb : Client → Client) (nicknames : List Bytes) (p : ClientPool)
    → has_no_nickname nicknames ≡ false
    → connect_client (some e) construct_cb nicknames p
      ≡ (some e, record p { next_connection_id = p.next_connection_id + 1 })
unfolding connect_client
connect_client-thrown e construct_cb nicknames p named = rw named

put_client-Numbered :
    (construct_cb : Client → Client) (nicknames : List Bytes) (p : ClientPool)
    → Numbered p
    → Numbered (put_client construct_cb nicknames p)
unfolding put_client
put_client-Numbered construct_cb nicknames p (f, h) = (
  emplace_client-All (λ x. x.0 < p.next_connection_id + 1) p.next_connection_id _ p.clients
      (omega arith) (Fresh-suc p.next_connection_id p.clients f),
  emplace_client-Distinct p.next_connection_id _ p.clients f h,
)

operate-Numbered : (o : Operation) (p : ClientPool) → Numbered p → Numbered (operate o p)
unfolding connect_client closed close_all
operate-Numbered (connects none construct_cb nicknames) p h =
    put_client-Numbered construct_cb nicknames p h
operate-Numbered (connects (some e) construct_cb nicknames) p (f, h) =
    elim (Bool-cases (has_no_nickname nicknames)) [
      | inl unnamed ↦
          subst Numbered
            (sym (ap (λ r. r.1) (connect_client-unnamed e construct_cb nicknames p unnamed)))
            (put_client-Numbered construct_cb nicknames p (f, h))
      | inr named ↦
          subst Numbered
            (sym (ap (λ r. r.1) (connect_client-thrown e construct_cb nicknames p named)))
            (Fresh-suc p.next_connection_id p.clients f, h)
    ]
operate-Numbered (closes id) p (f, h) = (
  erase_client-All (λ x. x.0 < p.next_connection_id) id p.clients f,
  erase_client-Distinct id p.clients h,
)
operate-Numbered closes_all p (f, h) = (tt, tt)

-- However the pool is used, its clients have different numbers, all below the next one to be given.
pub operate_all-Numbered :
    (os : List Operation) (p : ClientPool) → Numbered p → Numbered (operate_all os p)
operate_all-Numbered [] p h = h
operate_all-Numbered (o ∷ os) p h = operate_all-Numbered os (operate o p) (operate-Numbered o p h)

-- The resolver is asked, and throws.
abbrev pub throws : Option Exception → List Bytes → Bool
throws none nicknames = false
throws (some e) nicknames = not (has_no_nickname nicknames)

-- The table as a partial function on the numbers.
abbrev pub lookup_after : Operation → ClientPool → ℕ → Option Client
lookup_after (connects resolver construct_cb nicknames) p other =
    if throws resolver nicknames
    then client_of other p.clients
    else if other == p.next_connection_id
    then some (constructed construct_cb p.next_connection_id nicknames)
    else client_of other p.clients
lookup_after (closes id) p other = if other == id then none else client_of other p.clients
lookup_after closes_all p other = none
