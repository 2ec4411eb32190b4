-- ===== src/Base/AssocMap.antt =====
-- `std::map`, `multi_index` and the like with unique keys: an association list. Keys that the
-- container's comparator does not order are those with one normal form `norm`: the key itself,
-- or its upper-case form for `LessCaseInsensitive` (Comparator.h).
use mathlib.Core.Path.{◌≡◌, refl}
use mathlib.Core.Bool.{Bool, true}
use mathlib.Core.List.{List, [], ◌∷◌}
use mathlib.Core.Option
use mathlib.Core.Option.{Option, none, some}
use native.Mathlib.Omega.{arith}
use mathlib.Core.Logic.{inl, inr}
use suda_gureum.Base.Lists.{All}
use suda_gureum.Base.Tests.{Bool-cases, if◌then◌else◌}
use suda_gureum.Base.Text.{Bytes, bytes_eq, bytes_eq_iff}

abbrev pub AssocMap {ℓ} : Type ℓ → Type ℓ
AssocMap V = List (Bytes × V)

-- Neither key is less than the other.
abbrev pub same : (Bytes → Bytes) → Bytes → Bytes → Bool
same norm a b = bytes_eq (norm a) (norm b)

module _ {ℓ} {V : Type ℓ} (norm : Bytes → Bytes) where
  unfoldable pub find : Bytes → AssocMap V → Option V
  find k [] = none
  find k ((j, v) ∷ m) = if same norm j k then some v else find k m

  -- `emplace` and `insert`: an entry that is there stays as it is.
  unfoldable pub emplace : Bytes → V → AssocMap V → AssocMap V
  emplace k v [] = (k, v) ∷ []
  emplace k v ((j, w) ∷ m) = if same norm j k then (j, w) ∷ m else (j, w) ∷ emplace k v m

  unfoldable pub erase : Bytes → AssocMap V → AssocMap V
  erase k [] = []
  erase k ((j, w) ∷ m) = if same norm j k then erase k m else (j, w) ∷ erase k m

  -- A change of the value that an iterator found.
  pub modify : Bytes → (V → V) → AssocMap V → AssocMap V
  modify k f [] = []
  modify k f ((j, w) ∷ m) = if same norm j k then (j, f w) ∷ m else (j, w) ∷ modify k f m

  pub insert_or_assign : Bytes → V → AssocMap V → AssocMap V
  insert_or_assign k v [] = (k, v) ∷ []
  insert_or_assign k v ((j, w) ∷ m) =
      if same norm j k then (j, v) ∷ m else (j, w) ∷ insert_or_assign k v m

  pub find-emplace :
      (j k : Bytes) (v : V) (m : AssocMap V)
      → find j (emplace k v m)
        ≡ elim (find j m) [ some w ↦ some w | none ↦ if same norm k j then some v else none ]
  unfolding find emplace
  find-emplace j k v [] = refl
  find-emplace j k v ((i, w) ∷ m) = ground (
    arith,
    bytes_eq_iff (norm k) (norm j),
    bytes_eq_iff (norm i) (norm k),
    bytes_eq_iff (norm i) (norm j),
    find-emplace j k v m,
  )

  pub find-erase :
      (j k : Bytes) (m : AssocMap V)
      → find j (erase k m) ≡ (if same norm k j then none else find j m)
  unfolding find erase
  find-erase j k [] = ground arith
  find-erase j k ((i, w) ∷ m) = ground (
    arith,
    bytes_eq_iff (norm k) (norm j),
    bytes_eq_iff (norm i) (norm k),
    bytes_eq_iff (norm i) (norm j),
    find-erase j k m,
  )

  pub find-modify :
      (j k : Bytes) (f : V → V) (m : AssocMap V)
      → find j (modify k f m) ≡ (if same norm k j then Option.map f (find j m) else find j m)
  unfolding find modify
  find-modify j k f [] = ground arith
  find-modify j k f ((i, w) ∷ m) = ground (
    arith,
    bytes_eq_iff (norm k) (norm j),
    bytes_eq_iff (norm i) (norm k),
    bytes_eq_iff (norm i) (norm j),
    find-modify j k f m,
  )

  pub find-insert_or_assign :
      (j k : Bytes) (v : V) (m : AssocMap V)
      → find j (insert_or_assign k v m) ≡ (if same norm k j then some v else find j m)
  unfolding find insert_or_assign
  find-insert_or_assign j k v [] = refl
  find-insert_or_assign j k v ((i, w) ∷ m) = ground (
    arith,
    bytes_eq_iff (norm k) (norm j),
    bytes_eq_iff (norm i) (norm k),
    bytes_eq_iff (norm i) (norm j),
    find-insert_or_assign j k v m,
  )

  -- Keys that are not ordered find the same entry.
  pub find-same : (j k : Bytes) (m : AssocMap V) → same norm j k ≡ true → find j m ≡ find k m
  unfolding find
  find-same j k [] e = refl
  find-same j k ((i, w) ∷ m) e = ground (
    arith,
    bytes_eq_iff (norm j) (norm k),
    bytes_eq_iff (norm i) (norm j),
    bytes_eq_iff (norm i) (norm k),
    find-same j k m e,
  )

  module _ {κ} (P : Bytes × V → Type κ) where
    pub emplace-All :
        (k : Bytes) (v : V) (m : AssocMap V) → P (k, v) → All P m → All P (emplace k v m)
    unfolding emplace
    emplace-All k v [] h hs = (h, tt)
    emplace-All k v ((j, w) ∷ m) h (hj, hs) = elim (Bool-cases (same norm j k)) [
      | inl here ↦ rw here (hj, hs)
      | inr later ↦ rw later (hj, emplace-All k v m h hs)
    ]

    -- The key that is there stays.
    pub insert_or_assign-All :
        (k : Bytes) (v : V) (m : AssocMap V)
        → ((j : Bytes) (w : V) → P (j, w) → P (j, v))
        → P (k, v)
        → All P m
        → All P (insert_or_assign k v m)
    unfolding insert_or_assign
    insert_or_assign-All k v [] c h hs = (h, tt)
    insert_or_assign-All k v ((j, w) ∷ m) c h (hj, hs) = elim (Bool-cases (same norm j k)) [
      | inl here ↦ rw here (c j w hj, hs)
      | inr later ↦ rw later (hj, insert_or_assign-All k v m c h hs)
    ]
