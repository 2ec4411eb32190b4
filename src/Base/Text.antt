-- ===== src/Base/Text.antt =====
-- Byte strings: a `std::string` or a `std::vector<uint8_t>` is the list of its bytes.
use Prim.Native.Nat.{ℕ}
use Prim.Native.Char.{code}
use Prim.Native.String.{String}
use mathlib.Core.Path.{◌≡◌, refl}
use mathlib.Core.Logic.{◌↔◌, ◌≢◌, inl, inr}
use mathlib.Core.Bool.{Bool, true, false, ◌&&◌}
use mathlib.Core.List.{List, [], ◌∷◌, ◌++◌}
use native.Mathlib.Omega.{arith}
use suda_gureum.Base.Tests.{◌==◌, if◌then◌else◌, Bool-cases}
use suda_gureum.Base.Lists.{All}

abbrev pub Bytes : Type 0
Bytes = List ℕ

-- The bytes of an ASCII literal.
abbrev pub codes : String → Bytes
codes String.[] = []
codes (String.◌∷◌ c s) = code c ∷ codes s

-- `==` of `std::string`.
abbrev pub bytes_eq : Bytes → Bytes → Bool
bytes_eq [] [] = true
bytes_eq (x ∷ xs) (y ∷ ys) = x == y && bytes_eq xs ys
bytes_eq _ _ = false

pub bytes_eq_iff : (a b : Bytes) → (bytes_eq a b ≡ true) ↔ (a ≡ b)
bytes_eq_iff (x ∷ a) (y ∷ b) = ground (arith, bytes_eq_iff a b)
bytes_eq_iff _ _ = ground arith

abbrev pub all_of : (ℕ → Bool) → Bytes → Bool
all_of p [] = true
all_of p (c ∷ cs) = p c && all_of p cs

abbrev pub is_empty : Bytes → Bool
is_empty [] = true
is_empty (c ∷ cs) = false

-- No byte of the string is `b`.
abbrev pub Lacks : ℕ → Bytes → Type 0
Lacks b = All (λ c. c ≢ b)

-- The pieces between the bytes that pass the test; one piece more than such bytes.
abbrev pub prepend_head : ℕ → List Bytes → List Bytes
prepend_head c [] = (c ∷ []) ∷ []
prepend_head c (w ∷ ws) = (c ∷ w) ∷ ws

abbrev pub split_on : (ℕ → Bool) → Bytes → List Bytes
split_on p [] = [] ∷ []
split_on p (c ∷ cs) = if p c then [] ∷ split_on p cs else prepend_head c (split_on p cs)

module _ (p : ℕ → Bool) where
  pub split_on-cons : (s : Bytes) → (w : Bytes) × (ws : List Bytes) × (split_on p s ≡ w ∷ ws)
  split_on-cons [] = ([], [], refl)
  split_on-cons (c ∷ cs) =
      let (w, ws, e) = split_on-cons cs in
      elim (Bool-cases (p c)) [
        | inl sep ↦ ([], split_on p cs, rw sep)
        | inr other ↦ (c ∷ w, ws, rw (other, e))
      ]

  -- A piece with no separator, and what stands behind the separator.
  pub split_on-append :
      (w : Bytes) (c : ℕ) (rest : Bytes)
      → All (λ b. p b ≡ false) w
      → p c ≡ true
      → split_on p (w ++ c ∷ rest) ≡ w ∷ split_on p rest
  split_on-append [] c rest h sep = rw sep
  split_on-append (b ∷ w) c rest (hb, h) sep = rw (hb, split_on-append w c rest h sep)

  pub split_on_whole : (w : Bytes) → All (λ b. p b ≡ false) w → split_on p w ≡ w ∷ []
  split_on_whole [] h = refl
  split_on_whole (b ∷ w) (hb, h) = rw (hb, split_on_whole w h)

pub Lacks→avoids : (b : ℕ) (w : Bytes) → Lacks b w → All (λ c. (c == b) ≡ false) w
Lacks→avoids b [] h = tt
Lacks→avoids b (c ∷ w) (hc, h) = (ground arith, Lacks→avoids b w h)
