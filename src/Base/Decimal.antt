-- ===== src/Base/Decimal.antt =====
-- `{}` of `std::format` on an unsigned number.
use Prim.Native.Nat.{ℕ, zero, suc, ◌+◌, ◌-◌, ◌*◌, ◌/◌, ◌%◌, ◌<◌}
use mathlib.Core.Path.{◌≡◌, refl}
use mathlib.Core.Bool.{true}
use mathlib.Core.Logic.{inl, inr}
use mathlib.Core.List.{[], ◌∷◌, ◌++◌}
use native.Mathlib.Omega.{arith}
use suda_gureum.Base.Boost.{is_digit}
use suda_gureum.Base.Lists.{All, All-append}
use suda_gureum.Base.Tests.{ltb, Bool-cases, if◌then◌else◌}
use suda_gureum.Base.Text.{Bytes}

-- The digits, the number divided by ten once for each but the first; `n + 1` is enough fuel.
abbrev pub decimal_from : ℕ → ℕ → Bytes
decimal_from zero n = []
decimal_from (suc fuel) n =
    let rest : Bytes = decimal_from fuel (n / 10) ++ (b'0' + n % 10) ∷ [] in
    if ltb n 10 then (b'0' + n) ∷ [] else rest

pub decimal : ℕ → Bytes
decimal n = decimal_from (suc n) n

-- The number that the digits stand for.
abbrev pub read_digits : ℕ → Bytes → ℕ
read_digits acc [] = acc
read_digits acc (c ∷ cs) = read_digits (acc * 10 + (c - b'0')) cs

read_digits-snoc :
    (acc c : ℕ) (s : Bytes) → read_digits acc (s ++ c ∷ []) ≡ read_digits acc s * 10 + (c - b'0')
read_digits-snoc acc c [] = refl
read_digits-snoc acc c (d ∷ s) = read_digits-snoc (acc * 10 + (d - b'0')) c s

read_digits-decimal_from : (fuel n : ℕ) → n < fuel → read_digits 0 (decimal_from fuel n) ≡ n
read_digits-decimal_from zero n h = absurd (omega arith)
read_digits-decimal_from (suc fuel) n h = ground (
  arith,
  read_digits-decimal_from fuel (n / 10),
  read_digits-snoc 0 (b'0' + n % 10) (decimal_from fuel (n / 10)),
)

-- The digits read back as the number.
pub read_digits-decimal : (n : ℕ) → read_digits 0 (decimal n) ≡ n
unfolding decimal
read_digits-decimal n = read_digits-decimal_from (suc n) n (omega arith)

abbrev pub AreDigits : Bytes → Type 0
AreDigits = All (λ c. is_digit c ≡ true)

decimal_from-AreDigits : (fuel n : ℕ) → AreDigits (decimal_from fuel n)
decimal_from-AreDigits zero n = tt
decimal_from-AreDigits (suc fuel) n = elim (Bool-cases (ltb n 10)) [
  | inl small ↦ rw small (ground arith, tt)
  | inr large ↦ rw large (
      All-append (λ c. is_digit c ≡ true) (decimal_from fuel (n / 10)) ((b'0' + n % 10) ∷ [])
        (decimal_from-AreDigits fuel (n / 10)) (ground arith, tt))
]

pub decimal-AreDigits : (n : ℕ) → AreDigits (decimal n)
unfolding decimal
decimal-AreDigits n = decimal_from-AreDigits (suc n) n
