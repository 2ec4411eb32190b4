-- ===== src/Base/Result.antt =====
-- Exceptions as values: a call returns or throws.
use mathlib.Core.Path.{◌≡◌, refl, ap, ◌∙◌}
use native.Mathlib.Omega.{arith}
use suda_gureum.Base.Text.{Bytes}

-- What is thrown, by the clauses that catch it, with the text of `what()`.
pub data Exception : Type 0 where
  system_error runtime_error std_exception : Bytes → Exception
  unknown : Exception

-- What a call comes to; `endless` is a loop that used up its fuel.
pub data Result {ℓ} (T : Type ℓ) : Type ℓ where
  raised : Exception → Result T
  endless : Result T
  ok : T → Result T

infixl 5 ◌>>=◌
abbrev pub ◌>>=◌ {κ ℓ} : {S : Type κ} {T : Type ℓ} → Result S → (S → Result T) → Result T
◌>>=◌ call rest = elim call [ raised e ↦ raised e | endless ↦ endless | ok value ↦ rest value ]

-- A call and the rest that return: what the call returned, the rest from there, and the call.
pub >>=-eq-ok {κ ℓ} :
    {S : Type κ} {T : Type ℓ} {result : T} (call : Result S) (rest : S → Result T)
    → (call >>= rest) ≡ ok result
    → (value : S) × (rest value ≡ ok result) × (call ≡ ok value)
>>=-eq-ok (raised e) rest returns = ground (arith, returns)
>>=-eq-ok endless rest returns = ground (arith, returns)
>>=-eq-ok (ok value) rest returns = (value, returns, refl)

pub bind-ok {ℓ κ} :
    {A : Type ℓ} {B : Type κ} (m : Result A) (f : A → Result B) {a : A} {b : B}
    → m ≡ ok a
    → f a ≡ ok b
    → (m >>= f) ≡ ok b
bind-ok m f e h = ap (λ n. n >>= f) e ∙ h

pub raised-ne-ok {ℓ} :
    {A : Type ℓ} (e : Exception) (a : A) → ¬ (◌≡◌ {A = Result A} (raised e) (ok a))
raised-ne-ok e a h = ground (arith, h)

abbrev pub value_or {ℓ} : {A : Type ℓ} → A → Result A → A
value_or d (ok a) = a
value_or d (raised e) = d
value_or d endless = d
