-- ===== src/Base/Last.antt =====
-- The last elements of a list, and reversal.
use Prim.Native.Nat.{ℕ, zero, suc, ◌+◌, ◌-◌, ◌≤◌}
use mathlib.Core.List.{
  List, [], ◌∷◌, ◌++◌, map, reverse, reverse_aux, reverse-cons, reverse-reverse,
}
use mathlib.Core.Path.{◌≡◌, refl, sym, ap, ◌∙◌}
use native.Mathlib.Omega.{arith}
use suda_gureum.Base.Lists.{length, take, drop}

sub-suc : (m n : ℕ) → m - n ≡ suc m - suc n
sub-suc m n = omega arith

module _ {ℓ} {A : Type ℓ} where
  -- The last `n` of a list, or all of it.
  abbrev pub last_of : ℕ → List A → List A
  last_of n xs = drop (length xs - n) xs

  length-reverse_aux : (xs ys : List A) → length (reverse_aux xs ys) ≡ length xs + length ys
  length-reverse_aux [] ys = omega arith
  length-reverse_aux (x ∷ xs) ys = omega (arith, length-reverse_aux xs (x ∷ ys))

  length-reverse : (xs : List A) → length (reverse xs) ≡ length xs
  length-reverse xs = omega (arith, length-reverse_aux xs [])

  drop-all : (xs : List A) → drop (length xs) xs ≡ []
  drop-all [] = refl
  drop-all (x ∷ xs) = drop-all xs

  take-nil : (n : ℕ) → take {A = A} n [] ≡ []
  take-nil zero = refl
  take-nil (suc n) = refl

  pub drop-append : (n : ℕ) (xs ys : List A) → n ≤ length xs → drop n (xs ++ ys) ≡ drop n xs ++ ys
  drop-append zero xs ys h = refl
  drop-append (suc n) [] ys h = absurd (omega (arith, h))
  drop-append (suc n) (x ∷ xs) ys h = drop-append n xs ys (omega (arith, h))

  drop-nil : (n : ℕ) → drop {A = A} n [] ≡ []
  drop-nil zero = refl
  drop-nil (suc n) = refl

  pub drop-length : (n : ℕ) (xs : List A) → n ≡ length xs → drop n xs ≡ []
  drop-length n xs h = ap (λ m. drop m xs) h ∙ drop-all xs

  -- The first of a list from behind are its last.
  reverse-take : (n : ℕ) (xs : List A) → reverse (take n xs) ≡ drop (length xs - n) (reverse xs)
  reverse-take n [] = ap reverse (take-nil n) ∙ sym (drop-nil (0 - n))
  reverse-take zero (x ∷ xs) = sym (
      drop-length (length (x ∷ xs) - 0) (reverse (x ∷ xs)) (omega (arith, length-reverse (x ∷ xs))))
  reverse-take (suc n) (x ∷ xs) =
      reverse-cons x (take n xs)
      ∙ ap (λ ys. ys ++ x ∷ []) (reverse-take n xs)
      ∙ sym (drop-append (length xs - n) (reverse xs) (x ∷ []) (omega (arith, length-reverse xs)))
      ∙ ap (λ ys. drop (length xs - n) ys) (sym (reverse-cons x xs))
      ∙ ap (λ m. drop m (reverse (x ∷ xs))) (sub-suc (length xs) n)

  pub last-reverse : (n : ℕ) (xs : List A) → reverse (take n (reverse xs)) ≡ last_of n xs
  last-reverse n xs =
      reverse-take n (reverse xs)
      ∙ ap (λ ys. drop (length (reverse xs) - n) ys) (reverse-reverse xs)
      ∙ ap (λ m. drop (m - n) xs) (length-reverse xs)

module _ {ℓ κ} {A : Type ℓ} {B : Type κ} (f : A → B) where
  pub map-reverse_aux :
      (xs ys : List A) → map f (reverse_aux xs ys) ≡ reverse_aux (map f xs) (map f ys)
  map-reverse_aux [] ys = refl
  map-reverse_aux (x ∷ xs) ys = map-reverse_aux xs (x ∷ ys)

  pub map-take : (n : ℕ) (xs : List A) → map f (take n xs) ≡ take n (map f xs)
  map-take zero xs = refl
  map-take (suc n) [] = refl
  map-take (suc n) (x ∷ xs) = ap (λ ys. f x ∷ ys) (map-take n xs)
