-- ===== src/Utility/Uri/RoundTrip.antt =====
-- Percent-encoded text reads back.
use suda_gureum.Base.{
  ℕ, ◌+◌, ◌*◌, ◌/◌, ◌%◌, ◌<◌, ◌≡◌, refl, ap, length, Bool, false, [], ◌∷◌, Option, none, some, ◌==◌,
  if◌then◌else◌, Bytes, All, arith, Bool-cases, inl, inr,
}
use suda_gureum.Utility.Uri.{
  from_hex_char, decode_from, decode_uri_component, decode_query_string, replace_plus, hex_digit,
  to_hex_string,
}

-- An encoder that writes the bytes that pass the test as they are and the others in hexadecimal.
abbrev pub encode : (ℕ → Bool) → Bytes → Bytes
encode plain [] = []
encode plain (b ∷ bs) =
    if plain b
    then b ∷ encode plain bs
    else b'%' ∷ hex_digit (b / 16) ∷ hex_digit (b % 16) ∷ encode plain bs

from_hex_char-hex_digit : (n : ℕ) → n < 16 → from_hex_char (hex_digit n) ≡ some n
unfolding from_hex_char
from_hex_char-hex_digit n small = ground arith

halves : (b : ℕ) → b / 16 * 16 + b % 16 ≡ b
halves b = omega arith

module _ (plain : ℕ → Bool) where
  -- Whatever encoder wrote the string, as long as it does not leave `%` as it is, decoding gives
  -- the bytes back.
  pub decode_uri_component-encode :
      (bs : Bytes)
      → All (λ b. b < 256) bs
      → plain b'%' ≡ false
      → decode_uri_component (encode plain bs) ≡ some bs
  unfolding decode_uri_component decode_from
  decode_uri_component-encode [] h e = refl
  decode_uri_component-encode (b ∷ bs) (hb, h) e = elim (Bool-cases (plain b)) [
    | inl kept ↦ elim (Bool-cases (b == b'%')) [
      | inl percent ↦
          let same : b ≡ b'%' = ground arith in absurd (ground (arith, kept, e, ap plain same))
      | inr other ↦ ground (arith, kept, other, decode_uri_component-encode bs h e)
    ]
    | inr escaped ↦ ground (
      arith,
      escaped,
      from_hex_char-hex_digit (b / 16) (omega arith),
      from_hex_char-hex_digit (b % 16) (omega arith),
      halves b,
      decode_uri_component-encode bs h e,
    )
  ]

  -- A query string reads back with every `+` turned into a space, an encoded one included.
  pub decode_query_string-encode :
      (bs : Bytes)
      → All (λ b. b < 256) bs
      → plain b'%' ≡ false
      → decode_query_string (encode plain bs) ≡ some (replace_plus bs)
  unfolding decode_query_string
  decode_query_string-encode bs h e = ground (arith, decode_uri_component-encode bs h e)

-- A reader of pairs of digits.
abbrev pub from_digits : Bytes → Option Bytes
from_digits (upper ∷ lower ∷ str) = elim (from_hex_char upper) [
  | none ↦ none
  | some u ↦ elim (from_hex_char lower) [
    | none ↦ none
    | some l ↦ elim (from_digits str) [ none ↦ none | some bs ↦ some ((u * 16 + l) ∷ bs) ]
  ]
]
from_digits [] = some []
from_digits (c ∷ []) = none

-- Two digits for each byte of the digest, which read back as the digest by `fromHexChar`.
pub from_digits-to_hex_string :
    (digest : Bytes)
    → All (λ b. b < 256) digest
    → (from_digits (to_hex_string digest) ≡ some digest)
      × (length (to_hex_string digest) ≡ 2 * length digest)
unfolding to_hex_string
from_digits-to_hex_string [] h = (refl, refl)
from_digits-to_hex_string (b ∷ digest) (hb, h) = ground (
  arith,
  from_hex_char-hex_digit (b / 16) (omega arith),
  from_hex_char-hex_digit (b % 16) (omega arith),
  halves b,
  from_digits-to_hex_string digest h,
)
