-- ===== src/Utility/Base64.antt =====
-- `encodeBase64` (Utility.h). The characters come from Boost's iterators, which are a parameter with
-- their documented number of characters: one for each six bits begun.
pub mod Decode
use suda_gureum.Base.Boost.{is_alpha, is_digit}
use suda_gureum.Base.{
  Bool, true, ◌||◌, ◌==◌, All, Option, none, some, take, drop, ltb, is_empty, if◌then◌else◌, ℕ,
  zero, suc, ◌+◌, ◌-◌, ◌*◌, ◌/◌, ◌%◌, ◌≡◌, refl, ◌↔◌, ◌⊎◌, [], ◌∷◌, ◌++◌, length, length-append,
  Bytes, arith,
}

-- The characters that stand for six bits.
abbrev pub is_base64 : ℕ → Bool
is_base64 c = is_alpha c || (is_digit c || (c == b'+' || c == b'/'))

pub record ToBase64 : Type 0 where
  pub characters : Bytes → Bytes
  pub characters_lem : (bytes : Bytes) → length (characters bytes) ≡ (length bytes * 4 + 2) / 3
  pub characters_alphabet_lem : (bytes : Bytes) → All (λ c. is_base64 c ≡ true) (characters bytes)

-- The other way: a byte for every eight bits; `none` is the exception for any other character.
pub record FromBase64 : Type 0 where
  pub bytes : Bytes → Option Bytes
  pub bytes_lem :
      (s : Bytes)
      → All (λ c. is_base64 c ≡ true) s
      → (r : Bytes) × (bytes s ≡ some r) × (length r ≡ length s * 6 / 8)

abbrev pub pads : ℕ → Bytes
pads zero = []
pads (suc n) = b'=' ∷ pads n

-- `(3 - encoded.size() % 3) % 3`
abbrev pub pad_len : ℕ → ℕ
pad_len size = (3 - size % 3) % 3

pub length-pads : (n : ℕ) → length (pads n) ≡ n
length-pads zero = refl
length-pads (suc n) = omega (arith, length-pads n)

module _ (to_base64 : ToBase64) where
  unfoldable pub encode_base64 : Bytes → Bytes
  encode_base64 bytes =
      let encoded : Bytes = to_base64.characters bytes in encoded ++ pads (pad_len (length encoded))

  pub length-encode_base64 :
      (bytes : Bytes)
      → length (encode_base64 bytes)
        ≡ (length bytes * 4 + 2) / 3 + pad_len ((length bytes * 4 + 2) / 3)
  unfolding encode_base64
  length-encode_base64 bytes = ground (
    arith,
    to_base64.characters_lem bytes,
    length-append (to_base64.characters bytes)
        (pads (pad_len (length (to_base64.characters bytes)))),
    length-pads (pad_len (length (to_base64.characters bytes))),
  )

  -- The text consists of groups of four, as Base64 with padding does, exactly when the number of
  -- bytes leaves 0, 7 or 8 by 9: the padding is computed from the number of characters where it
  -- follows from the number of bytes.
  pub encode_base64-groups_iff :
      (bytes : Bytes)
      → (length (encode_base64 bytes) % 4 ≡ 0)
        ↔ ((length bytes % 9 ≡ 0) ⊎ ((length bytes % 9 ≡ 7) ⊎ (length bytes % 9 ≡ 8)))
  encode_base64-groups_iff bytes = ground (arith, length-encode_base64 bytes)

-- `std::count` and `std::replace` over the last two characters.
abbrev pub count_equals : Bytes → ℕ
count_equals [] = 0
count_equals (c ∷ cs) = let rest : ℕ = count_equals cs in if c == b'=' then suc rest else rest

abbrev pub equals_replaced : Bytes → Bytes
equals_replaced [] = []
equals_replaced (c ∷ cs) = (if c == b'=' then b'A' else c) ∷ equals_replaced cs

abbrev pub without_last : ℕ → Bytes → Bytes
without_last n bytes = take (length bytes - n) bytes

abbrev pub unpadded : ℕ → Option Bytes → Option Bytes
unpadded n none = none
unpadded n (some decoded) = some (without_last n decoded)

module _ (from_base64 : FromBase64) where
  -- `none` is an exception.
  pub decode_base64 : Bytes → Option Bytes
  decode_base64 encoded =
      let size : ℕ = length encoded in
      let pad_len : ℕ = count_equals (drop (size - 2) encoded) in
      if is_empty encoded
      then some []
      else if ltb size 4
      then none
      else unpadded pad_len (
          from_base64.bytes
            (take (size - pad_len) encoded ++ equals_replaced (drop (size - pad_len) encoded)))
