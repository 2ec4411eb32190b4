-- ===== src/Utility/Tests.antt =====
-- The utilities at concrete input.
use suda_gureum.Base.{
  ◌≢◌, All, true, ℕ, zero, suc, ◌+◌, ◌*◌, ◌/◌, ◌%◌, ◌≡◌, refl, ◌↔◌, Bool, ◌||◌, [], ◌∷◌, none, some,
  length, Bytes, codes, arith,
}
use suda_gureum.Base.Boost.{is_alpha, is_digit}
use suda_gureum.Utility.Base64.Decode.{decode_base64-encode_iff}
use suda_gureum.Utility.Base64.{decode_base64, ToBase64, FromBase64, is_base64, encode_base64}
use suda_gureum.Utility.Uri.{decode_uri_component, from_hex_char, decode_from}

-- Letters and digits are left as they are.
abbrev pub unreserved : ℕ → Bool
unreserved c = is_alpha c || is_digit c

-- An incomplete escape at the end is dropped, and a bad one throws.
decode_incomplete : decode_uri_component (codes "a%4") ≡ some (codes "a")
unfolding decode_uri_component decode_from from_hex_char
decode_incomplete = refl

decode_bad : decode_uri_component (codes "%zz") ≡ none
unfolding decode_uri_component decode_from from_hex_char
decode_bad = refl

abbrev letters : ℕ → Bytes
letters zero = []
letters (suc n) = b'A' ∷ letters n

abbrev length-letters : (n : ℕ) → length (letters n) ≡ n
length-letters zero = refl
length-letters (suc n) = omega (arith, length-letters n)

abbrev letters-IsBase64 : (n : ℕ) → All (λ c. is_base64 c ≡ true) (letters n)
letters-IsBase64 zero = tt
letters-IsBase64 (suc n) = (refl, letters-IsBase64 n)

-- The right number of characters, all of them `A`.
abbrev pub only_letters : ToBase64
only_letters = record {
  characters = λ bytes. letters ((length bytes * 4 + 2) / 3);
  characters_lem = λ bytes. length-letters ((length bytes * 4 + 2) / 3);
  characters_alphabet_lem = λ bytes. letters-IsBase64 ((length bytes * 4 + 2) / 3);
}

-- The right number of bytes.
abbrev pub as_many : FromBase64
as_many = record {
  bytes = λ s. some (letters (length s * 6 / 8));
  bytes_lem = λ s h. (letters (length s * 6 / 8), refl, length-letters (length s * 6 / 8));
}

abbrev sha1_digest : Bytes
sha1_digest = codes "0123456789abcdefghij"

decode_base64-encode_iff_example :
    (r : Bytes) × (decode_base64 as_many (encode_base64 only_letters (codes "key")) ≡ some r)
    × ((length r ≡ length (codes "key")) ↔ (
        (length (codes "key") % 9 ≢ 3)
        × ((length (codes "key") % 9 ≢ 5) × (length (codes "key") % 9 ≢ 6))))
decode_base64-encode_iff_example =
    decode_base64-encode_iff only_letters as_many (codes "key") (omega arith)
