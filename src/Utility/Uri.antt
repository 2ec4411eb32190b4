-- ===== src/Utility/Uri.antt =====
-- `decodeURIComponent`, `decodeQueryString` and the digits of `hashSha1ToHexString` (Utility.cpp).
pub mod RoundTrip
use suda_gureum.Base.{
  ℕ, ◌+◌, ◌-◌, ◌*◌, ◌/◌, ◌%◌, Bool, true, false, ◌&&◌, List, [], ◌∷◌, ◌++◌, Option, none, some,
  ◌==◌, leb, if◌then◌else◌, Bytes,
}

-- The table of `fromHexChar`; `none` is -1.
unfoldable pub from_hex_char : ℕ → Option ℕ
from_hex_char ch =
    if leb b'0' ch && leb ch b'9'
    then some (ch - b'0')
    else if leb b'A' ch && leb ch b'F'
    then some (10 + (ch - b'A'))
    else if leb b'a' ch && leb ch b'f'
    then some (10 + (ch - b'a'))
    else none

-- `reverted` has its upper half in the third state, from `<< 4` of a digit.
pub data State : Type 0 where
  normal in_percent_upper : State
  in_percent_lower : (reverted : ℕ) → State

abbrev prepend : ℕ → Option Bytes → Option Bytes
prepend ch none = none
prepend ch (some output) = some (ch ∷ output)

-- The rounds from a state on; `none` when `parseHex` throws. `|=` adds the lower half.
unfoldable pub decode_from : State → Bytes → Option Bytes
unfolding from_hex_char
decode_from _ [] = some []
decode_from normal (ch ∷ str) =
    if ch == b'%' then decode_from in_percent_upper str else prepend ch (decode_from normal str)
decode_from in_percent_upper (ch ∷ str) = elim (from_hex_char ch) [
  | none ↦ none
  | some upper ↦ decode_from (in_percent_lower (upper * 16)) str
]
decode_from (in_percent_lower reverted) (ch ∷ str) = elim (from_hex_char ch) [
  | none ↦ none
  | some lower ↦ prepend (reverted + lower) (decode_from normal str)
]

unfoldable pub decode_uri_component : Bytes → Option Bytes
decode_uri_component = decode_from normal

-- `std::replace` of `+` by a space
abbrev pub replace_plus : Bytes → Bytes
replace_plus [] = []
replace_plus (ch ∷ str) = (if ch == b'+' then b' ' else ch) ∷ replace_plus str

unfoldable pub decode_query_string : Bytes → Option Bytes
decode_query_string str = elim (decode_uri_component str) [
  | none ↦ none
  | some res ↦ some (replace_plus res)
]

-- `HexDigits`
abbrev pub hex_digit : ℕ → ℕ
hex_digit n = if leb n 9 then b'0' + n else b'a' + (n - 10)

-- The loop of `hashSha1ToHexString` over the digest: `(b & 0xF0) >> 4` and `b & 0x0F`.
pub to_hex_string : Bytes → Bytes
to_hex_string [] = []
to_hex_string (b ∷ digest) = hex_digit (b / 16) ∷ hex_digit (b % 16) ∷ to_hex_string digest
