-- ===== src/Scrypt.antt =====
-- `Scrypt::crypt` and `Scrypt::check` (SCrypt.cpp). `crypto_scrypt` is a copy of another project, and
-- with `std::stoul` a parameter; the salt is an argument.
pub mod Refused
use Prim.Native.Nat.{bit_or, bit_xor}
use suda_gureum.Base.Boost.{Boost}
use suda_gureum.Base.{
  ℕ, ◌*◌, ◌/◌, ◌%◌, ◌^◌, Bool, not, ◌||◌, List, [], ◌∷◌, ◌++◌, Option, none, some, ◌==◌, ltb,
  if◌then◌else◌, length, Bytes, bytes_eq, codes,
}
use suda_gureum.Utility.Base64.{ToBase64, FromBase64, encode_base64, decode_base64}

pub record Library : Type 0 where
  pub boost : Boost
  pub to_base64 : ToBase64
  pub from_base64 : FromBase64
  -- `std::stoul` with base 16; `none` is an exception
  pub stoul_hex : Bytes → Option ℕ
  -- password, salt, N, r, p and the length of the result; `none` is a failure
  pub crypto_scrypt : Bytes → Bytes → ℕ → ℕ → ℕ → ℕ → Option Bytes

abbrev pub log2_n : ℕ
log2_n = 14

abbrev pub param_str : Bytes
param_str = codes "0e0801"

abbrev pub buffer_len : ℕ
buffer_len = 64

abbrev pub is_dollar : ℕ → Bool
is_dollar c = c == b'$'

-- What `check` does: it returns, throws, or shifts by more than a word has bits.
pub data Checked : Type 0 where
  checked : Bool → Checked
  raised : Checked
  undefined : Checked

-- The loop over the bytes of `derived0`; `derived1` has as many.
abbrev pub differences : ℕ → Bytes → Bytes → ℕ
differences result (a ∷ derived0) (b ∷ derived1) =
    differences (bit_or result (bit_xor a b)) derived0 derived1
differences result _ _ = result

module _ (library : Library) where
  abbrev pub hash_of : Bytes → Bytes → Bytes
  hash_of salt buffer =
      codes "$s1$"
      ++ (param_str
          ++ (b'$'
              ∷ (encode_base64 library.to_base64 salt
                  ++ (b'$' ∷ encode_base64 library.to_base64 buffer))))

  -- The string is empty when the hash cannot be computed.
  pub crypt : Bytes → Bytes → Bytes
  crypt salt password = elim (library.crypto_scrypt password salt (2 ^ log2_n) 8 1 buffer_len) [
    | none ↦ []
    | some buffer ↦ hash_of salt buffer
  ]

  abbrev pub compared : Bytes → Option Bytes → Checked
  compared derived0 none = raised
  compared derived0 (some derived1) = checked (differences 0 derived0 derived1 == 0)

  -- From `derived0` on.
  abbrev pub derived : Bytes → ℕ → Bytes → Bytes → Checked
  derived password param salt derived0 =
      if ltb buffer_len (length derived0)
      then raised
      else if ltb 63 (param / 65536)
      then undefined
      else compared derived0 (
          library.crypto_scrypt password salt (2 ^ (param / 65536)) ((param / 256) % 256)
            (param % 256) (length derived0))

  abbrev pub decoded : Bytes → Option ℕ → Option Bytes → Option Bytes → Checked
  decoded password (some value) (some salt) (some derived0) =
      derived password (value % 4294967296) salt derived0
  decoded password _ _ _ = raised

  abbrev pub check_parts : Bytes → List Bytes → Checked
  check_parts password (empty ∷ name ∷ param ∷ salt ∷ hash ∷ []) =
      if not (bytes_eq name (codes "s0")) || not (bytes_eq name (codes "s1"))
      then raised
      else decoded password (library.stoul_hex param) (decode_base64 library.from_base64 salt)
          (decode_base64 library.from_base64 hash)
  check_parts password _ = raised

  pub check : Bytes → Bytes → Checked
  check password hash = check_parts password (library.boost.split is_dollar hash)
