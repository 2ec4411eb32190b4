-- ===== src/Scrypt/Refused.antt =====
-- What `check` makes of the strings that `crypt` writes.
use suda_gureum.Base.{
  ℕ, zero, suc, ◌^◌, All-append, ◌≡◌, refl, ap, ◌∙◌, true, false, not, ◌||◌, inl, inr, Bool-cases,
  List, [], ◌∷◌, some, All, Bytes, bytes_eq, bytes_eq_iff, codes, split_on, split_on-append,
  split_on_whole, arith,
}
use suda_gureum.Scrypt.{
  Library, log2_n, buffer_len, param_str, is_dollar, raised, hash_of, crypt, check_parts, check,
}
use suda_gureum.Utility.Base64.{is_base64, encode_base64, pads}

-- No string is both `s0` and `s1`.
name-refused :
    (name : Bytes) → (not (bytes_eq name (codes "s0")) || not (bytes_eq name (codes "s1"))) ≡ true
name-refused name = elim (Bool-cases (bytes_eq name (codes "s0"))) [
  | inr other ↦ ground (arith, other)
  | inl named ↦ elim (Bool-cases (bytes_eq name (codes "s1"))) [
    | inr other ↦ ground (arith, other)
    | inl both ↦ absurd (
        ground (arith, bytes_eq_iff name (codes "s0"), bytes_eq_iff name (codes "s1"), named, both))
  ]
]

is_base64-is_dollar :
    (s : Bytes) → All (λ c. is_base64 c ≡ true) s → All (λ c. is_dollar c ≡ false) s
is_base64-is_dollar [] h = tt
is_base64-is_dollar (c ∷ s) (hc, h) = (ground (arith, hc), is_base64-is_dollar s h)

module _ (library : Library) where
  pub check_parts-raised :
      (password : Bytes) (parts : List Bytes) → check_parts library password parts ≡ raised
  check_parts-raised password [] = refl
  check_parts-raised password (a ∷ []) = refl
  check_parts-raised password (a ∷ b ∷ []) = refl
  check_parts-raised password (a ∷ b ∷ c ∷ []) = refl
  check_parts-raised password (a ∷ b ∷ c ∷ d ∷ []) = refl
  check_parts-raised password (a ∷ b ∷ c ∷ d ∷ e ∷ []) = rw (name-refused b) refl
  check_parts-raised password (a ∷ b ∷ c ∷ d ∷ e ∷ f ∷ rest) = refl

  pub check-raised : (password hash : Bytes) → check library password hash ≡ raised
  unfolding check
  check-raised password hash = check_parts-raised password (library.boost.split is_dollar hash)

  pads-is_dollar : (n : ℕ) → All (λ c. is_dollar c ≡ false) (pads n)
  pads-is_dollar zero = tt
  pads-is_dollar (suc n) = (refl, pads-is_dollar n)

  encode_base64-is_dollar :
      (bytes : Bytes) → All (λ c. is_dollar c ≡ false) (encode_base64 library.to_base64 bytes)
  unfolding encode_base64
  encode_base64-is_dollar bytes =
      All-append (λ c. is_dollar c ≡ false) (library.to_base64.characters bytes) _
        (is_base64-is_dollar (library.to_base64.characters bytes)
          (library.to_base64.characters_alphabet_lem bytes))
        (pads-is_dollar _)

  crypt-hash_of :
      (salt password buffer : Bytes)
      → library.crypto_scrypt password salt (2 ^ log2_n) 8 1 buffer_len ≡ some buffer
      → crypt library salt password ≡ hash_of library salt buffer
  unfolding crypt
  crypt-hash_of salt password buffer h = ground (arith, h)

  split_on-hash_of :
      (salt buffer : Bytes)
      → split_on is_dollar (hash_of library salt buffer)
        ≡ []
          ∷ codes "s1"
          ∷ param_str
          ∷ encode_base64 library.to_base64 salt
          ∷ encode_base64 library.to_base64 buffer
          ∷ []
  split_on-hash_of salt buffer =
      ap (λ parts. [] ∷ codes "s1" ∷ param_str ∷ parts)
        (split_on-append is_dollar (encode_base64 library.to_base64 salt) b'$'
            (encode_base64 library.to_base64 buffer) (encode_base64-is_dollar salt) refl
          ∙ ap (λ parts. encode_base64 library.to_base64 salt ∷ parts)
              (split_on_whole is_dollar (encode_base64 library.to_base64 buffer)
                (encode_base64-is_dollar buffer)))

  -- A password whose hash can be computed: the string that `crypt` stores consists of five parts in
  -- the format `s1`, with the parameters, the salt and the hash, and `check` refuses it with an
  -- exception for every password, the right one included.
  check-crypt :
      (salt password tried buffer : Bytes)
      → library.crypto_scrypt password salt (2 ^ log2_n) 8 1 buffer_len ≡ some buffer
      → (library.boost.split is_dollar (crypt library salt password)
          ≡ []
            ∷ codes "s1"
            ∷ param_str
            ∷ encode_base64 library.to_base64 salt
            ∷ encode_base64 library.to_base64 buffer
            ∷ [])
        × (check library tried (crypt library salt password) ≡ raised)
  check-crypt salt password tried buffer h = (
    ap (library.boost.split is_dollar) (crypt-hash_of salt password buffer h)
        ∙ library.boost.split_lem is_dollar (hash_of library salt buffer)
        ∙ split_on-hash_of salt buffer,
    check-raised tried (crypt library salt password),
  )
