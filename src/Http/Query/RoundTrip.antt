-- ===== src/Http/Query/RoundTrip.antt =====
-- Encoded names and values read back, in order.
use suda_gureum.Base.{
  ℕ, ◌/◌, ◌%◌, ◌<◌, ◌⊎◌, ◌≡◌, refl, ap, Bool, true, false, ◌||◌, List, [], ◌∷◌, ◌++◌, map, some,
  ◌==◌, Bytes, All, All-append, ◌∙◌, is_empty, split_on, split_on-append, split_on_whole,
  append_assoc, arith, Bool-cases, inl, inr,
}
use suda_gureum.Http.Query.{cut, entry_of, is_separator, pieces_loop, parse_query_string}
use suda_gureum.Utility.Uri.RoundTrip.{encode, decode_query_string-encode}
use suda_gureum.Utility.Uri.{replace_plus, hex_digit}

-- The bytes that the encoder may leave as they are.
abbrev pub IsSafe : (ℕ → Bool) → Type 0
IsSafe plain =
    (plain b'%' ≡ false) × (plain b'=' ≡ false) × (plain b'&' ≡ false) × (plain b';' ≡ false)

abbrev pub IsBytes : Bytes → Type 0
IsBytes = All (λ b. b < 256)

abbrev pub encode_entry : (ℕ → Bool) → Bytes × Bytes → Bytes
encode_entry plain (name, value) = encode plain name ++ b'=' ∷ encode plain value

-- The entries, joined by `&`.
abbrev pub encode_entries : (ℕ → Bool) → Bytes × Bytes → List (Bytes × Bytes) → Bytes
encode_entries plain e [] = encode_entry plain e
encode_entries plain e (f ∷ fs) = encode_entry plain e ++ b'&' ∷ encode_entries plain f fs

abbrev pub plus_replaced : Bytes × Bytes → Bytes × Bytes
plus_replaced (name, value) = (replace_plus name, replace_plus value)

abbrev stops : ℕ → Bool
stops c = (c == b'=') || is_separator c

abbrev Runs : Bytes → Type 0
Runs = All (λ c. stops c ≡ false)

cut-Runs : (w rest : Bytes) → Runs w → cut b'=' (w ++ b'=' ∷ rest) ≡ some (w, rest)
cut-Runs [] rest h = refl
cut-Runs (c ∷ w) rest (hc, h) = ground (arith, cut-Runs w rest h)

Runs→pieces : (w : Bytes) → Runs w → All (λ c. is_separator c ≡ false) w
Runs→pieces [] h = tt
Runs→pieces (c ∷ w) (hc, h) = (ground arith, Runs→pieces w h)

hex_digit-stops : (n : ℕ) → n < 16 → stops (hex_digit n) ≡ false
hex_digit-stops n small = ground arith

module _ (plain : ℕ → Bool) (safe : IsSafe plain) where
  plain-stops : (c : ℕ) → plain c ≡ true → stops c ≡ false
  plain-stops c kept = elim (Bool-cases (stops c)) [
    | inr runs ↦ runs
    | inl stop ↦ absurd (go (ground arith))
  ]
    where
      go : (c ≡ b'=') ⊎ ((c ≡ b'&') ⊎ (c ≡ b';')) → ⊥
      go (inl e) = ground (arith, ap plain e, safe)
      go (inr (inl e)) = ground (arith, ap plain e, safe)
      go (inr (inr e)) = ground (arith, ap plain e, safe)

  encode-Runs : (bs : Bytes) → IsBytes bs → Runs (encode plain bs)
  encode-Runs [] h = tt
  encode-Runs (b ∷ bs) (hb, h) = ground (
    arith,
    plain-stops b,
    hex_digit-stops (b / 16) (omega arith),
    hex_digit-stops (b % 16) (omega arith),
    encode-Runs bs h,
  )

  entry_of-encode :
      (name value : Bytes)
      → IsBytes name
      → IsBytes value
      → entry_of (encode_entry plain (name, value)) ≡ some (plus_replaced (name, value))
  unfolding entry_of
  entry_of-encode name value hn hv = ground (
    arith,
    cut-Runs (encode plain name) (encode plain value) (encode-Runs name hn),
    decode_query_string-encode plain name hn safe.0,
    decode_query_string-encode plain value hv safe.0,
  )

  encode_entry-pieces :
      (e : Bytes × Bytes)
      → IsBytes e.0
      → IsBytes e.1
      → All (λ c. is_separator c ≡ false) (encode_entry plain e)
  encode_entry-pieces (name, value) hn hv =
      All-append (λ c. is_separator c ≡ false) (encode plain name) (b'=' ∷ encode plain value)
        (Runs→pieces (encode plain name) (encode-Runs name hn))
        (refl, Runs→pieces (encode plain value) (encode-Runs value hv))

  split_on-encode :
      (e : Bytes × Bytes) (fs : List (Bytes × Bytes))
      → All (λ x. IsBytes x.0 × IsBytes x.1) (e ∷ fs)
      → split_on is_separator (encode_entries plain e fs) ≡ map (encode_entry plain) (e ∷ fs)
  split_on-encode e [] (h, hs) =
      split_on_whole is_separator (encode_entry plain e) (encode_entry-pieces e h.0 h.1)
  split_on-encode e (f ∷ fs) (h, hs) =
      split_on-append is_separator (encode_entry plain e) b'&' (encode_entries plain f fs)
        (encode_entry-pieces e h.0 h.1) refl
      ∙ ap (λ xs. encode_entry plain e ∷ xs) (split_on-encode f fs hs)

  encode_entry-filled : (e : Bytes × Bytes) → is_empty (encode_entry plain e) ≡ false
  encode_entry-filled (name, value) = go (encode plain name)
    where
      go : (w : Bytes) → is_empty (w ++ b'=' ∷ encode plain value) ≡ false
      go [] = refl
      go (c ∷ w) = refl

  pieces_loop-encode :
      (e : Bytes × Bytes) (fs queries : List (Bytes × Bytes))
      → All (λ x. IsBytes x.0 × IsBytes x.1) (e ∷ fs)
      → pieces_loop (map (encode_entry plain) (e ∷ fs)) queries
        ≡ record { queries = queries ++ map plus_replaced (e ∷ fs); ok = true }
  unfolding pieces_loop
  pieces_loop-encode e [] queries (h, hs) = ground (arith, entry_of-encode e.0 e.1 h.0 h.1)
  pieces_loop-encode e (f ∷ fs) queries (h, hs) = ground (
    arith,
    entry_of-encode e.0 e.1 h.0 h.1,
    encode_entry-filled e,
    pieces_loop-encode f fs (queries ++ plus_replaced e ∷ []) hs,
    append_assoc queries (plus_replaced e ∷ []) (map plus_replaced (f ∷ fs)),
  )

  -- Names and values written by any encoder that leaves none of `%`, `=`, `&` and `;` as it is,
  -- joined by `=` and `&`: the entries are inserted in order behind those that are there, each with
  -- every `+` of it turned into a space, an encoded one included.
  pub parse_query_string-encode :
      (e : Bytes × Bytes) (fs queries : List (Bytes × Bytes))
      → All (λ x. IsBytes x.0 × IsBytes x.1) (e ∷ fs)
      → parse_query_string (encode_entries plain e fs) queries
        ≡ record { queries = queries ++ map plus_replaced (e ∷ fs); ok = true }
  unfolding parse_query_string
  parse_query_string-encode e fs queries h =
      rw (split_on-encode e fs h, pieces_loop-encode e fs queries h)
