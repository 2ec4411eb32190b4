-- ===== src/Utility/Base64/Decode.antt =====
-- What `decodeBase64` makes of the text of `encodeBase64`.
use suda_gureum.Base.Last.{drop-append}
use suda_gureum.Base.{
  ℕ, zero, suc, ◌+◌, ◌-◌, ◌*◌, ◌/◌, ◌%◌, ◌≤◌, ◌≡◌, ◌≢◌, refl, ap, ◌∙◌, ◌↔◌, true, false, [], ◌∷◌,
  ◌++◌, some, ltb, All, All-append, length, length-append, take, drop, Bytes, is_empty, arith,
}
use suda_gureum.Utility.Base64.{
  ToBase64, FromBase64, is_base64, pads, pad_len, length-pads, count_equals, equals_replaced,
  without_last, unpadded, encode_base64, decode_base64,
}

abbrev IsBase64 : Bytes → Type 0
IsBase64 = All (λ c. is_base64 c ≡ true)

IsBase64-drop : (n : ℕ) (s : Bytes) → IsBase64 s → IsBase64 (drop n s)
IsBase64-drop zero s h = h
IsBase64-drop (suc n) [] h = tt
IsBase64-drop (suc n) (c ∷ s) (hc, h) = IsBase64-drop n s h

count_equals-append : (s t : Bytes) → IsBase64 s → count_equals (s ++ t) ≡ count_equals t
count_equals-append [] t h = refl
count_equals-append (c ∷ s) t (hc, h) = ground (arith, hc, count_equals-append s t h)

count_equals-pads : (n : ℕ) → count_equals (pads n) ≡ n
count_equals-pads zero = refl
count_equals-pads (suc n) = ap suc (count_equals-pads n)

take-length : (s t : Bytes) → take (length s) (s ++ t) ≡ s
take-length [] t = refl
take-length (c ∷ s) t = ap (λ r. c ∷ r) (take-length s t)

drop-length_append : (s t : Bytes) → drop (length s) (s ++ t) ≡ t
drop-length_append [] t = refl
drop-length_append (c ∷ s) t = drop-length_append s t

equals_replaced-IsBase64 : (n : ℕ) → IsBase64 (equals_replaced (pads n))
equals_replaced-IsBase64 zero = tt
equals_replaced-IsBase64 (suc n) = (refl, equals_replaced-IsBase64 n)

length-equals_replaced : (s : Bytes) → length (equals_replaced s) ≡ length s
length-equals_replaced [] = refl
length-equals_replaced (c ∷ s) = ap suc (length-equals_replaced s)

filled : (s t : Bytes) → 1 ≤ length s → is_empty (s ++ t) ≡ false
filled [] t h = absurd (omega (arith, h))
filled (c ∷ s) t h = refl

length-take_le : (n : ℕ) (s : Bytes) → n ≤ length s → length (take n s) ≡ n
length-take_le zero s h = refl
length-take_le (suc n) [] h = absurd (omega (arith, h))
length-take_le (suc n) (c ∷ s) h = omega (arith, length-take_le n s (omega (arith, h)))

module _ (from_base64 : FromBase64) where
  decode_base64-unpadded :
      (text w : Bytes) (p : ℕ)
      → is_empty text ≡ false
      → 4 ≤ length text
      → count_equals (drop (length text - 2) text) ≡ p
      → take (length text - p) text ++ equals_replaced (drop (length text - p) text) ≡ w
      → decode_base64 from_base64 text ≡ unpadded p (from_base64.bytes w)
  unfolding decode_base64
  decode_base64-unpadded text w p nonempty long count arg =
      rw (nonempty, long_enough, count, arg) refl
    where
      long_enough : ltb (length text) 4 ≡ false
      long_enough = ground (arith, long)

  count_equals-padded :
      (s : Bytes) (p k : ℕ) → IsBase64 s → k ≤ length s → count_equals (drop k (s ++ pads p)) ≡ p
  count_equals-padded s p k h small =
      ap count_equals (drop-append k s (pads p) small)
      ∙ count_equals-append (drop k s) (pads p) (IsBase64-drop k s h)
      ∙ count_equals-pads p

  padded-replaced :
      (s : Bytes) (p n : ℕ)
      → n ≡ length s
      → take n (s ++ pads p) ++ equals_replaced (drop n (s ++ pads p))
        ≡ s ++ equals_replaced (pads p)
  padded-replaced s p n e =
      ap (λ m. take m (s ++ pads p) ++ equals_replaced (drop m (s ++ pads p))) e
      ∙ ap (λ t. t ++ equals_replaced (drop (length s) (s ++ pads p))) (take-length s (pads p))
      ∙ ap (λ t. s ++ equals_replaced t) (drop-length_append s (pads p))

  length-padded : (s : Bytes) (p : ℕ) → length (s ++ pads p) ≡ length s + p
  length-padded s p = omega (arith, length-append s (pads p), length-pads p)

  -- The text of at least four characters with at most two signs of padding.
  decode_base64-padded :
      (s : Bytes) (p : ℕ)
      → IsBase64 s
      → p ≤ 2
      → 4 ≤ length s
      → (r : Bytes) × (decode_base64 from_base64 (s ++ pads p) ≡ some r)
        × (length r ≡ (length s + p) * 6 / 8 - p)
  decode_base64-padded s p h few long =
      let w : Bytes = s ++ equals_replaced (pads p) in
      let (r, found, size) = from_base64.bytes_lem w (
        All-append (λ c. is_base64 c ≡ true) s (equals_replaced (pads p)) h
          (equals_replaced-IsBase64 p)) in
      (
        without_last p r,
        decode_base64-unpadded (s ++ pads p) w p (filled s (pads p) (omega (arith, long)))
              (omega (arith, long, length-padded s p))
              (count_equals-padded s p (length (s ++ pads p) - 2) h
                (omega (arith, long, few, length-padded s p)))
              (padded-replaced s p (length (s ++ pads p) - p) (omega (arith, length-padded s p)))
            ∙ ap (unpadded p) found,
        length-take_le (length r - p) r (omega arith)
            ∙ omega (
              arith,
              size,
              length-append s (equals_replaced (pads p)),
              length-equals_replaced (pads p),
              length-pads p,
            ),
      )

module _ (to_base64 : ToBase64) (from_base64 : FromBase64) where
  -- The text of three bytes or more, with whatever iterators keep to their number of bytes: it is
  -- decoded, and to as many bytes as it was encoded from exactly when their number does not leave 3, 5
  -- or 6 by 9.
  pub decode_base64-encode_iff :
      (bytes : Bytes)
      → 3 ≤ length bytes
      → (r : Bytes) × (decode_base64 from_base64 (encode_base64 to_base64 bytes) ≡ some r)
        × ((length r ≡ length bytes)
            ↔ ((length bytes % 9 ≢ 3) × ((length bytes % 9 ≢ 5) × (length bytes % 9 ≢ 6))))
  unfolding encode_base64
  decode_base64-encode_iff bytes long =
      let s : Bytes = to_base64.characters bytes in
      let (r, found, size) =
        decode_base64-padded from_base64 s (pad_len (length s))
          (to_base64.characters_alphabet_lem bytes) (omega arith)
          (omega (arith, long, to_base64.characters_lem bytes)) in
      (r, found, ground (arith, size, to_base64.characters_lem bytes))
