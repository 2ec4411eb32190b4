-- ===== src/WebSocket/Parser/Masking.antt =====
-- Taking the mask off: what a client that masks its payload as RFC 6455 says is understood to say.
use suda_gureum.Base.Xor.{bit_xor_twice, bit_xor-lt, bit_xor-eq_self, bit_xor-zero}
use suda_gureum.Base.{
  ℕ, ◌+◌, ◌<◌, ◌≡◌, refl, sym, ap, ◌∙◌, ◌≢◌, true, [], ◌∷◌, ◌++◌, append-nil, length, arith, Bytes,
  some, All,
}
use suda_gureum.WebSocket.Json.{Json}
use suda_gureum.WebSocket.Message.{RequestCommand}
use suda_gureum.WebSocket.Opcode
use suda_gureum.WebSocket.Parser.Framing.{
  Length, short, medium, long, length_value, IsForm, frame_header, key_used, boundary, with_header,
  handle_frame, parse_framed,
}
use suda_gureum.WebSocket.Parser.{
  Parser, done, Key, zero_key, initial, request, end_frame, and_then, parse, parse_frame,
  apply_mask, unmasked_frame, key_at,
}

abbrev pub AreBytes : Bytes → Type 0
AreBytes = All (λ b. b < 256)

pub record IsKey (k : Key) : Type 0 where
  pub k0_lt : k.k0 < 256
  pub k1_lt : k.k1 < 256
  pub k2_lt : k.k2 < 256
  pub k3_lt : k.k3 < 256

key_at-lt : (k : Key) (i : ℕ) → IsKey k → key_at k i < 256
key_at-lt k i h = ground arith

-- Masking twice with one key gives the bytes back, at any offset.
pub apply_mask_twice :
    (k : Key) (i : ℕ) (s : Bytes) → IsKey k → AreBytes s → apply_mask k i (apply_mask k i s) ≡ s
unfolding apply_mask
apply_mask_twice k i [] hk h = refl
apply_mask_twice k i (b ∷ s) hk (hb, h) =
    cc (bit_xor_twice b (key_at k i) hb (key_at-lt k i hk), apply_mask_twice k (i + 1) s hk h)

pub length-apply_mask : (k : Key) (i : ℕ) (s : Bytes) → length (apply_mask k i s) ≡ length s
unfolding apply_mask
length-apply_mask k i [] = refl
length-apply_mask k i (b ∷ s) = omega (arith, length-apply_mask k (i + 1) s)

module _ (json : Json) where
  parse_frame_masked :
      (p : Parser) (s : Bytes)
      → p.masked ≡ true
      → IsKey p.masking_key
      → AreBytes s
      → parse_frame json p (apply_mask p.masking_key 0 s) ≡ unmasked_frame json p s
  unfolding parse_frame
  parse_frame_masked p s m hk h = rw (m, apply_mask_twice p.masking_key 0 s hk h)

-- The two forms with further length bytes.
abbrev pub IsExtended : Length → Type 0
IsExtended (short n) = ⊥
IsExtended _ = Unit

abbrev pub final_ping : ℕ
final_ping = 0x89

key_used-extended : (l : Length) (k old : Key) → IsExtended l → key_used l (some k) old ≡ k
key_used-extended (short n) k old x = absurd x
key_used-extended (medium a b) k old x = refl
key_used-extended (long a b c d e f g h) k old x = refl

IsForm-extended : (l : Length) → IsExtended l → IsForm l
IsForm-extended (short n) x = absurd x
IsForm-extended (medium a b) x = tt
IsForm-extended (long a b c d e f g h) x = tt

module _ (json : Json) where
  unmasked_ping :
      (p : Parser) (s : Bytes)
      → p.opcode ≡ Opcode.ping
      → p.final_fragment ≡ true
      → p.masked ≡ true
      → unmasked_frame json p s ≡ done p (request RequestCommand.ping s ∷ []) true
  unfolding unmasked_frame
  unmasked_ping p s o f m = ground arith

  handle_masked :
      (p : Parser) (k : Key) (d : ℕ) (s : Bytes)
      → p.masked ≡ true
      → p.masking_key ≡ k
      → handle_frame json p (apply_mask k 0 (d ∷ s))
        ≡ end_frame (unmasked_frame json p (apply_mask k 0 (apply_mask k 0 (d ∷ s))))
  unfolding parse_frame apply_mask
  handle_masked p k d s m e = ground arith

  -- The payload of a masked frame of an extended form
  pub parse_masked :
      (p : Parser) (b0 : ℕ) (l : Length) (k : Key) (d : ℕ) (s rest : Bytes)
      → IsExtended l
      → IsKey k
      → AreBytes (d ∷ s)
      → length_value l ≡ length (d ∷ s)
      → parse json (boundary p) (frame_header b0 l (some k) ++ (apply_mask k 0 (d ∷ s) ++ rest))
        ≡ and_then
            (end_frame (unmasked_frame json (with_header b0 l (some k) p) (d ∷ s)))
            (λ q. parse json q rest)
  parse_masked p b0 l k d s rest x hk h e =
      parse_framed json p b0 l (some k) (apply_mask k 0 (d ∷ s)) rest (IsForm-extended l x)
        (e ∙ sym (length-apply_mask k 0 (d ∷ s)))
      ∙ ap (λ o. and_then o (λ q. parse json q rest))
          (handle_masked (with_header b0 l (some k) p) k d s refl
              (key_used-extended l k p.masking_key x)
            ∙ ap (λ t. end_frame (unmasked_frame json (with_header b0 l (some k) p) t))
                (apply_mask_twice k 0 (d ∷ s) hk h))

  -- A masked ping of an extended form reaches the callback with the bytes that the client masked.
  pub parse-ping :
      (p : Parser) (l : Length) (k : Key) (d : ℕ) (s : Bytes)
      → IsExtended l
      → IsKey k
      → AreBytes (d ∷ s)
      → length_value l ≡ length (d ∷ s)
      → parse json (boundary p) (frame_header final_ping l (some k) ++ apply_mask k 0 (d ∷ s))
        ≡ done (with_header final_ping l (some k) p) (request RequestCommand.ping (d ∷ s) ∷ []) true
  parse-ping p l k d s x hk h e =
      ap (λ t. parse json (boundary p) (frame_header final_ping l (some k) ++ t))
        (sym (append-nil (apply_mask k 0 (d ∷ s))))
      ∙ parse_masked p final_ping l k d s [] x hk h e
      ∙ rw (unmasked_ping (with_header final_ping l (some k) p) (d ∷ s) refl refl refl)
          (unfold parse in refl)

AreBytes-apply_mask :
    (k : Key) (i : ℕ) (s : Bytes) → IsKey k → AreBytes s → AreBytes (apply_mask k i s)
unfolding apply_mask
AreBytes-apply_mask k i [] hk h = tt
AreBytes-apply_mask k i (b ∷ s) hk (hb, h) =
    (bit_xor-lt b (key_at k i) hb (key_at-lt k i hk), AreBytes-apply_mask k (i + 1) s hk h)

zero_key_at : (i : ℕ) → key_at zero_key i ≡ 0
zero_key_at i = ground arith

apply_mask_zero : (i : ℕ) (s : Bytes) → AreBytes s → apply_mask zero_key i s ≡ s
unfolding apply_mask
apply_mask_zero i [] h = refl
apply_mask_zero i (b ∷ s) (hb, h) =
    cc (zero_key_at i, bit_xor-zero b hb, apply_mask_zero (i + 1) s h)

apply_mask-ne_self :
    (k : Key) (d : ℕ) (s : Bytes) → IsKey k → d < 256 → k.k0 ≢ 0 → apply_mask k 0 (d ∷ s) ≢ d ∷ s
unfolding apply_mask
apply_mask-ne_self k d s hk hd ne e = ne (bit_xor-eq_self d k.k0 hd hk.k0_lt (cons_head e))
  where
    cons_head : {a b : ℕ} {xs ys : Bytes} → a ∷ xs ≡ b ∷ ys → a ≡ b
    cons_head e = cc

module _ (json : Json) where
  handle_zero_key :
      (p : Parser) (w : ℕ) (ws : Bytes)
      → p.masked ≡ true
      → p.masking_key ≡ zero_key
      → AreBytes (w ∷ ws)
      → handle_frame json p (w ∷ ws) ≡ end_frame (unmasked_frame json p (w ∷ ws))
  unfolding parse_frame
  handle_zero_key p w ws m e h = ground (arith, apply_mask_zero 0 (w ∷ ws) h)

  -- The mask of a short frame stays on: a masked ping of less than 126 bytes, the first frame of a
  -- connection, reaches the callback as its bytes on the wire.
  parse_short_wire :
      (k : Key) (n : ℕ) (wire : Bytes)
      → AreBytes wire
      → length wire ≡ n
      → 0 < n
      → n < 126
      → parse json initial (frame_header final_ping (short n) (some k) ++ wire)
        ≡ done
            (with_header final_ping (short n) (some k) initial)
            (request RequestCommand.ping wire ∷ [])
            true
  parse_short_wire k n [] h e some_bytes few = absurd (omega arith)
  parse_short_wire k n (w ∷ ws) h e some_bytes few =
      ap (λ t. parse json initial (frame_header final_ping (short n) (some k) ++ t))
        (sym (append-nil (w ∷ ws)))
      ∙ parse_framed json initial final_ping (short n) (some k) (w ∷ ws) [] few (sym e)
      ∙ ap (λ o. and_then o (λ q. parse json q []))
          (handle_zero_key (with_header final_ping (short n) (some k) initial) w ws refl refl h
            ∙ ap end_frame (
                unmasked_ping json (with_header final_ping (short n) (some k) initial) (w ∷ ws) refl
                  refl refl))
      ∙ unfold parse in refl

  -- So the callback gets other bytes than the client masked, whenever the first byte of the key is
  -- not zero.
  pub parse_short_ping :
      (k : Key) (d : ℕ) (s : Bytes)
      → IsKey k
      → AreBytes (d ∷ s)
      → length (d ∷ s) < 126
      → k.k0 ≢ 0
      → (bytes : Bytes) × (parse json initial
            (frame_header final_ping (short (length (d ∷ s))) (some k) ++ apply_mask k 0 (d ∷ s))
          ≡ done
              (with_header final_ping (short (length (d ∷ s))) (some k) initial)
              (request RequestCommand.ping bytes ∷ [])
              true)
        × (bytes ≢ d ∷ s)
  parse_short_ping k d s hk h few ne = (
    apply_mask k 0 (d ∷ s),
    parse_short_wire k (length (d ∷ s)) (apply_mask k 0 (d ∷ s))
        (AreBytes-apply_mask k 0 (d ∷ s) hk h) (length-apply_mask k 0 (d ∷ s)) (omega arith) few,
    apply_mask-ne_self k d s hk h.0 ne,
  )
