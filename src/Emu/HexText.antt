-- ===== src/Emu/HexText.antt =====
-- The output hex of emu/emu.go, read back by the hex decoder of fixture/encode.go.
use stateless_executor.Prelude.{
  ℕ, ◌+◌, ◌*◌, ◌/◌, ◌%◌, ◌<◌, ◌≡◌, refl, ap, ◌∙◌, true, [], ◌∷◌, ◌++◌, some, arith, All, length,
}
use stateless_executor.Prelude.Endian.{Bytes, IsByte}
use stateless_executor.Prelude.Errors.{ok}
use stateless_executor.Fixture.Hex.{
  hex_digit, decode_string, hex_prefix, hex_str_to_bytes, must_hex_to_bytes,
}
use stateless_executor.Emu.{hex_char, encode_to_string}

hex_digit-hex_char : (d : ℕ) → d < 16 → hex_digit (hex_char d) ≡ some d
hex_digit-hex_char d h = ground arith

decode_string-cons :
    (p q a b : ℕ) (s bs : Bytes)
    → hex_digit p ≡ some a
    → hex_digit q ≡ some b
    → decode_string s ≡ (bs, true)
    → decode_string (p ∷ q ∷ s) ≡ ((a * 16 + b) ∷ bs, true)
unfolding decode_string
decode_string-cons p q a b s bs high low back = rw (decode_string, high, low, back) refl

pub decode_string-encode_to_string :
    (bs : Bytes)
    → All IsByte bs
    → (decode_string (encode_to_string bs) ≡ (bs, true))
      × (length (encode_to_string bs) ≡ 2 * length bs)
unfolding encode_to_string
decode_string-encode_to_string [] h = (unfold decode_string in refl, refl)
decode_string-encode_to_string (b ∷ bs) (h, hs) =
    let high = hex_digit-hex_char (b / 16) (omega arith) in
    let low = hex_digit-hex_char (b % 16) (omega arith) in
    let (back, size) = decode_string-encode_to_string bs hs in
    let same : b / 16 * 16 + b % 16 ≡ b = omega arith in
    (
      decode_string-cons (hex_char (b / 16)) (hex_char (b % 16)) (b / 16) (b % 16)
            (encode_to_string bs) bs high low back
          ∙ ap (λ (n : ℕ). (n ∷ bs, true)) same,
      omega (arith, size),
    )

-- Bytes that are written as hex behind 0x are read back, whether errors are reported or dropped.
pub hex_str_to_bytes-encode_to_string :
    (bs : Bytes)
    → All IsByte bs
    → (hex_str_to_bytes (hex_prefix ++ encode_to_string bs) ≡ ok bs)
      × (must_hex_to_bytes (hex_prefix ++ encode_to_string bs) ≡ bs)
unfolding hex_str_to_bytes must_hex_to_bytes
hex_str_to_bytes-encode_to_string bs h =
    let (back, size) = decode_string-encode_to_string bs h in
    let even : length (encode_to_string bs) % 2 ≡ 0 = omega (arith, size) in
    (rw (even, back) refl, rw (must_hex_to_bytes, even, back) refl)
