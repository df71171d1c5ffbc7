-- ===== src/Fixture/Hex.antt =====
-- fixture/encode.go, the conversion helpers: hex strings to bytes and numbers. The functions of
-- encoding/hex and math/big that they call are written out, partial output on errors included.
use stateless_executor.Prelude.{
  ℕ, ◌+◌, ◌-◌, ◌*◌, ◌%◌, ◌^◌, Bool, true, false, List, [], ◌∷◌, ◌++◌, Option, none, some, ◌&&◌,
  ◌||◌, length, take, replicate, leb, ◌==◌, if◌then◌else◌,
}
use stateless_executor.Prelude.Errors.{Result, message, external, ok, err, ◌>>=◌, wrapping_at}
use stateless_executor.Prelude.Text.{Text, codes, text_eq, trim_prefix}
use stateless_executor.Prelude.Endian.{Bytes}
use stateless_executor.Prelude.Int.{ℤ, pos, nat_abs, neg}

abbrev pub hex_digit : ℕ → Option ℕ
hex_digit c =
    if leb b'0' c && leb c b'9'
    then some (c - b'0')
    else if leb b'a' c && leb c b'f'
    then some (c - b'a' + 10)
    else if leb b'A' c && leb c b'F'
    then some (c - b'A' + 10)
    else none

-- hex.DecodeString: the bytes decoded before the first fault, and whether there was none.
unfoldable pub decode_string : Text → Bytes × Bool
decode_string [] = ([], true)
decode_string (p ∷ []) = ([], false)
decode_string (p ∷ q ∷ s) =
    let (bs, fine) = decode_string s in
    elim (hex_digit p) [
      | none ↦ ([], false)
      | some a ↦ elim (hex_digit q) [ none ↦ ([], false) | some b ↦ ((a * 16 + b) ∷ bs, fine) ]
    ]

abbrev pub hex_prefix : Text
hex_prefix = codes "0x"

-- The text that `hexStrToBytes` hands to hex.DecodeString.
abbrev pub even_digits : Text → Text
even_digits s = if length s % 2 == 0 then s else b'0' ∷ s

unfoldable pub hex_str_to_bytes : Text → Result Bytes
unfolding decode_string
hex_str_to_bytes s =
    let (bs, fine) = decode_string (even_digits (trim_prefix s hex_prefix)) in
    if fine then ok bs else err (external 1)

-- The error is dropped, and what was decoded before it is kept.
unfoldable pub must_hex_to_bytes : Text → Bytes
unfolding decode_string
must_hex_to_bytes s = (decode_string (even_digits (trim_prefix s hex_prefix))).0

-- The loop of `decodeHexArray` from element i on.
unfoldable pub decode_hex_from : ℕ → List Text → Result (List Bytes)
unfolding hex_str_to_bytes
decode_hex_from i [] = ok []
decode_hex_from i (s ∷ arr) = do
  b ← wrapping_at "element" i (hex_str_to_bytes s)
  out ← decode_hex_from (i + 1) arr
  ok (b ∷ out)

unfoldable pub decode_hex_array : List Text → Result (List Bytes)
unfolding decode_hex_from
decode_hex_array arr = decode_hex_from 0 arr

-- copy(dst[:], b) into an array of n zero bytes.
abbrev pub copy_into : ℕ → Bytes → Bytes
copy_into n b = take n b ++ replicate (n - length b) 0

unfoldable pub hex_to_bloom : Text → Bytes
unfolding must_hex_to_bytes
hex_to_bloom s = copy_into 256 (must_hex_to_bytes s)

-- The digits of big.Int.SetString(s, 16), after its sign.
unfoldable pub hex_digits : ℕ → Text → Option ℕ
hex_digits acc [] = some acc
hex_digits acc (c ∷ s) = elim (hex_digit c) [ none ↦ none | some d ↦ hex_digits (acc * 16 + d) s ]

unfoldable pub hex_number : Text → Option ℕ
unfolding hex_digits
hex_number [] = none
hex_number (c ∷ s) = hex_digits 0 (c ∷ s)

unfoldable pub set_string : Text → Option ℤ
unfolding hex_number
set_string [] = none
set_string (c ∷ s) =
    if c == b'-'
    then elim (hex_number s) [ none ↦ none | some n ↦ some (neg n) ]
    else elim (hex_number (if c == b'+' then s else c ∷ s)) [ none ↦ none | some n ↦ some (pos n) ]

unfoldable pub hex_to_big_int : Text → Result ℤ
unfolding set_string
hex_to_big_int s =
    let digits = trim_prefix s hex_prefix in
    if text_eq digits [] || text_eq digits (codes "0")
    then ok (pos 0)
    else elim (set_string digits) [
      | none ↦ err (message "invalid hex big.Int" digits)
      | some n ↦ ok n
    ]

unfoldable pub hex_to_big_int2 : Text → ℤ
unfolding hex_to_big_int
hex_to_big_int2 s = elim (hex_to_big_int s) [ ok n ↦ n | _ ↦ pos 0 ]

-- big.Int.Uint64: the low 64 bits of the magnitude.
abbrev pub low64 : ℤ → ℕ
low64 n = nat_abs n % 2 ^ 64

unfoldable pub hex_to_uint64 : Text → Result ℕ
unfolding set_string
hex_to_uint64 s =
    let digits = trim_prefix s hex_prefix in
    if text_eq digits [] then ok 0 else elim (set_string digits) [
      | none ↦ err (message "invalid hex uint64" digits)
      | some n ↦ ok (low64 n)
    ]
