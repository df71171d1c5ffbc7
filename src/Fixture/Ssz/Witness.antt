-- ===== src/Fixture/Ssz/Witness.antt =====
-- The SszExecutionWitness container of fixture/encode_ssz_live.go, read back by its offsets.
use stateless_executor.Prelude.{
  ℕ, ◌+◌, ◌^◌, ◌<◌, ◌≡◌, refl, ◌∙◌, List, [], ◌∷◌, length, take, drop, arith, append-nil,
}
use stateless_executor.Prelude.Endian.{Bytes, length-le_bytes}
use stateless_executor.Fixture.Ssz.{
  u32, u32_le, concat, encode_ssz_byte_list_list, encode_execution_witness_from_arrays,
}
use stateless_executor.Fixture.Ssz.Decode.{
  slice, read_u32, total, drop-writes, slice-writes, read_u32-writes, decode_byte_list_list,
  length-concat,
}
use stateless_executor.Fixture.Ssz.Lists.{decode_byte_list_list-encode}

pub record WitnessParts : Type 0 where
  pub state : List Bytes
  pub codes : List Bytes
  pub headers : List Bytes

unfoldable pub read_execution_witness : Bytes → WitnessParts
read_execution_witness bs = record {
  state = decode_byte_list_list (slice (read_u32 0 bs) (read_u32 4 bs) bs);
  codes = decode_byte_list_list (slice (read_u32 4 bs) (read_u32 8 bs) bs);
  headers = decode_byte_list_list (drop (read_u32 8 bs) bs);
}

module _ (a b c : Bytes) where
  abbrev o1 : ℕ
  o1 = 12 + length a

  abbrev o2 : ℕ
  o2 = o1 + length b

  abbrev ws : List Bytes
  ws = u32_le 12 ∷ u32_le (u32 o1) ∷ u32_le (u32 o2) ∷ a ∷ b ∷ c ∷ []

  table : (total (take 1 ws) ≡ 4) × (total (take 2 ws) ≡ 8) × (total (take 3 ws) ≡ 12)
  table =
      omega (arith, length-le_bytes 4 12, length-le_bytes 4 (u32 o1), length-le_bytes 4 (u32 o2))

  read_sections :
      o2 < 2 ^ 32
      → (slice (read_u32 0 (concat ws)) (read_u32 4 (concat ws)) (concat ws) ≡ a)
        × (slice (read_u32 4 (concat ws)) (read_u32 8 (concat ws)) (concat ws) ≡ b)
        × (drop (read_u32 8 (concat ws)) (concat ws) ≡ c)
  read_sections fits =
      let e0 : read_u32 0 (concat ws) ≡ 12 = read_u32-writes 0 ws 0 12 refl refl (omega arith) in
      let e1 : read_u32 4 (concat ws) ≡ o1 =
        read_u32-writes 1 ws 4 (u32 o1) (omega (arith, table)) refl (omega arith) ∙ omega arith in
      let e2 : read_u32 8 (concat ws) ≡ o2 =
        read_u32-writes 2 ws 8 (u32 o2) (omega (arith, table)) refl (omega arith) ∙ omega arith in
      rw (e0, e1, e2)
        (
          slice-writes 3 ws 12 o1 (omega (arith, table)) (omega arith),
          slice-writes 4 ws o1 o2 (omega (arith, table)) (omega arith),
          drop-writes 5 ws o2 (omega (arith, table)) ∙ append-nil c,
        )

-- The three lists of a witness read back, if it is shorter than 4 GiB.
pub read_execution_witness-encode :
    (state codes headers : List Bytes)
    → length (encode_execution_witness_from_arrays state codes headers) < 2 ^ 32
    → read_execution_witness (encode_execution_witness_from_arrays state codes headers)
      ≡ record { state = state; codes = codes; headers = headers }
unfolding read_execution_witness encode_execution_witness_from_arrays
read_execution_witness-encode state codes headers fits =
    let a = encode_ssz_byte_list_list state in
    let b = encode_ssz_byte_list_list codes in
    let c = encode_ssz_byte_list_list headers in
    let size = length-concat (ws a b c) in
    let (ea, eb, ec) = read_sections a b c (omega (arith, size, table a b c)) in
    rw (ea, eb, ec)
      (cc (
        decode_byte_list_list-encode state (omega (arith, size, table a b c)),
        decode_byte_list_list-encode codes (omega (arith, size, table a b c)),
        decode_byte_list_list-encode headers (omega (arith, size, table a b c)),
      ))
