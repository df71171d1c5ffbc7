-- ===== src/Fixture/Ssz/Containers.antt =====
-- The SSZ containers of fixture/encode_ssz.go, read back by their offsets.
use stateless_executor.Prelude.{
  ℕ, ◌+◌, ◌^◌, ◌<◌, ◌≡◌, refl, sym, ap, ◌∙◌, List, [], ◌∷◌, length, take, drop, arith, take-append,
  append-nil,
}
use stateless_executor.Prelude.Endian.{
  Bytes, IsU64, be_bytes, be_value, length-le_bytes, length-be_bytes, be_value-be_bytes,
}
use stateless_executor.Fixture.Ssz.{u32, u32_le, u64_le, concat, encode_stateless_input_container}
use stateless_executor.Fixture.Ssz.Decode.{
  slice, read_u32, read_u64, total, drop-writes, slice-writes, read_u32-writes, read_u64-writes,
}

-- What a guest reads of the stateless input.
pub record StatelessInputParts : Type 0 where
  pub schema_id : ℕ
  pub chain_id : ℕ
  pub new_payload_request : Bytes
  pub witness : Bytes

unfoldable pub read_stateless_input : Bytes → StatelessInputParts
read_stateless_input bs =
    let body = drop 2 bs in
    record {
      schema_id = be_value (take 2 bs);
      chain_id = read_u64 8 body;
      new_payload_request = slice (read_u32 0 body) (read_u32 4 body) body;
      witness = drop (read_u32 4 body) body;
    }

module _ (npr wit : Bytes) (chain_id schema_id : ℕ) (fits : 16 + length npr < 2 ^ 32) where
  abbrev off : ℕ
  off = u32 (16 + u32 (length npr))

  abbrev body : List Bytes
  body = u32_le 16 ∷ u32_le off ∷ u64_le chain_id ∷ npr ∷ wit ∷ []

  body_lem : drop 2 (encode_stateless_input_container npr wit chain_id schema_id) ≡ concat body
  unfolding encode_stateless_input_container
  body_lem =
      drop-writes 1 (be_bytes 2 schema_id ∷ body) 2 (omega (arith, length-be_bytes 2 schema_id))

  schema_lem :
      schema_id < 2 ^ 16
      → be_value (take 2 (encode_stateless_input_container npr wit chain_id schema_id)) ≡ schema_id
  unfolding encode_stateless_input_container
  schema_lem h =
      ap be_value
        (take-append 2 (be_bytes 2 schema_id) (concat body) (sym (length-be_bytes 2 schema_id)))
      ∙ be_value-be_bytes 2 schema_id (omega arith)

  first_offset : read_u32 0 (concat body) ≡ 16
  first_offset = read_u32-writes 0 body 0 16 refl refl (omega arith)

  second_offset : read_u32 4 (concat body) ≡ 16 + length npr
  second_offset =
      read_u32-writes 1 body 4 off (omega (arith, length-le_bytes 4 16)) refl (omega arith)
      ∙ omega arith

  sizes : total (take 3 body) ≡ 16
  sizes = omega (arith, length-le_bytes 4 16, length-le_bytes 4 off, length-le_bytes 8 chain_id)

  -- What a guest reads back is what was put in.
  pub read_stateless_input-encode :
      IsU64 chain_id
      → schema_id < 2 ^ 16
      → read_stateless_input (encode_stateless_input_container npr wit chain_id schema_id)
        ≡ record {
          schema_id = schema_id;
          chain_id = chain_id;
          new_payload_request = npr;
          witness = wit;
        }
  unfolding read_stateless_input
  read_stateless_input-encode hc hs = λ i. record {
    schema_id = schema_lem hs i;
    chain_id = chain i;
    new_payload_request = request i;
    witness = wit_lem i;
  }
    where
      bs : Bytes
      bs = encode_stateless_input_container npr wit chain_id schema_id

      chain : read_u64 8 (drop 2 bs) ≡ chain_id
      chain = rw body_lem (
          read_u64-writes 2 body 8 chain_id (omega (arith, sizes, length-le_bytes 8 chain_id)) refl
            hc)

      request : slice (read_u32 0 (drop 2 bs)) (read_u32 4 (drop 2 bs)) (drop 2 bs) ≡ npr
      request =
          rw (body_lem, first_offset, second_offset)
            (slice-writes 3 body 16 (16 + length npr) (sym sizes) refl)

      wit_lem : drop (read_u32 4 (drop 2 bs)) (drop 2 bs) ≡ wit
      wit_lem =
          rw (body_lem, second_offset)
            (drop-writes 4 body (16 + length npr) (omega (arith, sizes)) ∙ append-nil wit)
