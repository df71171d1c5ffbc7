-- ===== src/Fixture/Live/Input.antt =====
-- The whole guest input of a live block (fixture/encode_ssz_live.go), read back.
use stateless_executor.Prelude.{
  ℕ, ◌+◌, ◌*◌, ◌^◌, ◌<◌, ◌≡◌, ap, ◌∙◌, List, [], ◌∷◌, length, arith, if◌then◌else◌, ◌==◌,
}
use stateless_executor.Prelude.Errors.{ok, >>=-eq-ok}
use stateless_executor.Prelude.Endian.{Bytes, IsU64, length-le_bytes, length-be_bytes, be_bytes}
use stateless_executor.Fixture.Geth.{Geth}
use stateless_executor.Fixture.Payload.{marshal_all}
use stateless_executor.Fixture.Fork.{fork_amsterdam}
use stateless_executor.Fixture.Live.{
  Block, or_zero_int, or_zero_hash, encode_execution_payload_from_block,
  encode_new_payload_request_from_block, zesu_input_ssz_from_block,
}
use stateless_executor.Fixture.Live.RoundTrip.{
  IsDecoded, block_parts, read_execution_payload-from_block,
}
use stateless_executor.Fixture.Ssz.{
  u32_le, u32, u64_le, ssz_uint256, encode_ssz_versioned_hashes, encode_ssz_execution_requests,
  new_payload_request, schema_id_for, encode_execution_witness_from_arrays,
  encode_stateless_input_container,
}
use stateless_executor.Fixture.Ssz.Decode.{length-concat}
use stateless_executor.Fixture.Ssz.Schema.{schema_id_for-eq}
use stateless_executor.Fixture.Ssz.Payload.{PayloadParts, read_execution_payload}
use stateless_executor.Fixture.Ssz.Request.{
  read_new_payload_request, read_new_payload_request-encode,
}
use stateless_executor.Fixture.Ssz.Witness.{
  WitnessParts, read_execution_witness, read_execution_witness-encode,
}
use stateless_executor.Fixture.Ssz.Requests.{read_requests, read_requests-encode, IsAscending}
use stateless_executor.Fixture.Ssz.Containers.{read_stateless_input, read_stateless_input-encode}

-- What a guest that takes the whole input apart holds in its hands.
pub record Input : Type 0 where
  pub schema_id : ℕ
  pub chain_id : ℕ
  pub payload : PayloadParts
  pub versioned_hashes : Bytes
  pub parent_beacon_block_root : Bytes
  pub requests : List Bytes
  pub witness : WitnessParts

unfoldable pub read_input : Bytes → Input
read_input bs =
    let s = read_stateless_input bs in
    let r = read_new_payload_request s.new_payload_request in
    record {
      schema_id = s.schema_id;
      chain_id = s.chain_id;
      payload = read_execution_payload r.execution_payload;
      versioned_hashes = r.versioned_hashes;
      parent_beacon_block_root = r.parent_beacon_block_root;
      requests = read_requests r.execution_requests;
      witness = read_execution_witness s.witness;
    }

length-container :
    (npr wit : Bytes) (chain_id schema_id : ℕ)
    → length (encode_stateless_input_container npr wit chain_id schema_id)
      ≡ 18 + length npr + length wit
unfolding encode_stateless_input_container
length-container npr wit chain_id schema_id =
    let off = u32 (16 + u32 (length npr)) in
    omega (
      arith,
      length-concat
          (be_bytes 2 schema_id ∷ u32_le 16 ∷ u32_le off ∷ u64_le chain_id ∷ npr ∷ wit ∷ []),
      length-be_bytes 2 schema_id,
      length-le_bytes 4 16,
      length-le_bytes 4 off,
      length-le_bytes 8 chain_id,
    )

length-request :
    (ep vh er root : Bytes)
    → length (new_payload_request ep vh er root)
      ≡ 12 + length root + length ep + length vh + length er
unfolding new_payload_request
length-request ep vh er root =
    let o1 = u32 (44 + length ep) in
    let o2 = u32 (44 + length ep + length vh) in
    omega (
      arith,
      length-concat (u32_le 44 ∷ u32_le o1 ∷ root ∷ u32_le o2 ∷ ep ∷ vh ∷ er ∷ []),
      length-le_bytes 4 44,
      length-le_bytes 4 o1,
      length-le_bytes 4 o2,
    )

-- The defaults: mainnet for chain id 0, and Amsterdam for fork 0.
abbrev pub chain_or_mainnet : ℕ → ℕ
chain_or_mainnet chain_id = if chain_id == 0 then 1 else chain_id

abbrev pub fork_or_amsterdam : ℕ → ℕ
fork_or_amsterdam fork = if fork == 0 then fork_amsterdam else fork

chain_or_mainnet-fits : (n : ℕ) → IsU64 n → IsU64 (chain_or_mainnet n)
chain_or_mainnet-fits n h = ground arith

fork_or_amsterdam-fits : (n : ℕ) → n < 256 → fork_or_amsterdam n < 256
fork_or_amsterdam-fits n h = ground arith

module _ (g : Geth) (block : Block g) (bal_bytes : Bytes) (requests : List Bytes) where
  abbrev hashes : Bytes
  hashes = encode_ssz_versioned_hashes g block.transactions

  abbrev root : Bytes
  root = or_zero_hash block.beacon_root

  request_parts :
      {npr : Bytes}
      → encode_new_payload_request_from_block g block root bal_bytes requests ≡ ok npr
      → (ep er : Bytes) × (encode_execution_payload_from_block g block bal_bytes ≡ ok ep)
        × (encode_ssz_execution_requests requests ≡ ok er)
        × (npr ≡ new_payload_request ep hashes er root)
  unfolding encode_new_payload_request_from_block
  request_parts e =
      let (ep, p, e') = >>=-eq-ok (encode_execution_payload_from_block g block bal_bytes) _ e in
      let (er, q, e'') = >>=-eq-ok (encode_ssz_execution_requests requests) _ e' in
      (ep, er, p, q, cc e'')

  module _ (state codes headers : List Bytes) (chain_id fork : ℕ) where
    abbrev witness : Bytes
    witness = encode_execution_witness_from_arrays state codes headers

    input_parts :
        {bs : Bytes}
        → zesu_input_ssz_from_block g block state codes headers bal_bytes requests chain_id fork
          ≡ ok bs
        → (npr : Bytes) × (encode_new_payload_request_from_block g block root bal_bytes requests
            ≡ ok npr)
          × (bs
              ≡ encode_stateless_input_container npr witness
                  (chain_or_mainnet chain_id)
                  (schema_id_for (fork_or_amsterdam fork)))
    unfolding zesu_input_ssz_from_block
    input_parts e =
        let (npr, p, e') =
          >>=-eq-ok (encode_new_payload_request_from_block g block root bal_bytes requests) _ e in
        (npr, p, cc e')

    -- For a block whose hashes, address and bloom have their sizes and whose numbers fit a uint64,
    -- a chain id that fits one and a fork below 256: if the encoder of live blocks returns an input
    -- below 4 GiB, its transactions marshal, its base fee is encoded and the requests ascend by
    -- type, and a guest that reads the input finds the schema id of the fork (Amsterdam for 0), the
    -- chain id (1 for 0), every field of the block, the versioned hashes, the beacon root, the
    -- requests and the witness.
    pub read_input-from_block :
        {bs : Bytes}
        → IsDecoded g block
        → IsU64 chain_id
        → fork < 256
        → zesu_input_ssz_from_block g block state codes headers bal_bytes requests chain_id fork
          ≡ ok bs
        → length bs < 2 ^ 32
        → (raw_txs : List Bytes) × (base_fee : Bytes) × (marshal_all g block.transactions
            ≡ ok raw_txs)
          × (ssz_uint256 (or_zero_int block.header.base_fee) ≡ ok base_fee)
          × IsAscending 0 requests
          × (read_input bs ≡ record {
            schema_id = fork_or_amsterdam fork * 256 + 1;
            chain_id = chain_or_mainnet chain_id;
            payload = block_parts g block base_fee raw_txs bal_bytes;
            versioned_hashes = hashes;
            parent_beacon_block_root = root;
            requests = requests;
            witness = record { state = state; codes = codes; headers = headers };
          })
    unfolding read_input
    read_input-from_block {bs} decoded chain_fits fork_fits e fits =
        let (npr, p, same) = input_parts e in
        let (ep, er, q, r, made) = request_parts p in
        let chain' = chain_or_mainnet chain_id in
        let schema' = schema_id_for (fork_or_amsterdam fork) in
        let small = fork_or_amsterdam-fits fork fork_fits in
        let schema_eq : schema' ≡ fork_or_amsterdam fork * 256 + 1 =
          schema_id_for-eq (fork_or_amsterdam fork) small in
        let size = ap length same ∙ length-container npr witness chain' schema' in
        let inner = ap length made ∙ length-request ep hashes er root in
        let rooted = decoded.beacon_root_size in
        let stateless =
          ap read_stateless_input same
          ∙ read_stateless_input-encode npr witness chain' schema' (omega (arith, size))
              (chain_or_mainnet-fits chain_id chain_fits) (omega (arith, schema_eq, small)) in
        let request =
          ap read_new_payload_request made
          ∙ read_new_payload_request-encode ep hashes er root rooted
              (omega (arith, size, inner, rooted)) in
        let (raw_txs, base_fee, m, n, back) =
          read_execution_payload-from_block g block bal_bytes decoded q
            (omega (arith, size, inner, rooted)) in
        let (asc, reqs) = read_requests-encode requests er r (omega (arith, size, inner, rooted)) in
        let wit = read_execution_witness-encode state codes headers (omega (arith, size)) in
        (raw_txs, base_fee, m, n, asc, rw (stateless, request) (cc (schema_eq, back, reqs, wit)))
