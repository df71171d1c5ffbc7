-- ===== src/Fixture/Live/RoundTrip.antt =====
-- What a guest reads of the input that fixture/encode_ssz_live.go makes of a block.
use stateless_executor.Prelude.{◌^◌, ◌<◌, ◌≡◌, ap, ◌∙◌, List, length, arith}
use stateless_executor.Prelude.Errors.{ok, >>=-eq-ok}
use stateless_executor.Prelude.Endian.{Bytes, IsU64, le_bytes, length-le_bytes}
use stateless_executor.Prelude.Int.{ℤ, pos, negsuc}
use stateless_executor.Fixture.Geth.{Geth}
use stateless_executor.Fixture.Hex.{low64}
use stateless_executor.Fixture.Payload.{marshal_all}
use stateless_executor.Fixture.Fork.{or_zero}
use stateless_executor.Fixture.Live.{
  Block, or_zero_int, or_zero_hash, encode_execution_payload_from_block,
}
use stateless_executor.Fixture.Ssz.{
  concat, ssz_uint256, encode_ssz_byte_list_list, encode_ssz_withdrawal_list,
}
use stateless_executor.Fixture.Ssz.Uint256.{ssz_uint256-cases}
use stateless_executor.Fixture.Ssz.Payload.{
  PayloadParts, layout, length-layout, IsSized, IsBounded, read_execution_payload,
  read_execution_payload-layout,
}
use native.Mathlib.Decide.{dec_lt}

-- Every encoded uint256 has 32 bytes.
pub length-ssz_uint256 : (z : ℤ) {b : Bytes} → ssz_uint256 z ≡ ok b → length b ≡ 32
length-ssz_uint256 (negsuc n) {b} e =
    let zeros : b ≡ le_bytes 32 0 = cc (ssz_uint256-cases.2 n) in
    ap length zeros ∙ length-le_bytes 32 0
length-ssz_uint256 (pos n) {b} e = elim (dec_lt n (256 ^ 32)) [
  | yes h ↦
      let same : b ≡ le_bytes 32 n = cc (ssz_uint256-cases.0 n h) in
      ap length same ∙ length-le_bytes 32 n
  | no h ↦ cc (ssz_uint256-cases.1 n (omega arith))
]

module _ (g : Geth) where
  -- The payload that stands for a block.
  abbrev pub block_parts : Block g → Bytes → List Bytes → Bytes → PayloadParts
  block_parts block base_fee raw_txs bal_bytes = record {
    parent_hash = block.header.parent_hash;
    fee_recipient = block.header.coinbase;
    state_root = block.header.root;
    receipts_root = block.header.receipt_hash;
    logs_bloom = block.header.bloom;
    prev_randao = block.header.mix_digest;
    block_number = low64 block.header.number;
    gas_limit = block.header.gas_limit;
    gas_used = block.header.gas_used;
    timestamp = block.header.time;
    extra_data = block.header.extra;
    base_fee = base_fee;
    block_hash = block.hash;
    transactions = encode_ssz_byte_list_list raw_txs;
    withdrawals = encode_ssz_withdrawal_list block.withdrawals;
    blob_gas_used = or_zero block.header.blob_gas_used;
    excess_blob_gas = or_zero block.header.excess_blob_gas;
    block_access_list = bal_bytes;
    slot_number = or_zero block.header.slot_number;
  }

  -- The sizes and ranges of the fields of a decoded header.
  pub record IsDecoded (block : Block g) : Type 0 where
    pub parent_hash_size : length block.header.parent_hash ≡ 32
    pub coinbase_size : length block.header.coinbase ≡ 20
    pub root_size : length block.header.root ≡ 32
    pub receipt_hash_size : length block.header.receipt_hash ≡ 32
    pub bloom_size : length block.header.bloom ≡ 256
    pub mix_digest_size : length block.header.mix_digest ≡ 32
    pub hash_size : length block.hash ≡ 32
    pub beacon_root_size : length (or_zero_hash block.beacon_root) ≡ 32
    pub gas_limit_fits : IsU64 block.header.gas_limit
    pub gas_used_fits : IsU64 block.header.gas_used
    pub time_fits : IsU64 block.header.time
    pub blob_gas_used_fits : IsU64 (or_zero block.header.blob_gas_used)
    pub excess_blob_gas_fits : IsU64 (or_zero block.header.excess_blob_gas)
    pub slot_number_fits : IsU64 (or_zero block.header.slot_number)

  -- What a successful payload is made of.
  pub payload_from_block :
      (block : Block g) (bal_bytes : Bytes) {ep : Bytes}
      → encode_execution_payload_from_block g block bal_bytes ≡ ok ep
      → (raw_txs : List Bytes) × (base_fee : Bytes) × (marshal_all g block.transactions
          ≡ ok raw_txs)
        × (ssz_uint256 (or_zero_int block.header.base_fee) ≡ ok base_fee)
        × (ep ≡ concat (layout (block_parts block base_fee raw_txs bal_bytes)))
  unfolding encode_execution_payload_from_block
  payload_from_block block bal_bytes e =
      let (raw_txs, m, e') = >>=-eq-ok (marshal_all g block.transactions) _ e in
      let (base_fee, n, e'') = >>=-eq-ok (ssz_uint256 (or_zero_int block.header.base_fee)) _ e' in
      (raw_txs, base_fee, m, n, cc e'')

  module _ (block : Block g) (bal_bytes : Bytes) (decoded : IsDecoded block) where
    parts-IsSized :
        (base_fee : Bytes) (raw_txs : List Bytes)
        → length base_fee ≡ 32
        → IsSized (block_parts block base_fee raw_txs bal_bytes)
    parts-IsSized base_fee raw_txs h = omega (arith, decoded)

    parts-IsBounded :
        (base_fee : Bytes) (raw_txs : List Bytes)
        → length base_fee ≡ 32
        → length (concat (layout (block_parts block base_fee raw_txs bal_bytes))) < 2 ^ 32
        → IsBounded (block_parts block base_fee raw_txs bal_bytes)
    parts-IsBounded base_fee raw_txs h k =
        let p = block_parts block base_fee raw_txs bal_bytes in
        record {
          block_number_fits = omega arith;
          gas_limit_fits = decoded.gas_limit_fits;
          gas_used_fits = decoded.gas_used_fits;
          timestamp_fits = decoded.time_fits;
          blob_gas_used_fits = decoded.blob_gas_used_fits;
          excess_blob_gas_fits = decoded.excess_blob_gas_fits;
          slot_number_fits = decoded.slot_number_fits;
          sections_fit = omega (arith, length-layout p (parts-IsSized base_fee raw_txs h));
        }

    -- A reader of the payload gets the block back.
    pub read_execution_payload-from_block :
        {ep : Bytes}
        → encode_execution_payload_from_block g block bal_bytes ≡ ok ep
        → length ep < 2 ^ 32
        → (raw_txs : List Bytes) × (base_fee : Bytes) × (marshal_all g block.transactions
            ≡ ok raw_txs)
          × (ssz_uint256 (or_zero_int block.header.base_fee) ≡ ok base_fee)
          × (read_execution_payload ep ≡ block_parts block base_fee raw_txs bal_bytes)
    read_execution_payload-from_block {ep} e h =
        let (raw_txs, base_fee, m, n, same) = payload_from_block block bal_bytes e in
        let p = block_parts block base_fee raw_txs bal_bytes in
        let width = length-ssz_uint256 (or_zero_int block.header.base_fee) n in
        (
          raw_txs,
          base_fee,
          m,
          n,
          ap read_execution_payload same
              ∙ read_execution_payload-layout p (parts-IsSized base_fee raw_txs width)
                  (parts-IsBounded base_fee raw_txs width (omega (arith, ap length same))),
        )
