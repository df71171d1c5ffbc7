-- ===== src/Fixture/Live.antt =====
-- fixture/encode_ssz_live.go: the encoder of a block that was decoded from the network.
pub mod RoundTrip
pub mod Input
pub mod Success
use stateless_executor.Prelude.{
  ℕ, ◌+◌, ◌%◌, ◌^◌, List, [], ◌∷◌, Option, none, some, if◌then◌else◌, length, ◌==◌, replicate,
}
use stateless_executor.Prelude.Errors.{Result, ok, err, panic, ◌>>=◌}
use stateless_executor.Prelude.Endian.{Bytes}
use stateless_executor.Prelude.Int.{ℤ, pos}
use stateless_executor.Fixture.Geth.{Geth, Header, Withdrawal}
use stateless_executor.Fixture.Hex.{low64}
use stateless_executor.Fixture.Payload.{marshal_all}
use stateless_executor.Fixture.Fork.{fork_amsterdam, or_zero}
use stateless_executor.Fixture.Ssz.{
  u32, u32_le, u64_le, concat, ssz_uint256, encode_ssz_byte_list_list, encode_ssz_withdrawal_list,
  encode_ssz_versioned_hashes, encode_ssz_execution_requests, encode_stateless_input_container,
  encode_execution_witness_from_arrays, new_payload_request, schema_id_for,
}

abbrev pub or_zero_int : Option ℤ → ℤ
or_zero_int none = pos 0
or_zero_int (some n) = n

abbrev pub or_zero_hash : Option Bytes → Bytes
or_zero_hash none = replicate 32 0
or_zero_hash (some r) = r

-- types.Block, by what its accessors Header, Hash, BeaconRoot, Transactions and Withdrawals return.
pub record Block (g : Geth) : Type 0 where
  pub header : Header
  pub hash : Bytes
  pub beacon_root : Option Bytes
  pub transactions : List g.Tx
  pub withdrawals : List Withdrawal

-- The writes of encodeExecutionPayloadFromBlock, in order.
unfoldable pub block_writes : Header → Bytes → Bytes → Bytes → Bytes → Bytes → List Bytes
block_writes h base_fee block_hash txs_ssz wds_ssz bal_bytes =
    let extra_data_off = u32 540 in
    let txs_off = u32 (extra_data_off + u32 (length h.extra)) in
    let wds_off = u32 (txs_off + u32 (length txs_ssz)) in
    let bal_off = u32 (wds_off + u32 (length wds_ssz)) in
    h.parent_hash
    ∷ h.coinbase
    ∷ h.root
    ∷ h.receipt_hash
    ∷ h.bloom
    ∷ h.mix_digest
    ∷ u64_le (low64 h.number)
    ∷ u64_le h.gas_limit
    ∷ u64_le h.gas_used
    ∷ u64_le h.time
    ∷ u32_le extra_data_off
    ∷ base_fee
    ∷ block_hash
    ∷ u32_le txs_off
    ∷ u32_le wds_off
    ∷ u64_le (or_zero h.blob_gas_used)
    ∷ u64_le (or_zero h.excess_blob_gas)
    ∷ u32_le bal_off
    ∷ u64_le (or_zero h.slot_number)
    ∷ h.extra
    ∷ txs_ssz
    ∷ wds_ssz
    ∷ bal_bytes
    ∷ []

module _ (g : Geth) where
  unfoldable pub encode_execution_payload_from_block : Block g → Bytes → Result Bytes
  unfolding block_writes
  encode_execution_payload_from_block block bal_bytes = do
    let h = block.header
    raw_txs ← marshal_all g block.transactions
    base_fee ← ssz_uint256 (or_zero_int h.base_fee)
    ok (
        concat (
          block_writes h base_fee block.hash (encode_ssz_byte_list_list raw_txs)
            (encode_ssz_withdrawal_list block.withdrawals) bal_bytes))

  unfoldable pub encode_new_payload_request_from_block :
      Block g → Bytes → Bytes → List Bytes → Result Bytes
  encode_new_payload_request_from_block block parent_beacon_root bal_bytes requests = do
    ep ← encode_execution_payload_from_block block bal_bytes
    let vh = encode_ssz_versioned_hashes g block.transactions
    er ← encode_ssz_execution_requests requests
    ok (new_payload_request ep vh er parent_beacon_root)

  unfoldable pub encode_stateless_input_from_block :
      Block g
      → List Bytes
      → List Bytes
      → List Bytes
      → Bytes
      → Bytes
      → List Bytes
      → ℕ
      → ℕ
      → Result Bytes
  encode_stateless_input_from_block block state codes headers root bal_bytes requests chain_id
        fork =
      do
        npr ← encode_new_payload_request_from_block block root bal_bytes requests
        let wit = encode_execution_witness_from_arrays state codes headers
        let chain_id' = if chain_id == 0 then 1 else chain_id
        let fork' = if fork == 0 then fork_amsterdam else fork
        ok (encode_stateless_input_container npr wit chain_id' (schema_id_for fork'))

  unfoldable pub zesu_input_ssz_from_block :
      Block g → List Bytes → List Bytes → List Bytes → Bytes → List Bytes → ℕ → ℕ → Result Bytes
  unfolding encode_stateless_input_from_block
  zesu_input_ssz_from_block block state codes headers bal_bytes requests chain_id fork =
      encode_stateless_input_from_block block state codes headers (or_zero_hash block.beacon_root)
        bal_bytes requests chain_id fork
