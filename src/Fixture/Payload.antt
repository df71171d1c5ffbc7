-- ===== src/Fixture/Payload.antt =====
-- fixture/encode_ssz.go: the encoders of the fixture path. Each buffer is the concatenation of
-- what is written to it.
use stateless_executor.Prelude.{
  ℕ, ◌+◌, List, [], ◌∷◌, Option, none, some, if◌then◌else◌, length, ◌==◌, replicate,
}
use stateless_executor.Prelude.Errors.{Result, ok, ◌>>=◌}
use stateless_executor.Prelude.Text.{Text}
use stateless_executor.Prelude.Endian.{Bytes}
use stateless_executor.Fixture.Types.{FixtureFile, FixtureHeader, WitnessData, FixtureChainConfig}
use stateless_executor.Fixture.Geth.{Json, Geth, Withdrawal}
use stateless_executor.Fixture.Hex.{must_hex_to_bytes, hex_to_bloom, decode_hex_array}
use stateless_executor.Fixture.Convert.{raw_json_to_big_int}
use stateless_executor.Fixture.Rebuild.{fixture_header}
use stateless_executor.Fixture.Tx.{build_transactions, build_withdrawals}
use stateless_executor.Fixture.Fork.{active_protocol_fork, or_zero}
use stateless_executor.Fixture.Ssz.{
  u32, u32_le, u64_le, concat, ssz_uint256, encode_ssz_byte_list_list, encode_ssz_withdrawal_list,
  encode_ssz_versioned_hashes, encode_ssz_execution_requests, encode_stateless_input_container,
  new_payload_request, schema_id_for, zkvm_frame,
}

-- A nil slice for an absent text.
abbrev pub bal_bytes_of : Option Text → Bytes
bal_bytes_of none = []
bal_bytes_of (some s) = must_hex_to_bytes s

unfoldable pub encode_ssz_execution_witness : WitnessData → Result Bytes
encode_ssz_execution_witness w = do
  state ← decode_hex_array w.state
  codes ← decode_hex_array w.codes
  headers ← decode_hex_array w.headers
  let state_ssz = encode_ssz_byte_list_list state
  let codes_ssz = encode_ssz_byte_list_list codes
  let headers_ssz = encode_ssz_byte_list_list headers
  let first = u32_le 12
  let second = u32_le (u32 (12 + length state_ssz))
  let third = u32_le (u32 (12 + length state_ssz + length codes_ssz))
  ok (concat (first ∷ second ∷ third ∷ state_ssz ∷ codes_ssz ∷ headers_ssz ∷ []))

-- The chain id of the config, or mainnet for an absent or zero one.
unfoldable pub fixture_chain_id : Option FixtureChainConfig → ℕ
fixture_chain_id none = 1
fixture_chain_id (some cc) = if cc.chain_id == 0 then 1 else cc.chain_id

module _ (g : Geth) where
  -- rawTxs[i], err = tx.MarshalBinary()
  unfoldable pub marshal_all : List g.Tx → Result (List Bytes)
  marshal_all [] = ok []
  marshal_all (tx ∷ txs) = do b ← g.marshal_binary tx; bs ← marshal_all txs; ok (b ∷ bs)

module _ (g : Geth) (j : Json) where
  -- The writes of encodeSszExecutionPayload, in order: the fixed region, then the variable part.
  unfoldable pub payload_writes :
      FixtureHeader → Bytes → Bytes → Bytes → Bytes → Bytes → Bytes → List Bytes
  payload_writes h base_fee block_hash extra_data txs_ssz wds_ssz bal_bytes =
      let extra_data_off = u32 540 in
      let txs_off = u32 (extra_data_off + u32 (length extra_data)) in
      let wds_off = u32 (txs_off + u32 (length txs_ssz)) in
      let bal_off = u32 (wds_off + u32 (length wds_ssz)) in
      must_hex_to_bytes h.parent_hash
      ∷ g.hex_to_address h.beneficiary
      ∷ must_hex_to_bytes h.state_root
      ∷ must_hex_to_bytes h.receipts_root
      ∷ hex_to_bloom h.logs_bloom
      ∷ must_hex_to_bytes h.mix_hash
      ∷ u64_le h.number
      ∷ u64_le h.gas_limit
      ∷ u64_le h.gas_used
      ∷ u64_le h.timestamp
      ∷ u32_le extra_data_off
      ∷ base_fee
      ∷ block_hash
      ∷ u32_le txs_off
      ∷ u32_le wds_off
      ∷ u64_le (or_zero h.blob_gas_used)
      ∷ u64_le (or_zero h.excess_blob_gas)
      ∷ u32_le bal_off
      ∷ u64_le (or_zero h.slot_number)
      ∷ extra_data
      ∷ txs_ssz
      ∷ wds_ssz
      ∷ bal_bytes
      ∷ []

  unfoldable pub encode_ssz_execution_payload :
      FixtureFile → List g.Tx → List Withdrawal → Result Bytes
  unfolding payload_writes
  encode_ssz_execution_payload f txs withdrawals = do
    let h = f.stateless_input.block.header
    header ← fixture_header g j f
    raw_txs ← marshal_all g txs
    base_fee ← raw_json_to_big_int j h.base_fee_per_gas
    base_fee_bytes ← ssz_uint256 base_fee
    ok (
        concat (
          payload_writes h base_fee_bytes (g.header_hash header) (must_hex_to_bytes h.extra_data)
            (encode_ssz_byte_list_list raw_txs) (encode_ssz_withdrawal_list withdrawals)
            (bal_bytes_of f.stateless_input.block.body.block_access_list)))

  unfoldable pub encode_ssz_new_payload_request :
      FixtureFile → List g.Tx → List Withdrawal → Bytes → Result Bytes
  encode_ssz_new_payload_request f txs withdrawals parent_beacon_root = do
    ep ← encode_ssz_execution_payload f txs withdrawals
    let vh = encode_ssz_versioned_hashes g txs
    er ← encode_ssz_execution_requests []
    ok (new_payload_request ep vh er parent_beacon_root)

  unfoldable pub encode_ssz_stateless_input :
      FixtureFile → List g.Tx → List Withdrawal → Bytes → Result Bytes
  unfolding fixture_chain_id
  encode_ssz_stateless_input f txs withdrawals parent_beacon_root = do
    npr ← encode_ssz_new_payload_request f txs withdrawals parent_beacon_root
    wit ← encode_ssz_execution_witness f.stateless_input.witness
    let cc = f.stateless_input.chain_config
    let fork = active_protocol_fork cc f.stateless_input.block.header.timestamp
    ok (encode_stateless_input_container npr wit (fixture_chain_id cc) (schema_id_for fork))

  abbrev pub beacon_root_of : Option Text → Bytes
  beacon_root_of none = replicate 32 0
  beacon_root_of (some s) = g.hex_to_hash s

  unfoldable pub zesu_input_ssz_plain : FixtureFile → Result Bytes
  zesu_input_ssz_plain f = do
    txs ← build_transactions g j f.stateless_input.block.body.transactions
    withdrawals ← build_withdrawals g j f.stateless_input.block.body.withdrawals
    encode_ssz_stateless_input f txs withdrawals
        (beacon_root_of f.stateless_input.block.header.parent_beacon_block_root)

  unfoldable pub zesu_input_ssz : FixtureFile → Result Bytes
  zesu_input_ssz f = do payload ← zesu_input_ssz_plain f; ok (zkvm_frame payload)
