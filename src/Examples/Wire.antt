-- ===== src/Examples/Wire.antt =====
-- The encoders at one block, with what they return computed.
use stateless_executor.Prelude.{◌≡◌, refl, List, [], ◌∷◌, arith, length, All, replicate}
use stateless_executor.Prelude.Errors.{Result, ok}
use stateless_executor.Prelude.Endian.{Bytes, le_bytes, be_bytes}
use stateless_executor.Prelude.Int.{pos}
use stateless_executor.Fixture.Payload.{marshal_all}
use stateless_executor.Fixture.Live.{
  block_writes, encode_execution_payload_from_block, encode_new_payload_request_from_block,
  zesu_input_ssz_from_block,
}
use stateless_executor.Fixture.Ssz.{
  digits256, big_bytes, reverse_into, ssz_uint256, byte_list_offsets, encode_ssz_byte_list_list,
  encode_ssz_withdrawal_list, encode_ssz_versioned_hashes, file_requests, list_offsets,
  encode_ssz_execution_requests, encode_stateless_input_container, new_payload_request, concat,
  encode_execution_witness_from_arrays, zkvm_frame, schema_id_for,
}
use stateless_executor.Fixture.Live.RoundTrip.{IsDecoded, block_parts}
use stateless_executor.Fixture.Live.Success.{zesu_input_ssz_from_block-ok}
use stateless_executor.Fixture.Live.Input.{read_input, read_input-from_block}
use stateless_executor.Fixture.Ssz.Requests.{read_requests, IsAscending, read_requests-encode}
use stateless_executor.Fixture.Ssz.Payload.{
  PayloadParts, IsSized, IsBounded, layout, read_execution_payload, read_execution_payload-layout,
}
use stateless_executor.Fixture.Ssz.Decode.{decode_byte_list_list}
use stateless_executor.Fixture.Ssz.Lists.{decode_byte_list_list-encode}
use stateless_executor.Fixture.Ssz.Withdrawals.{IsWithdrawal}
use stateless_executor.Fixture.Ssz.Frame.{read_frame, read_frame-zkvm_frame}
use stateless_executor.Fixture.Ssz.Uint256.{uint256_or_panic, ssz_uint256-eq}
use stateless_executor.Examples.{geth, block, withdrawal}

-- A deposit and a consolidation.
abbrev requests : List Bytes
requests = (0 ∷ 1 ∷ 2 ∷ []) ∷ (2 ∷ 3 ∷ []) ∷ []

abbrev or_nothing : Result Bytes → Bytes
or_nothing (ok bs) = bs
or_nothing _ = []

abbrev encoded : Result Bytes
encoded =
    zesu_input_ssz_from_block geth block ((1 ∷ 2 ∷ []) ∷ []) [] ((7 ∷ []) ∷ []) (8 ∷ []) requests 0
      0

encoded-ok : encoded ≡ ok (or_nothing encoded)
unfolding zesu_input_ssz_from_block encode_new_payload_request_from_block
    encode_execution_payload_from_block marshal_all block_writes ssz_uint256 digits256 big_bytes
    reverse_into file_requests list_offsets encode_ssz_execution_requests
encoded-ok = refl

encoded_size : length (or_nothing encoded) ≡ 700
unfolding zesu_input_ssz_from_block encode_new_payload_request_from_block
    encode_execution_payload_from_block marshal_all block_writes ssz_uint256 digits256 big_bytes
    reverse_into file_requests list_offsets encode_ssz_execution_requests
    encode_stateless_input_container new_payload_request encode_execution_witness_from_arrays
    encode_ssz_byte_list_list byte_list_offsets encode_ssz_withdrawal_list
    encode_ssz_versioned_hashes schema_id_for le_bytes be_bytes
encoded_size = refl

pub decoded : IsDecoded geth block
decoded = record {
  parent_hash_size = refl;
  coinbase_size = refl;
  root_size = refl;
  receipt_hash_size = refl;
  bloom_size = refl;
  mix_digest_size = refl;
  hash_size = refl;
  beacon_root_size = refl;
  gas_limit_fits = omega arith;
  gas_used_fits = omega arith;
  time_fits = omega arith;
  blob_gas_used_fits = omega arith;
  excess_blob_gas_fits = omega arith;
  slot_number_fits = omega arith;
}

read_input-from_block_example :
    (raw_txs : List Bytes) × (base_fee : Bytes) × (marshal_all geth block.transactions ≡ ok raw_txs)
    × (ssz_uint256 (pos 300) ≡ ok base_fee)
    × IsAscending 0 requests
    × (read_input (or_nothing encoded) ≡ record {
      schema_id = 5377;
      chain_id = 1;
      payload = block_parts geth block base_fee raw_txs (8 ∷ []);
      versioned_hashes = encode_ssz_versioned_hashes geth block.transactions;
      parent_beacon_block_root = replicate 32 0;
      requests = requests;
      witness = record { state = (1 ∷ 2 ∷ []) ∷ []; codes = []; headers = (7 ∷ []) ∷ [] };
    })
read_input-from_block_example =
    read_input-from_block geth block (8 ∷ []) requests ((1 ∷ 2 ∷ []) ∷ []) [] ((7 ∷ []) ∷ []) 0 0
      decoded (omega arith) (omega arith) encoded-ok (omega (arith, encoded_size))

requests-ok :
    encode_ssz_execution_requests requests
    ≡ ok (or_nothing (encode_ssz_execution_requests requests))
unfolding encode_ssz_execution_requests file_requests list_offsets
requests-ok = refl

requests_small : length (or_nothing (encode_ssz_execution_requests requests)) ≡ 23
unfolding encode_ssz_execution_requests file_requests list_offsets le_bytes
requests_small = refl

read_requests-encode_example :
    IsAscending 0 requests
    × (read_requests (or_nothing (encode_ssz_execution_requests requests)) ≡ requests)
read_requests-encode_example =
    read_requests-encode requests (or_nothing (encode_ssz_execution_requests requests)) requests-ok
      (omega (arith, requests_small))

-- The payload of the block.
abbrev payload : PayloadParts
payload = block_parts geth block (replicate 32 7) [] (8 ∷ [])

payload-IsSized : IsSized payload
payload-IsSized = record {
  parent_hash_size = refl;
  fee_recipient_size = refl;
  state_root_size = refl;
  receipts_root_size = refl;
  logs_bloom_size = refl;
  prev_randao_size = refl;
  base_fee_size = refl;
  block_hash_size = refl;
}

payload-IsBounded : IsBounded payload
unfolding encode_ssz_byte_list_list encode_ssz_withdrawal_list le_bytes
payload-IsBounded = record {
  block_number_fits = omega arith;
  gas_limit_fits = omega arith;
  gas_used_fits = omega arith;
  timestamp_fits = omega arith;
  blob_gas_used_fits = omega arith;
  excess_blob_gas_fits = omega arith;
  slot_number_fits = omega arith;
  sections_fit = omega arith;
}

read_execution_payload-layout_example : read_execution_payload (concat (layout payload)) ≡ payload
read_execution_payload-layout_example =
    read_execution_payload-layout payload payload-IsSized payload-IsBounded

abbrev items : List Bytes
items = (1 ∷ 2 ∷ []) ∷ [] ∷ (3 ∷ []) ∷ []

items_size : length (encode_ssz_byte_list_list items) ≡ 15
unfolding encode_ssz_byte_list_list byte_list_offsets le_bytes
items_size = refl

decode_byte_list_list-encode_example :
    decode_byte_list_list (encode_ssz_byte_list_list items) ≡ items
decode_byte_list_list-encode_example =
    decode_byte_list_list-encode items (omega (arith, items_size))

withdrawals-IsWithdrawal : All IsWithdrawal (withdrawal ∷ [])
withdrawals-IsWithdrawal = (
  record {
    index_fits = omega arith;
    validator_fits = omega arith;
    address_size = refl;
    amount_fits = omega arith;
  },
  tt,
)

read_frame-zkvm_frame_example : read_frame (zkvm_frame (4 ∷ 5 ∷ [])) ≡ 4 ∷ 5 ∷ []
read_frame-zkvm_frame_example = read_frame-zkvm_frame (4 ∷ 5 ∷ []) (omega arith)

ssz_uint256-eq_example : ssz_uint256 (pos 300) ≡ uint256_or_panic (pos 300)
ssz_uint256-eq_example = ssz_uint256-eq (pos 300)

zesu_input_ssz_from_block-ok_example :
    (bs : Bytes) × (zesu_input_ssz_from_block geth block
        ((1 ∷ 2 ∷ []) ∷ [])
        []
        []
        (8 ∷ [])
        requests
        0
        0
      ≡ ok bs)
unfolding marshal_all
zesu_input_ssz_from_block-ok_example =
    zesu_input_ssz_from_block-ok geth block (8 ∷ []) ((2 ∷ 3 ∷ []) ∷ []) 300 ((1 ∷ 2 ∷ []) ∷ []) []
      [] requests 0 0 refl refl (omega arith)
      (omega arith, omega arith, (omega arith, omega arith, tt))
