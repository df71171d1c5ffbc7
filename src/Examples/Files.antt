-- ===== src/Examples/Files.antt =====
-- A fixture file without transactions, on both paths.
use stateless_executor.Prelude.{
  ◌≡◌, refl, true, List, [], ◌∷◌, length, replicate, none, some, arith,
}
use stateless_executor.Prelude.Errors.{Result, ok}
use stateless_executor.Prelude.Text.{Text, codes}
use stateless_executor.Prelude.Endian.{le_bytes, be_bytes, Bytes}
use stateless_executor.Fixture.Types.{FixtureFile, FixtureHeader}
use stateless_executor.Fixture.Ssz.{
  schema_id_for, digits256, big_bytes, reverse_into, ssz_uint256, byte_list_offsets,
  encode_ssz_byte_list_list, encode_ssz_withdrawal_list, encode_ssz_versioned_hashes, file_requests,
  list_offsets, encode_ssz_execution_requests, encode_stateless_input_container,
  new_payload_request, encode_execution_witness_from_arrays,
}
use stateless_executor.Fixture.Payload.{
  encode_ssz_execution_witness, fixture_chain_id, marshal_all, payload_writes,
  encode_ssz_execution_payload, encode_ssz_new_payload_request, encode_ssz_stateless_input,
  zesu_input_ssz_plain, bal_bytes_of,
}
use stateless_executor.Fixture.Hex.{
  decode_string, hex_str_to_bytes, must_hex_to_bytes, decode_hex_from, decode_hex_array,
  hex_to_bloom, hex_digits, hex_number, set_string, hex_to_big_int, hex_to_uint64,
}
use stateless_executor.Fixture.Rebuild.{header_of, fixture_header}
use stateless_executor.Fixture.Convert.{raw_json_to_big_int}
use stateless_executor.Fixture.Tx.{
  build_transactions_from, build_transactions, build_withdrawals_from, build_withdrawals,
}
use stateless_executor.Fixture.Geth.{Header, Withdrawal}
use stateless_executor.Fixture.Fork.{active_protocol_fork}
use stateless_executor.Fixture.Live.{zesu_input_ssz_from_block}
use stateless_executor.Fixture.Agree.{IsCanonical, block_of, zesu_input_ssz_plain-live}
use stateless_executor.Fixture.Binary.{
  build_block_rlp, zesu_input_binary, binary_frame, pad_rounds, write_items,
}
use stateless_executor.Fixture.Binary.RoundTrip.{
  content_of, read_payload, read_payload-zesu_input_binary,
}
use stateless_executor.Examples.{geth, json, chain_config}

abbrev zero_hash : Text
zero_hash = codes "0x0000000000000000000000000000000000000000000000000000000000000000"

abbrev fixture_file_header : FixtureHeader
fixture_file_header = record {
  parent_hash = zero_hash;
  ommers_hash = zero_hash;
  beneficiary = codes "0x00";
  state_root = zero_hash;
  transactions_root = zero_hash;
  receipts_root = zero_hash;
  withdrawals_root = none;
  logs_bloom = codes "0x00";
  difficulty = codes "0x0";
  number = 5;
  gas_limit = 30;
  gas_used = 21;
  timestamp = 400;
  mix_hash = zero_hash;
  nonce = codes "0x0";
  base_fee_per_gas = 7 ∷ [];
  blob_gas_used = none;
  excess_blob_gas = none;
  parent_beacon_block_root = none;
  requests_hash = none;
  slot_number = none;
  extra_data = codes "0x01";
}

abbrev fixture_file : FixtureFile
fixture_file = record {
  name = codes "empty block";
  network = codes "Prague";
  stateless_input = record {
    block = record {
      header = fixture_file_header;
      body = record {
        transactions = [];
        ommers = [];
        withdrawals =
            record {
              index = codes "0x1";
              validator_index = codes "0x2";
              address = codes "0x00";
              amount = codes "0x3";
            }
            ∷ [];
        block_access_list = none;
      };
    };
    witness = record {
      state = codes "0x0102" ∷ [];
      codes = [];
      keys = [];
      headers = codes "0x03" ∷ [];
    };
    chain_config = some chain_config;
  };
  success = true;
}

fixture_file-IsCanonical : IsCanonical geth fixture_file_header
unfolding must_hex_to_bytes
fixture_file-IsCanonical = record {
  parent_hash = refl;
  state_root = refl;
  receipts_root = refl;
  mix_hash = refl;
  number_fits = omega arith;
}

abbrev or_nothing : Result Bytes → Bytes
or_nothing (ok bs) = bs
or_nothing _ = []

encoded-ok :
    zesu_input_ssz_plain geth json fixture_file
    ≡ ok (or_nothing (zesu_input_ssz_plain geth json fixture_file))
unfolding schema_id_for digits256 big_bytes reverse_into ssz_uint256 byte_list_offsets
    encode_ssz_byte_list_list encode_ssz_withdrawal_list encode_ssz_versioned_hashes file_requests
    list_offsets encode_ssz_execution_requests encode_stateless_input_container new_payload_request
    encode_execution_witness_from_arrays encode_ssz_execution_witness fixture_chain_id marshal_all
    payload_writes encode_ssz_execution_payload encode_ssz_new_payload_request
    encode_ssz_stateless_input zesu_input_ssz_plain decode_string hex_str_to_bytes must_hex_to_bytes
    decode_hex_from decode_hex_array hex_to_bloom hex_digits hex_number set_string hex_to_big_int
    hex_to_uint64 header_of fixture_header raw_json_to_big_int build_transactions_from
    build_transactions build_withdrawals_from build_withdrawals
encoded-ok = refl

zesu_input_ssz_plain-live_example :
    (header : Header) × (txs : List Bytes) × (wds : List Withdrawal) × (state codes headers : List
      Bytes)
    × (fixture_header geth json fixture_file ≡ ok header)
    × (build_transactions geth json [] ≡ ok txs)
    × (build_withdrawals geth json fixture_file.stateless_input.block.body.withdrawals ≡ ok wds)
    × (decode_hex_array fixture_file.stateless_input.witness.state ≡ ok state)
    × (decode_hex_array [] ≡ ok codes)
    × (decode_hex_array fixture_file.stateless_input.witness.headers ≡ ok headers)
    × (zesu_input_ssz_from_block geth
          (block_of geth json fixture_file header txs wds)
          state
          codes
          headers
          (bal_bytes_of none)
          []
          17000
          (active_protocol_fork (some chain_config) 400)
        ≡ ok (or_nothing (zesu_input_ssz_plain geth json fixture_file)))
zesu_input_ssz_plain-live_example =
    zesu_input_ssz_plain-live geth json fixture_file fixture_file-IsCanonical encoded-ok

binary-ok :
    zesu_input_binary geth json fixture_file
    ≡ ok (or_nothing (zesu_input_binary geth json fixture_file))
unfolding zesu_input_binary build_block_rlp fixture_header header_of raw_json_to_big_int
    hex_to_big_int set_string hex_number hex_digits build_transactions build_transactions_from
    build_withdrawals build_withdrawals_from hex_to_uint64 decode_hex_array decode_hex_from
    hex_str_to_bytes decode_string
binary-ok = refl

binary_size : length (or_nothing (zesu_input_binary geth json fixture_file)) ≡ 104
unfolding zesu_input_binary binary_frame pad_rounds write_items le_bytes be_bytes build_block_rlp
    fixture_header header_of raw_json_to_big_int hex_to_big_int set_string hex_number hex_digits
    build_transactions build_transactions_from build_withdrawals build_withdrawals_from
    hex_to_uint64 decode_hex_array decode_hex_from hex_str_to_bytes decode_string
binary_size = refl

read_payload-zesu_input_binary_example :
    (txs : List Bytes) × (withdrawals : List Withdrawal) × (block_rlp : Bytes) × (state codes keys
      headers : List Bytes)
    × (build_transactions geth json [] ≡ ok txs)
    × (build_withdrawals geth json fixture_file.stateless_input.block.body.withdrawals
        ≡ ok withdrawals)
    × (build_block_rlp geth json fixture_file txs withdrawals ≡ ok block_rlp)
    × (decode_hex_array fixture_file.stateless_input.witness.state ≡ ok state)
    × (decode_hex_array [] ≡ ok codes)
    × (decode_hex_array [] ≡ ok keys)
    × (decode_hex_array fixture_file.stateless_input.witness.headers ≡ ok headers)
    × (read_payload (content_of (or_nothing (zesu_input_binary geth json fixture_file))) ≡ record {
      root = replicate 32 0;
      block_rlp = block_rlp;
      state = state;
      codes = codes;
      keys = keys;
      headers = headers;
    })
read_payload-zesu_input_binary_example =
    read_payload-zesu_input_binary geth json fixture_file binary-ok (omega (arith, binary_size))
