-- ===== src/Examples/Fetched.antt =====
-- The pipeline at a node that answers every call with the same small values.
use stateless_executor.Prelude.{
  ℕ, ◌<◌, ◌≡◌, ◌↔◌, refl, List, [], ◌∷◌, none, some, arith, length, replicate,
}
use stateless_executor.Prelude.Errors.{Result, ok, err, message}
use stateless_executor.Prelude.Text.{Text, codes}
use stateless_executor.Prelude.Endian.{Bytes, le_bytes, be_bytes}
use stateless_executor.Fixture.Hex.{
  hex_str_to_bytes, decode_string, decode_hex_array, decode_hex_from,
}
use stateless_executor.Fixture.Fork.{GenesisChainConfig, active_genesis_fork, newest_active}
use stateless_executor.Fixture.Live.{
  Block, block_writes, encode_execution_payload_from_block, encode_new_payload_request_from_block,
  zesu_input_ssz_from_block, or_zero_int,
}
use stateless_executor.Fixture.Live.RoundTrip.{IsDecoded}
use stateless_executor.Fixture.Live.Input.{read_input}
use stateless_executor.Fixture.Payload.{marshal_all}
use stateless_executor.Fixture.Ssz.{
  digits256, big_bytes, reverse_into, ssz_uint256, byte_list_offsets, encode_ssz_byte_list_list,
  encode_ssz_withdrawal_list, encode_ssz_versioned_hashes, file_requests, list_offsets,
  encode_ssz_execution_requests, encode_stateless_input_container, new_payload_request,
  encode_execution_witness_from_arrays, schema_id_for,
}
use stateless_executor.Pool.{Pool, fresh, next, pick, call}
use stateless_executor.Pipeline.Types.{Remote, BalPackage}
use stateless_executor.Pipeline.Engine.{format_uint, format_digits}
use stateless_executor.Pipeline.Bal.{fetch_bal, add_accounts, verify_bal_hash}
use stateless_executor.Pipeline.Fetch.{
  EngineConfig, Arrays, hex_num, fetch, fetch_block, fetch_witness, fetch_requests, bal_of,
  bal_error, with_bal, block_meta, decode_hex_result, decode_headers, hostname, decode_requests,
  genesis_fork,
}
use stateless_executor.Pipeline.Success.{fetched_input, read_input-fetch}
use stateless_executor.Pipeline.Committed.{HasBal, bal_error-none, fetch_requests-hash}
use mathlib.Core.Path.{subst}
use stateless_executor.Examples.{geth, block, header}
use stateless_executor.Examples.Wire.{decoded}

abbrev bal : BalPackage
bal = record {
  Builder = Bytes;
  new_builder = 8 ∷ [];
  account_read = λ a b. b;
  storage_read = λ a s b. b;
  storage_write = λ i a k v b. b;
  balance_change = λ i a n b. b;
  nonce_change = λ a i n b. b;
  code_change = λ a i c b. b;
  encode_rlp = λ b. ok b;
  decode_hash = λ bs. ok bs;
  from_hex = λ s. none;
}

abbrev pub remote : Remote geth
remote = record {
  answer = λ url method num. ok (record { result = 1 ∷ []; error = none });
  unmarshal_string = λ bs. ok (codes "0x01");
  unmarshal_strings = λ bs. ok (codes "0x0007" ∷ []);
  unmarshal_witness =
      λ bs. ok (record { state = codes "0x0102" ∷ []; codes = []; keys = []; headers = 2 ∷ [] });
  unmarshal_headers = λ bs. err (message "" []);
  encode_header = λ h. ok [];
  decode_block = λ bs. ok block;
  calc_requests_hash = λ rs. replicate (length rs) 1;
  empty_requests_hash = [];
  unmarshal_bal = λ bs. ok [];
  bal = bal;
  address_hex = λ bs. [];
  parse_host = λ url. none;
  read_file = λ path. err (message "" []);
  unix_now = 0;
  hmac_sha256 = λ key bs. [];
  post = λ url jwt hash. err (message "" []);
}

abbrev pub engine : EngineConfig
engine = record { url = []; jwt_secret_file = [] }

abbrev pub pool : Pool
pool = fresh (codes "http://a" ∷ [])

-- Chain id 5, no fork.
abbrev pub genesis : GenesisChainConfig
genesis = record { chain_id = 5; active_forks = [] }

abbrev or_nothing : Result Bytes → Bytes
or_nothing (ok bs) = bs
or_nothing _ = []

abbrev pub input : Bytes
input = or_nothing (fetch remote engine (some genesis) pool 9).0.input

pub fetched : (fetch remote engine (some genesis) pool 9).0.input ≡ ok input
unfolding fetch fetch_block fetch_witness bal_of with_bal fetch_requests hostname pick next hex_num
    format_uint format_digits block_meta decode_hex_result decode_headers call hex_str_to_bytes
    decode_string decode_hex_array decode_hex_from fetch_bal add_accounts bal_error
    active_genesis_fork newest_active zesu_input_ssz_from_block
    encode_new_payload_request_from_block encode_execution_payload_from_block marshal_all
    block_writes ssz_uint256 digits256 big_bytes reverse_into file_requests list_offsets
    encode_ssz_execution_requests
fetched = refl

pub clean : (fetch remote engine (some genesis) pool 9).0.meta.bal_err ≡ none
unfolding fetch fetch_block fetch_witness bal_of with_bal fetch_requests hostname pick next hex_num
    format_uint format_digits block_meta decode_hex_result decode_headers call hex_str_to_bytes
    decode_string decode_hex_array decode_hex_from fetch_bal add_accounts bal_error verify_bal_hash
clean = refl

fetched_size : length input ≡ 698
unfolding fetch fetch_block fetch_witness bal_of with_bal fetch_requests hostname pick next hex_num
    format_uint format_digits block_meta decode_hex_result decode_headers call hex_str_to_bytes
    decode_string decode_hex_array decode_hex_from fetch_bal add_accounts bal_error
    active_genesis_fork newest_active zesu_input_ssz_from_block
    encode_new_payload_request_from_block encode_execution_payload_from_block marshal_all
    block_writes ssz_uint256 digits256 big_bytes reverse_into file_requests list_offsets
    encode_ssz_execution_requests encode_stateless_input_container new_payload_request
    encode_execution_witness_from_arrays encode_ssz_byte_list_list byte_list_offsets
    encode_ssz_withdrawal_list encode_ssz_versioned_hashes schema_id_for le_bytes be_bytes
fetched_size = refl

decodes : (rlp : Bytes) (b : Block geth) → remote.decode_block rlp ≡ ok b → IsDecoded geth b
decodes rlp b h = let same : block ≡ b = cc in subst (IsDecoded geth) same decoded

no_fork : (t : ℕ) → genesis_fork (some genesis) t < 256
unfolding active_genesis_fork newest_active
no_fork t = omega arith

abbrev url : Text
url = (pick pool).0

read_input-fetch_example :
    (b : Block geth) × (w : Arrays) × (bal_bytes : Bytes) × (requests : List Bytes)
    × (base_fee : Bytes) × (raw_txs : List Bytes) × (fetch_block remote url (hex_num 9) ≡ ok b)
    × (fetch_witness remote url (hex_num 9) ≡ ok w)
    × (bal_of remote engine url (hex_num 9) b ≡ ok bal_bytes)
    × (fetch_requests remote url (hex_num 9) b ≡ ok requests)
    × (marshal_all geth b.transactions ≡ ok raw_txs)
    × (ssz_uint256 (or_zero_int b.header.base_fee) ≡ ok base_fee)
    × (read_input input
        ≡ fetched_input remote (some genesis) b w bal_bytes requests base_fee raw_txs)
read_input-fetch_example =
    read_input-fetch remote engine (some genesis) pool 9 decodes (omega arith) no_fork fetched
      (omega (arith, fetched_size))

-- A block whose header commits to an access list and to requests.
abbrev committed : Block geth
committed = record block {
  header = record header { requests_hash = some (1 ∷ []); block_access_list_hash = some (8 ∷ []) };
}

bal_error-none_example :
    (bal_error remote (8 ∷ []) committed ≡ none) ↔ HasBal remote committed (8 ∷ [])
bal_error-none_example = bal_error-none remote (8 ∷ []) committed

abbrev answered : List Bytes
answered = (0 ∷ 7 ∷ []) ∷ []

requests-ok : fetch_requests remote url (hex_num 9) committed ≡ ok answered
unfolding fetch_requests call decode_requests hex_str_to_bytes decode_string
requests-ok = refl

fetch_requests-hash_example : remote.calc_requests_hash answered ≡ 1 ∷ []
fetch_requests-hash_example = fetch_requests-hash remote url (hex_num 9) committed refl requests-ok
