-- ===== src/Pipeline/Fetch.antt =====
-- Fetch of pipeline/pipeline.go, in the order of its calls. What it returns beside the input (the
-- node's name and the block's metadata) is returned on every path, errors included.
use stateless_executor.Prelude.{
  ℕ, ◌+◌, not, ◌&&◌, ◌||◌, List, [], ◌∷◌, ◌++◌, Option, none, some, if◌then◌else◌, length,
}
use stateless_executor.Prelude.Errors.{
  Error, Result, ok, err, panic, message, ◌>>=◌, wrapping, wrapping_at,
}
use stateless_executor.Prelude.Text.{Text, codes, text_eq}
use stateless_executor.Prelude.Endian.{Bytes}
use stateless_executor.Fixture.Geth.{Geth, Header}
use stateless_executor.Fixture.Hex.{hex_prefix, hex_str_to_bytes, decode_hex_array, low64}
use stateless_executor.Fixture.Live.{Block, or_zero_int, zesu_input_ssz_from_block}
use stateless_executor.Fixture.Fork.{GenesisChainConfig, active_genesis_fork, or_zero}
use stateless_executor.Emu.{encode_to_string}
use stateless_executor.Pool.{Pool, call, pick}
use stateless_executor.Pipeline.Types.{Remote, BlockMeta, no_meta}
use stateless_executor.Pipeline.Engine.{format_uint, fetch_bal_from_engine}
use stateless_executor.Pipeline.Bal.{fetch_bal, verify_bal_hash}

-- The number of a block as the methods of the node take it.
unfoldable pub hex_num : ℕ → Text
unfolding format_uint
hex_num block_num = hex_prefix ++ format_uint block_num 16

-- Hex of a hash, and fmt's %x behind 0x.
abbrev pub hash_hex : Bytes → Text
hash_hex b = hex_prefix ++ encode_to_string b

-- The witness with its three lists decoded.
pub record Arrays : Type 0 where
  pub state : List Bytes
  pub codes : List Bytes
  pub headers : List Bytes

pub record Fetched : Type 0 where
  pub input : Result Bytes
  pub el_node : Text
  pub meta : BlockMeta

-- ENGINE_RPC_URL and JWT_SECRET_FILE, both empty where they are not set.
pub record EngineConfig : Type 0 where
  pub url : Text
  pub jwt_secret_file : Text

abbrev pub no_node : Error
no_node = message "pipeline: no healthy EL node available" []

-- What is left of the fallback: nil bytes for its error, which is only logged.
abbrev pub or_no_bytes : Result Bytes → Result Bytes
or_no_bytes (ok b) = ok b
or_no_bytes (err e) = ok []
or_no_bytes panic = panic

abbrev pub if_none : Option Bytes → Result Bytes → Result Bytes
if_none none other = other
if_none (some b) other = ok b

abbrev pub not_fetched : Error
not_fetched = message "header commits to a BAL but none was fetched" []

-- The loop over the encoded requests, from request i on.
unfoldable pub decode_requests : ℕ → List Text → Result (List Bytes)
unfolding hex_str_to_bytes
decode_requests i [] = ok []
decode_requests i (e ∷ encoded) = do
  b ← wrapping_at "request" i (hex_str_to_bytes e)
  requests ← decode_requests (i + 1) encoded
  ok (b ∷ requests)

abbrev pub genesis_chain : Option GenesisChainConfig → ℕ
genesis_chain none = 0
genesis_chain (some genesis) = genesis.chain_id

abbrev pub genesis_fork : Option GenesisChainConfig → ℕ → ℕ
genesis_fork none time = 0
genesis_fork (some genesis) time = active_genesis_fork genesis time

module _ {g : Geth} (r : Remote g) where
  unfoldable pub hostname : Text → Text
  hostname raw_url = elim (r.parse_host raw_url) [ none ↦ raw_url | some host ↦ host ]

  unfoldable pub decode_hex_result : Bytes → Result Bytes
  unfolding hex_str_to_bytes
  decode_hex_result raw = do s ← r.unmarshal_string raw; hex_str_to_bytes s

  -- The loop over header objects, from element i on.
  unfoldable pub encode_headers : ℕ → List Header → Result (List Bytes)
  encode_headers i [] = ok []
  encode_headers i (h ∷ hs) = do
    b ← wrapping_at "RLP-encoding header" i (r.encode_header h)
    out ← encode_headers (i + 1) hs
    ok (b ∷ out)

  abbrev pub geth_headers : Bytes → Result (List Bytes)
  geth_headers raw = do
    headers ← wrapping "unrecognised headers format" (r.unmarshal_headers raw)
    encode_headers 0 headers

  unfoldable pub decode_headers : Bytes → Result (List Bytes)
  unfolding decode_hex_array encode_headers
  decode_headers raw =
      if text_eq raw [] || (text_eq raw (codes "null") || text_eq raw (codes "[]"))
      then ok []
      else elim (r.unmarshal_strings raw) [
        | ok hex_strs ↦ decode_hex_array hex_strs
        | _ ↦ geth_headers raw
      ]

  unfoldable pub fetch_block : Text → Text → Result (Block g)
  unfolding call decode_hex_result
  fetch_block raw_url num = do
    raw ←
        wrapping "pipeline: debug_getRawBlock"
          (call (r.answer raw_url (codes "debug_getRawBlock") num))
    block_rlp ← wrapping "pipeline: decoding block RLP" (decode_hex_result raw)
    wrapping "pipeline: block RLP decode" (r.decode_block block_rlp)

  unfoldable pub block_meta : Block g → BlockMeta
  unfolding encode_to_string
  block_meta block = record {
    parent_hash = hash_hex block.header.parent_hash;
    coinbase = r.address_hex block.header.coinbase;
    state_root = hash_hex block.header.root;
    receipts_root = hash_hex block.header.receipt_hash;
    prev_randao = hash_hex block.header.mix_digest;
    extra_data = hash_hex block.header.extra;
    tx_count = length block.transactions;
    withdraw_count = length block.withdrawals;
    gas_used = block.header.gas_used;
    gas_limit = block.header.gas_limit;
    timestamp = block.header.time;
    base_fee = low64 (or_zero_int block.header.base_fee);
    blob_gas_used = or_zero block.header.blob_gas_used;
    excess_blob_gas = or_zero block.header.excess_blob_gas;
    slot_number = or_zero block.header.slot_number;
    bal_bytes = 0;
    bal_err = none;
  }

  unfoldable pub fetch_witness : Text → Text → Result Arrays
  unfolding call decode_headers decode_hex_array
  fetch_witness raw_url num = do
    result ←
        wrapping "pipeline: debug_executionWitness"
          (call (r.answer raw_url (codes "debug_executionWitness") num))
    w ← wrapping "pipeline: decoding witness JSON" (r.unmarshal_witness result)
    headers ← wrapping "pipeline: decoding headers" (decode_headers w.headers)
    state ← wrapping "pipeline: decoding witness state" (decode_hex_array w.state)
    codes' ← wrapping "pipeline: decoding witness codes" (decode_hex_array w.codes)
    ok (record { state = state; codes = codes'; headers = headers })

  -- The engine API first, if it is configured, then the node; errors are dropped.
  abbrev pub engine_bytes : EngineConfig → Block g → Option Bytes
  engine_bytes e block =
      if not (text_eq e.url []) && not (text_eq e.jwt_secret_file [])
      then (fetch_bal_from_engine r e.url e.jwt_secret_file block.hash).bytes
      else none

  unfoldable pub bal_of : EngineConfig → Text → Text → Block g → Result Bytes
  unfolding fetch_bal fetch_bal_from_engine
  bal_of e raw_url num block =
      if_none (engine_bytes e block) (or_no_bytes (fetch_bal r raw_url num))

  abbrev pub missing_bal : Option Bytes → Option Error
  missing_bal none = none
  missing_bal (some h) = some not_fetched

  unfoldable pub bal_error : Bytes → Block g → Option Error
  unfolding verify_bal_hash
  bal_error [] block = missing_bal block.header.block_access_list_hash
  bal_error (b ∷ bs) block = verify_bal_hash r (b ∷ bs) block

  unfoldable pub with_bal : Bytes → Block g → BlockMeta
  unfolding block_meta bal_error
  with_bal bal_bytes block = record (block_meta block) {
    bal_err = bal_error bal_bytes block;
    bal_bytes = length bal_bytes;
  }

  -- `fetchRequests` where the header commits to requests.
  abbrev pub asked_requests : Text → Text → Bytes → Result (List Bytes)
  asked_requests raw_url num want = do
    raw ← call (r.answer raw_url (codes "debug_getRawExecutionRequests") num)
    encoded ← wrapping "decoding debug_getRawExecutionRequests" (r.unmarshal_strings raw)
    requests ← decode_requests 0 encoded
    if text_eq (r.calc_requests_hash requests) want
        then ok requests
        else err (message "requests hash does not match header" want)

  unfoldable pub fetch_requests : Text → Text → Block g → Result (List Bytes)
  unfolding call decode_requests
  fetch_requests raw_url num block = elim block.header.requests_hash [
    | none ↦ ok []
    | some want ↦
        if text_eq want r.empty_requests_hash then ok [] else asked_requests raw_url num want
  ]

  abbrev pub input_of :
      Option GenesisChainConfig → Block g → Arrays → Bytes → List Bytes → Result Bytes
  input_of genesis block w bal_bytes requests =
      zesu_input_ssz_from_block g block w.state w.codes w.headers bal_bytes requests
        (genesis_chain genesis) (genesis_fork genesis block.header.time)

  -- From the access list on.
  abbrev pub fetch_with :
      Option GenesisChainConfig → Text → Text → Block g → Arrays → Result Bytes → Fetched
  fetch_with genesis raw_url num block w (ok bal_bytes) =
      let requests = wrapping "pipeline: execution requests" (fetch_requests raw_url num block) in
      record {
        input = requests >>= input_of genesis block w bal_bytes;
        el_node = hostname raw_url;
        meta = with_bal bal_bytes block;
      }
  fetch_with genesis raw_url num block w (err e) = record {
    input = err e;
    el_node = hostname raw_url;
    meta = block_meta block;
  }
  fetch_with genesis raw_url num block w panic = record {
    input = panic;
    el_node = hostname raw_url;
    meta = block_meta block;
  }

  -- From the witness on.
  abbrev pub fetch_rest :
      EngineConfig → Option GenesisChainConfig → Text → Text → Block g → Arrays → Fetched
  fetch_rest e genesis raw_url num block w =
      fetch_with genesis raw_url num block w (bal_of e raw_url num block)

  -- The early returns behind the block and behind the witness: a block that was decoded has its
  -- metadata reported, whatever follows.
  abbrev pub staged :
      Text → Result (Block g) → Result Arrays → (Block g → Arrays → Fetched) → Fetched
  staged node (err e) w rest = record { input = err e; el_node = node; meta = no_meta }
  staged node panic w rest = record { input = panic; el_node = node; meta = no_meta }
  staged node (ok block) (err e) rest = record {
    input = err e;
    el_node = node;
    meta = block_meta block;
  }
  staged node (ok block) panic rest = record {
    input = panic;
    el_node = node;
    meta = block_meta block;
  }
  staged node (ok block) (ok w) rest = rest block w

  abbrev pub fetch_from : EngineConfig → Option GenesisChainConfig → Text → Text → Fetched
  fetch_from e genesis raw_url num =
      staged (hostname raw_url) (fetch_block raw_url num) (fetch_witness raw_url num)
        (fetch_rest e genesis raw_url num)

  unfoldable pub fetch : EngineConfig → Option GenesisChainConfig → Pool → ℕ → Fetched × Pool
  unfolding fetch_block fetch_witness bal_of with_bal fetch_requests hostname pick hex_num
      zesu_input_ssz_from_block active_genesis_fork block_meta
  fetch e genesis p block_num =
      let (raw_url, p') = pick p in
      if text_eq raw_url []
      then (record { input = err no_node; el_node = []; meta = no_meta }, p')
      else (fetch_from e genesis raw_url (hex_num block_num), p')
