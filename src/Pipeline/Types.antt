-- ===== src/Pipeline/Types.antt =====
-- The data of pipeline/pipeline.go: what Fetch reports of a block, the JSON that a node answers, and
-- what the pipeline uses of go-ethereum, uint256, encoding/json and net/url.
use stateless_executor.Prelude.{ℕ, List, Option, none, []}
use stateless_executor.Prelude.Errors.{Error, Result}
use stateless_executor.Prelude.Text.{Text}
use stateless_executor.Prelude.Endian.{Bytes}
use stateless_executor.Prelude.Int.{ℤ}
use stateless_executor.Fixture.Geth.{Geth, Header}
use stateless_executor.Fixture.Live.{Block}
use stateless_executor.Pool.{RpcResponse}

-- `bal_err` stands last in the source too; nil is none.
pub record BlockMeta : Type 0 where
  pub parent_hash : Text
  pub coinbase : Text
  pub state_root : Text
  pub receipts_root : Text
  pub prev_randao : Text
  pub extra_data : Text
  pub tx_count : ℕ
  pub withdraw_count : ℕ
  pub gas_used : ℕ
  pub gas_limit : ℕ
  pub timestamp : ℕ
  pub base_fee : ℕ
  pub blob_gas_used : ℕ
  pub excess_blob_gas : ℕ
  pub slot_number : ℕ
  pub bal_bytes : ℕ
  pub bal_err : Option Error

-- BlockMeta{}
abbrev pub no_meta : BlockMeta
no_meta = record {
  parent_hash = [];
  coinbase = [];
  state_root = [];
  receipts_root = [];
  prev_randao = [];
  extra_data = [];
  tx_count = 0;
  withdraw_count = 0;
  gas_used = 0;
  gas_limit = 0;
  timestamp = 0;
  base_fee = 0;
  blob_gas_used = 0;
  excess_blob_gas = 0;
  slot_number = 0;
  bal_bytes = 0;
  bal_err = none;
}

-- `witness`: the headers are raw JSON, whose shape depends on the client.
pub record Witness : Type 0 where
  pub state : List Text
  pub codes : List Text
  pub keys : List Text
  pub headers : Bytes

pub record BalStorageWriteJson : Type 0 where
  pub tx_index : ℤ
  pub new_value : Text

pub record BalStorageChangeJson : Type 0 where
  pub slot : Text
  pub changes : List BalStorageWriteJson

pub record BalBalanceChangeJson : Type 0 where
  pub tx_index : ℤ
  pub post_balance : Text

pub record BalNonceChangeJson : Type 0 where
  pub tx_index : ℤ
  pub new_nonce : ℕ

pub record BalCodeChangeJson : Type 0 where
  pub tx_index : ℤ
  pub new_code : Text

pub record BalAccountChangeJson : Type 0 where
  pub address : Text
  pub storage_reads : List Text
  pub storage_changes : List BalStorageChangeJson
  pub balance_changes : List BalBalanceChangeJson
  pub nonce_changes : List BalNonceChangeJson
  pub code_change : Option BalCodeChangeJson

-- The decoded answer of the engine API.
pub record PayloadBodies : Type 0 where
  pub result : List Text
  pub error : Option Text

-- bal.ConstructionBlockAccessList, bal.BlockAccessList and the calls on them.
pub record BalPackage : Type 1 where
  pub Builder : Type 0
  pub new_builder : Builder
  pub account_read : Bytes → Builder → Builder
  pub storage_read : Bytes → Bytes → Builder → Builder
  pub storage_write : ℕ → Bytes → Bytes → Bytes → Builder → Builder
  pub balance_change : ℕ → Bytes → ℕ → Builder → Builder
  pub nonce_change : Bytes → ℕ → ℕ → Builder → Builder
  pub code_change : Bytes → ℕ → Bytes → Builder → Builder
  pub encode_rlp : Builder → Result Bytes
  -- rlp.DecodeBytes into a BlockAccessList, with the Hash of what it decodes.
  pub decode_hash : Bytes → Result Bytes
  -- uint256.FromHex, none for nil.
  pub from_hex : Text → Option ℕ

-- The decoders, the hash of the requests and the requests that go over the network.
pub record Remote (g : Geth) : Type 1 where
  -- The answer of the node at a url to a method with a block number as its parameter.
  pub answer : Text → Text → Text → Result RpcResponse
  pub unmarshal_string : Bytes → Result Text
  pub unmarshal_strings : Bytes → Result (List Text)
  pub unmarshal_witness : Bytes → Result Witness
  -- json.Unmarshal into []*types.Header and rlp.EncodeToBytes of one.
  pub unmarshal_headers : Bytes → Result (List Header)
  pub encode_header : Header → Result Bytes
  -- rlp.DecodeBytes into a types.Block.
  pub decode_block : Bytes → Result (Block g)
  pub calc_requests_hash : List Bytes → Bytes
  pub empty_requests_hash : Bytes
  pub unmarshal_bal : Bytes → Result (List BalAccountChangeJson)
  pub bal : BalPackage
  -- The checksummed text of an address.
  pub address_hex : Bytes → Text
  -- url.Parse and Hostname, none where the url does not parse.
  pub parse_host : Text → Option Text
  -- The content of the file of the JWT secret.
  pub read_file : Text → Result Text
  -- time.Now().Unix() and HMAC-SHA256.
  pub unix_now : ℕ
  pub hmac_sha256 : Bytes → Bytes → Bytes
  -- The POST to the engine: its url, the bearer token and the hash in the body.
  pub post : Text → Text → Text → Result PayloadBodies
