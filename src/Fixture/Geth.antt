-- ===== src/Fixture/Geth.antt =====
-- What package fixture uses of go-ethereum, uint256 and encoding/json. The structs are those whose
-- fields the source reads or sets; the functions are parameters, with the sizes that they return.
use stateless_executor.Prelude.{ℕ, List, Option, ◌≡◌, length}
use stateless_executor.Prelude.Errors.{Result}
use stateless_executor.Prelude.Text.{Text}
use stateless_executor.Prelude.Endian.{Bytes}
use stateless_executor.Prelude.Int.{ℤ}
use stateless_executor.Fixture.Types.{
  Eip1559TxBody, LegacyTxBody, Eip4844TxBody, Eip2930TxBody, Eip7702TxBody, AccessTupleJson,
}

-- types.Header
pub record Header : Type 0 where
  pub parent_hash : Bytes
  pub uncle_hash : Bytes
  pub coinbase : Bytes
  pub root : Bytes
  pub tx_hash : Bytes
  pub receipt_hash : Bytes
  pub bloom : Bytes
  pub difficulty : ℤ
  pub number : ℤ
  pub gas_limit : ℕ
  pub gas_used : ℕ
  pub time : ℕ
  pub extra : Bytes
  pub mix_digest : Bytes
  pub nonce : Bytes
  pub base_fee : Option ℤ
  pub withdrawals_hash : Option Bytes
  pub blob_gas_used : Option ℕ
  pub excess_blob_gas : Option ℕ
  pub parent_beacon_root : Option Bytes
  pub requests_hash : Option Bytes
  pub block_access_list_hash : Option Bytes
  pub slot_number : Option ℕ

-- types.Withdrawal
pub record Withdrawal : Type 0 where
  pub index : ℕ
  pub validator : ℕ
  pub address : Bytes
  pub amount : ℕ

-- types.AccessTuple and types.SetCodeAuthorization
pub record AccessTuple : Type 0 where
  pub address : Bytes
  pub storage_keys : List Bytes

pub record SetCodeAuthorization : Type 0 where
  pub chain_id : ℕ
  pub address : Bytes
  pub nonce : ℕ
  pub v : ℕ
  pub r : ℕ
  pub s : ℕ

-- The transaction payloads handed to types.NewTx.
pub record LegacyTx : Type 0 where
  pub nonce : ℕ
  pub gas_price : ℤ
  pub gas : ℕ
  pub to : Option Bytes
  pub value : ℤ
  pub payload : Bytes
  pub v : ℤ
  pub r : ℤ
  pub s : ℤ

pub record AccessListTx : Type 0 where
  pub chain_id : ℤ
  pub nonce : ℕ
  pub gas_price : ℤ
  pub gas : ℕ
  pub to : Option Bytes
  pub value : ℤ
  pub payload : Bytes
  pub access_list : List AccessTuple
  pub v : ℤ
  pub r : ℤ
  pub s : ℤ

pub record DynamicFeeTx : Type 0 where
  pub chain_id : ℤ
  pub nonce : ℕ
  pub gas_tip_cap : ℤ
  pub gas_fee_cap : ℤ
  pub gas : ℕ
  pub to : Option Bytes
  pub value : ℤ
  pub payload : Bytes
  pub access_list : List AccessTuple
  pub v : ℤ
  pub r : ℤ
  pub s : ℤ

pub record BlobTx : Type 0 where
  pub chain_id : ℕ
  pub nonce : ℕ
  pub gas_tip_cap : ℕ
  pub gas_fee_cap : ℕ
  pub gas : ℕ
  pub to : Bytes
  pub value : ℕ
  pub payload : Bytes
  pub access_list : List AccessTuple
  pub blob_fee_cap : ℕ
  pub blob_hashes : List Bytes
  pub v : ℕ
  pub r : ℕ
  pub s : ℕ

pub record SetCodeTx : Type 0 where
  pub chain_id : ℕ
  pub nonce : ℕ
  pub gas_tip_cap : ℕ
  pub gas_fee_cap : ℕ
  pub gas : ℕ
  pub to : Bytes
  pub value : ℕ
  pub payload : Bytes
  pub access_list : List AccessTuple
  pub auth_list : List SetCodeAuthorization
  pub v : ℕ
  pub r : ℕ
  pub s : ℕ

pub data TxData : Type 0 where
  legacy : LegacyTx → TxData
  access_list_tx : AccessListTx → TxData
  dynamic_fee : DynamicFeeTx → TxData
  blob : BlobTx → TxData
  set_code : SetCodeTx → TxData

-- json.Unmarshal at the types that the source decodes into.
pub record Json : Type 0 where
  pub unmarshal_uint64 : Bytes → Result ℕ
  pub unmarshal_string : Bytes → Result Text
  pub unmarshal_eip1559 : Bytes → Result Eip1559TxBody
  pub unmarshal_legacy : Bytes → Result LegacyTxBody
  pub unmarshal_eip2930 : Bytes → Result Eip2930TxBody
  pub unmarshal_eip4844 : Bytes → Result Eip4844TxBody
  pub unmarshal_eip7702 : Bytes → Result Eip7702TxBody
  pub unmarshal_access_tuples : Bytes → Result (List AccessTupleJson)

-- go-ethereum's common, crypto, types and rlp packages, and uint256.
pub record Geth : Type 1 where
  pub hex_to_hash : Text → Bytes
  pub length-hex_to_hash : (s : Text) → length (hex_to_hash s) ≡ 32
  pub hex_to_address : Text → Bytes
  pub length-hex_to_address : (s : Text) → length (hex_to_address s) ≡ 20
  pub keccak256 : Bytes → Bytes
  pub header_hash : Header → Bytes
  pub length-header_hash : (h : Header) → length (header_hash h) ≡ 32
  -- The number that uint256.FromBig gives, or none for nil.
  pub from_big : ℤ → Option ℕ
  pub Tx : Type 0
  pub new_tx : TxData → Tx
  -- tx.Type() and tx.BlobHashes()
  pub tx_type : Tx → ℕ
  pub blob_hashes : Tx → List Bytes
  pub marshal_binary : Tx → Result Bytes
  -- rlp.EncodeToBytes of the block body {header, txs, no uncles, withdrawals}.
  pub encode_block : Header → List Tx → List Withdrawal → Result Bytes
