-- ===== src/Fixture/Types.antt =====
-- fixture/fixture.go: the structs of the stateless-validator fixture. Strings and raw JSON are
-- lists of bytes, pointers are options, and a JSON map is an association list.
use stateless_executor.Prelude.{ℕ, Bool, List, Option}
use stateless_executor.Prelude.Text.{Text}
use stateless_executor.Prelude.Endian.{Bytes}

pub record FixtureChainConfig : Type 0 where
  pub chain_id : ℕ
  pub shanghai_time : Option ℕ
  pub cancun_time : Option ℕ
  pub prague_time : Option ℕ
  pub osaka_time : Option ℕ
  pub bpo1_time : Option ℕ
  pub bpo2_time : Option ℕ
  pub amsterdam_time : Option ℕ

pub record WitnessData : Type 0 where
  pub state : List Text
  pub codes : List Text
  pub keys : List Text
  pub headers : List Text

pub record FixtureHeader : Type 0 where
  pub parent_hash : Text
  pub ommers_hash : Text
  pub beneficiary : Text
  pub state_root : Text
  pub transactions_root : Text
  pub receipts_root : Text
  pub withdrawals_root : Option Text
  pub logs_bloom : Text
  pub difficulty : Text
  pub number : ℕ
  pub gas_limit : ℕ
  pub gas_used : ℕ
  pub timestamp : ℕ
  pub mix_hash : Text
  pub nonce : Text
  pub base_fee_per_gas : Bytes
  pub blob_gas_used : Option ℕ
  pub excess_blob_gas : Option ℕ
  pub parent_beacon_block_root : Option Text
  pub requests_hash : Option Text
  pub slot_number : Option ℕ
  pub extra_data : Text

pub record FixtureSig : Type 0 where
  pub r : Text
  pub s : Text
  pub y_parity : Text
  pub v : Text

pub record FixtureTx : Type 0 where
  pub signature : FixtureSig
  pub transaction : List (Text × Bytes)

pub record FixtureWithdrawal : Type 0 where
  pub index : Text
  pub validator_index : Text
  pub address : Text
  pub amount : Text

pub record FixtureBody : Type 0 where
  pub transactions : List FixtureTx
  pub ommers : List Bytes
  pub withdrawals : List FixtureWithdrawal
  pub block_access_list : Option Text

pub record FixtureBlock : Type 0 where
  pub header : FixtureHeader
  pub body : FixtureBody

pub record StatelessInput : Type 0 where
  pub block : FixtureBlock
  pub witness : WitnessData
  pub chain_config : Option FixtureChainConfig

pub record FixtureFile : Type 0 where
  pub name : Text
  pub network : Text
  pub stateless_input : StatelessInput
  pub success : Bool

pub record Eip1559TxBody : Type 0 where
  pub chain_id : ℕ
  pub nonce : ℕ
  pub gas_limit : ℕ
  pub max_fee_per_gas : ℕ
  pub max_priority_fee_per_gas : ℕ
  pub to : Option Text
  pub value : Text
  pub access_list : Bytes
  pub input : Text

pub record LegacyTxBody : Type 0 where
  pub chain_id : Bytes
  pub nonce : ℕ
  pub gas_price : ℕ
  pub gas_limit : ℕ
  pub to : Option Text
  pub value : Text
  pub input : Text

pub record Eip4844TxBody : Type 0 where
  pub chain_id : Text
  pub nonce : Text
  pub gas : Text
  pub max_fee_per_gas : Text
  pub max_priority_fee_per_gas : Text
  pub to : Text
  pub value : Text
  pub access_list : Bytes
  pub blob_versioned_hashes : List Text
  pub max_fee_per_blob_gas : Text
  pub input : Text

pub record Eip2930TxBody : Type 0 where
  pub chain_id : ℕ
  pub nonce : ℕ
  pub gas_price : ℕ
  pub gas_limit : ℕ
  pub to : Option Text
  pub value : Text
  pub access_list : Bytes
  pub input : Text

pub record AuthInner : Type 0 where
  pub chain_id : Text
  pub address : Text
  pub nonce : Text

pub record FixtureAuthorization : Type 0 where
  pub inner : AuthInner
  pub y_parity : Text
  pub r : Text
  pub s : Text

pub record Eip7702TxBody : Type 0 where
  pub chain_id : ℕ
  pub nonce : ℕ
  pub gas_limit : ℕ
  pub max_fee_per_gas : ℕ
  pub max_priority_fee_per_gas : ℕ
  pub to : Text
  pub value : Text
  pub access_list : Bytes
  pub authorization_list : List FixtureAuthorization
  pub input : Text

pub record AccessTupleJson : Type 0 where
  pub address : Text
  pub storage_keys : List Text
