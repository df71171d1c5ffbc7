-- ===== src/Examples.antt =====
-- Small concrete values: a stand-in for the external packages, a block, a fixture and a fork config.
mod Wire
mod Forks
mod Hosts
mod Files
mod Blocks
mod Fetched
mod Served
mod Rows
use stateless_executor.Prelude.{ℕ, List, [], ◌∷◌, Option, none, some, replicate, refl}
use stateless_executor.Prelude.Errors.{Result, ok, err, message}
use stateless_executor.Prelude.Text.{codes}
use stateless_executor.Prelude.Endian.{Bytes}
use stateless_executor.Prelude.Int.{pos}
use stateless_executor.Fixture.Types.{
  FixtureChainConfig, FixtureHeader, FixtureFile, FixtureWithdrawal,
}
use stateless_executor.Fixture.Geth.{Geth, Json, Header, Withdrawal}
use stateless_executor.Fixture.Live.{Block}

-- Hashes are zero, transactions are their own encodings, and the first byte is the type.
abbrev pub geth : Geth
geth = record {
  hex_to_hash = λ s. replicate 32 0;
  length-hex_to_hash = λ s. refl;
  hex_to_address = λ s. replicate 20 0;
  length-hex_to_address = λ s. refl;
  keccak256 = λ bs. replicate 32 0;
  header_hash = λ h. replicate 32 0;
  length-header_hash = λ h. refl;
  from_big = λ z. none;
  Tx = Bytes;
  new_tx = λ d. [];
  tx_type = λ tx. 0;
  blob_hashes = λ tx. [];
  marshal_binary = λ tx. ok tx;
  encode_block = λ h txs wds. ok [];
}

-- A decoder that reads the first byte as a number and knows nothing else.
abbrev first_byte : Bytes → Result ℕ
first_byte [] = err (message "unexpected end of JSON input" [])
first_byte (b ∷ bs) = ok b

abbrev pub json : Json
json = record {
  unmarshal_uint64 = first_byte;
  unmarshal_string = λ bs. ok bs;
  unmarshal_eip1559 = λ bs. err (message "" []);
  unmarshal_legacy = λ bs. err (message "" []);
  unmarshal_eip2930 = λ bs. err (message "" []);
  unmarshal_eip4844 = λ bs. err (message "" []);
  unmarshal_eip7702 = λ bs. err (message "" []);
  unmarshal_access_tuples = λ bs. err (message "" []);
}

abbrev pub header : Header
header = record {
  parent_hash = replicate 32 1;
  uncle_hash = replicate 32 0;
  coinbase = replicate 20 2;
  root = replicate 32 3;
  tx_hash = replicate 32 0;
  receipt_hash = replicate 32 4;
  bloom = replicate 256 0;
  difficulty = pos 0;
  number = pos 7;
  gas_limit = 30;
  gas_used = 21;
  time = 1000;
  extra = 9 ∷ [];
  mix_digest = replicate 32 5;
  nonce = replicate 8 0;
  base_fee = some (pos 300);
  withdrawals_hash = none;
  blob_gas_used = some 0;
  excess_blob_gas = none;
  parent_beacon_root = none;
  requests_hash = none;
  block_access_list_hash = none;
  slot_number = none;
}

abbrev pub withdrawal : Withdrawal
withdrawal = record { index = 1; validator = 300; address = replicate 20 6; amount = 5 }

abbrev pub block : Block geth
block = record {
  header = header;
  hash = replicate 32 8;
  beacon_root = none;
  transactions = (2 ∷ 3 ∷ []) ∷ [];
  withdrawals = withdrawal ∷ [];
}

-- Cancun at 0 and Prague at 500, nothing else.
abbrev pub chain_config : FixtureChainConfig
chain_config = record {
  chain_id = 17000;
  shanghai_time = none;
  cancun_time = some 0;
  prague_time = some 500;
  osaka_time = none;
  bpo1_time = none;
  bpo2_time = none;
  amsterdam_time = none;
}
