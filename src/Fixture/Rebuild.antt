-- ===== src/Fixture/Rebuild.antt =====
-- fixture/encode.go, fixtureHeader: the block header that a fixture describes.
use stateless_executor.Prelude.{Option, none, some}
use stateless_executor.Prelude.Errors.{Result, ok, ◌>>=◌, wrapping}
use stateless_executor.Prelude.Text.{Text}
use stateless_executor.Prelude.Endian.{Bytes}
use stateless_executor.Prelude.Int.{ℤ, pos}
use stateless_executor.Fixture.Types.{FixtureFile, FixtureHeader}
use stateless_executor.Fixture.Geth.{Json, Geth, Header}
use stateless_executor.Fixture.Hex.{hex_to_big_int, must_hex_to_bytes, hex_to_bloom, copy_into}
use stateless_executor.Fixture.Convert.{raw_json_to_big_int}

-- if p != nil { x = f(*p) }
abbrev pub map_ptr : (Text → Bytes) → Option Text → Option Bytes
map_ptr f none = none
map_ptr f (some s) = some (f s)

module _ (g : Geth) (j : Json) where
  open g use {hex_to_hash, hex_to_address, keccak256}

  unfoldable pub header_of : FixtureHeader → Option Text → ℤ → ℤ → Header
  header_of h bal difficulty base_fee = record {
    parent_hash = hex_to_hash h.parent_hash;
    uncle_hash = hex_to_hash h.ommers_hash;
    coinbase = hex_to_address h.beneficiary;
    root = hex_to_hash h.state_root;
    tx_hash = hex_to_hash h.transactions_root;
    receipt_hash = hex_to_hash h.receipts_root;
    bloom = hex_to_bloom h.logs_bloom;
    difficulty = difficulty;
    number = pos h.number;
    gas_limit = h.gas_limit;
    gas_used = h.gas_used;
    time = h.timestamp;
    extra = must_hex_to_bytes h.extra_data;
    mix_digest = hex_to_hash h.mix_hash;
    nonce = copy_into 8 (must_hex_to_bytes h.nonce);
    base_fee = some base_fee;
    withdrawals_hash = map_ptr hex_to_hash h.withdrawals_root;
    blob_gas_used = h.blob_gas_used;
    excess_blob_gas = h.excess_blob_gas;
    parent_beacon_root = map_ptr hex_to_hash h.parent_beacon_block_root;
    requests_hash = map_ptr hex_to_hash h.requests_hash;
    block_access_list_hash = map_ptr (λ s. keccak256 (must_hex_to_bytes s)) bal;
    slot_number = h.slot_number;
  }

  unfoldable pub fixture_header : FixtureFile → Result Header
  unfolding header_of
  fixture_header f = do
    let h = f.stateless_input.block.header
    difficulty ← wrapping "difficulty" (hex_to_big_int h.difficulty)
    base_fee ← wrapping "baseFee" (raw_json_to_big_int j h.base_fee_per_gas)
    ok (header_of h f.stateless_input.block.body.block_access_list difficulty base_fee)
