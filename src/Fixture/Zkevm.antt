-- ===== src/Fixture/Zkevm.antt =====
-- The zkevm blockchain tests of fixture/fixture.go, and their guest inputs by fixture/encode.go.
pub mod Input
use stateless_executor.Prelude.{ℕ, Bool, true, false, List, [], ◌∷◌}
use stateless_executor.Prelude.Errors.{
  Error, Result, ok, err, panic, wrap, missing_stateless_input_bytes,
}
use stateless_executor.Prelude.Text.{Text, text_eq}
use stateless_executor.Fixture.Hex.{hex_to_uint64, hex_str_to_bytes}
use stateless_executor.Fixture.Ssz.{zkvm_frame}

pub record ZkevmHeader : Type 0 where
  pub number : Text
  pub gas_used : Text

pub record ZkevmTx : Type 0 where
  pub tx_type : Text

pub record ZkevmBlock : Type 0 where
  pub block_header : ZkevmHeader
  pub transactions : List ZkevmTx
  pub stateless_input_bytes : Text
  pub stateless_output_bytes : Text
  pub expect_exception : Text

pub record ZkevmTestCase : Type 0 where
  pub name : Text
  pub network : Text
  pub blocks : List ZkevmBlock

abbrev pub or_zero : Result ℕ → ℕ
or_zero (ok n) = n
or_zero (err e) = 0
or_zero panic = 0

unfoldable pub number : ZkevmBlock → ℕ
number b = or_zero (hex_to_uint64 b.block_header.number)

unfoldable pub gas_used : ZkevmBlock → ℕ
gas_used b = or_zero (hex_to_uint64 b.block_header.gas_used)

-- An engine payload, with the block number and the gas used of each of its params.
pub record EnginePayload : Type 0 where
  pub params : List ZkevmHeader
  pub stateless_input_bytes : Text
  pub stateless_output_bytes : Text
  pub validation_error : Text

abbrev pub header_or_empty : List ZkevmHeader → ZkevmHeader
header_or_empty [] = record { number = []; gas_used = [] }
header_or_empty (h ∷ hs) = h

-- The loop of `blocks`.
unfoldable pub engine_blocks : List EnginePayload → List ZkevmBlock
engine_blocks [] = []
engine_blocks (p ∷ ps) =
    record {
      block_header = header_or_empty p.params;
      transactions = [];
      stateless_input_bytes = p.stateless_input_bytes;
      stateless_output_bytes = p.stateless_output_bytes;
      expect_exception = p.validation_error;
    }
    ∷ engine_blocks ps

-- The input that a decoded text makes, with the flag that goes with it.
abbrev pub framed : Bool → Result (List ℕ) → Result (List ℕ) × Bool
framed expected_success (ok ssz) = (ok (zkvm_frame ssz), expected_success)
framed expected_success (err e) = (err (wrap "decode statelessInputBytes" e), false)
framed expected_success panic = (panic, false)

-- The same for the text itself, which must not be empty.
abbrev pub input_of : Bool → Text → Result (List ℕ) × Bool
input_of expected_success [] = (err missing_stateless_input_bytes, expected_success)
input_of expected_success (c ∷ s) = framed expected_success (hex_str_to_bytes (c ∷ s))

-- The bytes or the error, and the expected success that is returned in either case.
unfoldable pub zesu_input_from_zkevm_block : ZkevmTestCase → ZkevmBlock → Result (List ℕ) × Bool
zesu_input_from_zkevm_block tc block =
    let expected_success = text_eq block.expect_exception [] in
    input_of expected_success block.stateless_input_bytes
