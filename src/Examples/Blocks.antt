-- ===== src/Examples/Blocks.antt =====
-- A block of the zkevm tests, from its input to its verdict.
use stateless_executor.Prelude.{
  ◌≡◌, ◌≢◌, ◌↔◌, refl, true, [], ◌∷◌, length, take, Option, none, arith,
}
use stateless_executor.Prelude.Errors.{Error, Result, ok}
use stateless_executor.Prelude.Text.{codes, text_eq}
use stateless_executor.Prelude.Endian.{Bytes, le_bytes}
use stateless_executor.Fixture.Hex.{hex_str_to_bytes, decode_string}
use stateless_executor.Fixture.Ssz.{zkvm_frame}
use stateless_executor.Fixture.Ssz.Frame.{read_frame}
use stateless_executor.Fixture.Zkevm.{ZkevmBlock, ZkevmTestCase, zesu_input_from_zkevm_block}
use stateless_executor.Fixture.Zkevm.Input.{read_frame-zesu_input_from_zkevm_block}
use stateless_executor.Emu
use stateless_executor.Emu.{empty_result}
use stateless_executor.Bench.{Encoded, VerdictKind, verify_eest, normalise_hex}
use stateless_executor.Bench.Passing.{verify_eest_pass_iff}

abbrev pub zkevm_block : ZkevmBlock
zkevm_block = record {
  block_header = record { number = codes "0x01"; gas_used = codes "0x5208" };
  transactions = record { tx_type = codes "0x02" } ∷ record { tx_type = codes "0x00" } ∷ [];
  stateless_input_bytes = codes "0x1501ff";
  stateless_output_bytes = codes "0x00";
  expect_exception = [];
}

abbrev pub test_case : ZkevmTestCase
test_case = record { name = []; network = []; blocks = zkevm_block ∷ [] }

abbrev bytes_of : Result Bytes → Bytes
bytes_of (ok bs) = bs
bytes_of _ = []

input-ok :
    zesu_input_from_zkevm_block test_case zkevm_block
    ≡ (ok (bytes_of (zesu_input_from_zkevm_block test_case zkevm_block).0), true)
unfolding zesu_input_from_zkevm_block hex_str_to_bytes decode_string
input-ok = refl

input_size : length (bytes_of (zesu_input_from_zkevm_block test_case zkevm_block).0) ≡ 16
unfolding zesu_input_from_zkevm_block hex_str_to_bytes decode_string zkvm_frame le_bytes
input_size = refl

read_frame-zesu_input_from_zkevm_block_example :
    (ssz : Bytes) × (hex_str_to_bytes (codes "0x1501ff") ≡ ok ssz)
    × (read_frame (bytes_of (zesu_input_from_zkevm_block test_case zkevm_block).0) ≡ ssz)
    × (true ≡ text_eq [] [])
    × (zkevm_block.stateless_input_bytes ≢ [])
read_frame-zesu_input_from_zkevm_block_example =
    read_frame-zesu_input_from_zkevm_block test_case zkevm_block input-ok
      (omega (arith, input_size))

abbrev no_error : Option Error
no_error = none

abbrev encoded : Encoded
encoded = record { expected_success = true; expected_output_hex = codes "0a" }

abbrev emulated : Emu.Result
emulated = record (empty_result []) { output_hex = codes "0a00" }

verify_eest_pass_iff_example : ((verify_eest encoded emulated no_error).kind ≡ VerdictKind.pass) ↔ (
    (no_error ≡ none)
    × (encoded.expected_output_hex ≢ [])
    × (take 2 (normalise_hex emulated.output_hex) ≡ encoded.expected_output_hex))
verify_eest_pass_iff_example = verify_eest_pass_iff encoded emulated no_error
