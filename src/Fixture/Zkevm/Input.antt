-- ===== src/Fixture/Zkevm/Input.antt =====
-- What the guest reads of the input of a zkevm block, for every outcome of
-- ZesuInputFromZkevmBlock in fixture/encode.go.
use stateless_executor.Prelude.{◌≡◌, ◌≢◌, refl, ap, ◌∙◌, [], ◌∷◌, Bool, length, arith}
use stateless_executor.Prelude.Errors.{Result, ok, err, panic}
use stateless_executor.Prelude.Text.{text_eq}
use stateless_executor.Prelude.Endian.{Bytes, IsU64}
use stateless_executor.Fixture.Hex.{hex_str_to_bytes}
use stateless_executor.Fixture.Ssz.{zkvm_frame}
use stateless_executor.Fixture.Ssz.Frame.{read_frame, read_frame-zkvm_frame, length-zkvm_frame}
use stateless_executor.Fixture.Zkevm.{
  ZkevmTestCase, ZkevmBlock, framed, input_of, zesu_input_from_zkevm_block,
}

framed_parts :
    (flag flag' : Bool) (r : Result Bytes) {bs : Bytes}
    → framed flag r ≡ (ok bs, flag')
    → (ssz : Bytes) × (r ≡ ok ssz) × (bs ≡ zkvm_frame ssz) × (flag' ≡ flag)
framed_parts flag flag' (ok ssz) e = (ssz, refl, cc e, cc e)
framed_parts flag flag' (err x) e = cc
framed_parts flag flag' panic e = cc

-- If an input of less than 2^64 bytes is made of a block, the guest reads the block's decoded
-- stateless input bytes, which were not empty, and success is expected exactly if the block names
-- no exception.
pub read_frame-zesu_input_from_zkevm_block :
    (tc : ZkevmTestCase) (block : ZkevmBlock) {bs : Bytes} {flag : Bool}
    → zesu_input_from_zkevm_block tc block ≡ (ok bs, flag)
    → IsU64 (length bs)
    → (ssz : Bytes) × (hex_str_to_bytes block.stateless_input_bytes ≡ ok ssz)
      × (read_frame bs ≡ ssz)
      × (flag ≡ text_eq block.expect_exception [])
      × (block.stateless_input_bytes ≢ [])
unfolding zesu_input_from_zkevm_block
read_frame-zesu_input_from_zkevm_block tc block {bs} {flag} made h =
    go block.stateless_input_bytes refl made
  where
    go :
        (s : Bytes)
        → block.stateless_input_bytes ≡ s
        → input_of (text_eq block.expect_exception []) s ≡ (ok bs, flag)
        → (ssz : Bytes) × (hex_str_to_bytes block.stateless_input_bytes ≡ ok ssz)
          × (read_frame bs ≡ ssz)
          × (flag ≡ text_eq block.expect_exception [])
          × (block.stateless_input_bytes ≢ [])
    go [] e made = cc
    go (c ∷ s) e made =
        let (ssz, decoded, same, flagged) =
          framed_parts (text_eq block.expect_exception []) flag (hex_str_to_bytes (c ∷ s)) made in
        (
          ssz,
          ap hex_str_to_bytes e ∙ decoded,
          ap read_frame same
              ∙ read_frame-zkvm_frame ssz (omega (arith, h, ap length same, length-zkvm_frame ssz)),
          flagged,
          λ none_there. cc,
        )
