-- ===== src/Fixture/Binary.antt =====
-- fixture/encode_binary.go: the binary form of a fixture, with big-endian lengths.
pub mod Blocks
pub mod RoundTrip
use stateless_executor.Prelude.{
  ℕ, zero, suc, ◌%◌, List, [], ◌∷◌, ◌++◌, length, replicate, ◌==◌, if◌then◌else◌,
}
use stateless_executor.Prelude.Errors.{Result, ok, err, panic, ◌>>=◌, wrapping}
use stateless_executor.Prelude.Endian.{Bytes, be_bytes}
use stateless_executor.Fixture.Types.{FixtureFile}
use stateless_executor.Fixture.Geth.{Json, Geth, Withdrawal}
use stateless_executor.Fixture.Hex.{decode_hex_array}
use stateless_executor.Fixture.Rebuild.{fixture_header}
use stateless_executor.Fixture.Tx.{build_transactions, build_withdrawals}
use stateless_executor.Fixture.Ssz.{u64_le}

abbrev pub write_be64 : ℕ → Bytes
write_be64 v = be_bytes 8 v

-- The loop of writeBinaryArray.
unfoldable pub write_items : List Bytes → Bytes
write_items [] = []
write_items (item ∷ items) = write_be64 (length item) ++ (item ++ write_items items)

abbrev pub write_binary_array : List Bytes → Bytes
write_binary_array items = write_be64 (length items) ++ write_items items

-- The loop that appends zeros up to a multiple of 8, on fuel.
unfoldable pub pad_rounds : ℕ → Bytes → Bytes
pad_rounds zero payload = payload
pad_rounds (suc n) payload =
    let rest = pad_rounds n (payload ++ (0 ∷ [])) in
    if length payload % 8 == 0 then payload else rest

-- What is written before the padding.
abbrev pub binary_payload : Bytes → List Bytes → List Bytes → List Bytes → List Bytes → Bytes
binary_payload block_rlp state codes keys headers =
    replicate 32 0
    ++ (write_be64 (length block_rlp)
        ++ (block_rlp
            ++ (write_binary_array state
                ++ (write_binary_array codes
                    ++ (write_binary_array keys ++ write_binary_array headers)))))

-- The length of the payload without its padding, and the payload with it: 8 rounds are enough.
unfoldable pub binary_frame : Bytes → Bytes
unfolding pad_rounds
binary_frame payload = u64_le (length payload) ++ pad_rounds 8 payload

module _ (g : Geth) (j : Json) where
  unfoldable pub build_block_rlp : FixtureFile → List g.Tx → List Withdrawal → Result Bytes
  build_block_rlp f txs withdrawals = do
    header ← fixture_header g j f
    g.encode_block header txs withdrawals

  unfoldable pub zesu_input_binary : FixtureFile → Result Bytes
  unfolding build_block_rlp
  zesu_input_binary f = do
    txs ← build_transactions g j f.stateless_input.block.body.transactions
    withdrawals ← build_withdrawals g j f.stateless_input.block.body.withdrawals
    block_rlp ← wrapping "block RLP" (build_block_rlp f txs withdrawals)
    state ← decode_hex_array f.stateless_input.witness.state
    codes ← decode_hex_array f.stateless_input.witness.codes
    keys ← decode_hex_array f.stateless_input.witness.keys
    headers ← decode_hex_array f.stateless_input.witness.headers
    ok (binary_frame (binary_payload block_rlp state codes keys headers))
