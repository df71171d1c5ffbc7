-- ===== src/Fixture/Live/Success.antt =====
-- When fixture/encode_ssz_live.go makes an input.
use stateless_executor.Prelude.{ℕ, ◌^◌, ◌<◌, ◌≡◌, refl, ap, ◌∙◌, List}
use stateless_executor.Prelude.Errors.{ok, >>=-ok}
use stateless_executor.Prelude.Endian.{Bytes, le_bytes}
use stateless_executor.Prelude.Int.{pos}
use stateless_executor.Fixture.Geth.{Geth}
use stateless_executor.Fixture.Payload.{marshal_all}
use stateless_executor.Fixture.Live.{
  Block, or_zero_int, or_zero_hash, encode_execution_payload_from_block,
  encode_new_payload_request_from_block, zesu_input_ssz_from_block,
}
use stateless_executor.Fixture.Ssz.{ssz_uint256, encode_ssz_execution_requests}
use stateless_executor.Fixture.Ssz.Uint256.{ssz_uint256-cases}
use stateless_executor.Fixture.Ssz.Requests.{IsAscending, encode_ssz_execution_requests-ok}

module _ (g : Geth) (block : Block g) (bal_bytes : Bytes) (raw_txs : List Bytes) (n : ℕ) where
  payload-ok :
      marshal_all g block.transactions ≡ ok raw_txs
      → or_zero_int block.header.base_fee ≡ pos n
      → n < 256 ^ 32
      → (ep : Bytes) × (encode_execution_payload_from_block g block bal_bytes ≡ ok ep)
  unfolding encode_execution_payload_from_block
  payload-ok marshals fee small =
      let fee' : ssz_uint256 (or_zero_int block.header.base_fee) ≡ ok (le_bytes 32 n) =
        ap ssz_uint256 fee ∙ ssz_uint256-cases.0 n small in
      >>=-ok (marshal_all g block.transactions) _ marshals
        (>>=-ok (ssz_uint256 (or_zero_int block.header.base_fee)) _ fee' (_, refl))

  request-ok :
      (root : Bytes) (requests : List Bytes)
      → marshal_all g block.transactions ≡ ok raw_txs
      → or_zero_int block.header.base_fee ≡ pos n
      → n < 256 ^ 32
      → IsAscending 0 requests
      → (npr : Bytes) × (encode_new_payload_request_from_block g block root bal_bytes requests
          ≡ ok npr)
  unfolding encode_new_payload_request_from_block
  request-ok root requests marshals fee small ascending =
      let (ep, made) = payload-ok marshals fee small in
      let (er, filed) = encode_ssz_execution_requests-ok requests ascending in
      >>=-ok (encode_execution_payload_from_block g block bal_bytes) _ made
        (>>=-ok (encode_ssz_execution_requests requests) _ filed (_, refl))

  -- If the transactions of a block marshal, its base fee is below 2^256, and the requests hold data
  -- and ascend by types below 5, then the encoder of live blocks returns an input.
  pub zesu_input_ssz_from_block-ok :
      (state codes headers requests : List Bytes) (chain_id fork : ℕ)
      → marshal_all g block.transactions ≡ ok raw_txs
      → or_zero_int block.header.base_fee ≡ pos n
      → n < 256 ^ 32
      → IsAscending 0 requests
      → (bs : Bytes) × (zesu_input_ssz_from_block g block state codes headers bal_bytes requests
            chain_id fork
          ≡ ok bs)
  unfolding zesu_input_ssz_from_block
  zesu_input_ssz_from_block-ok state codes headers requests chain_id fork marshals fee small
        ascending =
      let (npr, made) =
        request-ok (or_zero_hash block.beacon_root) requests marshals fee small ascending in
      >>=-ok
        (encode_new_payload_request_from_block g block (or_zero_hash block.beacon_root) bal_bytes
          requests)
        _ made (_, refl)
