-- ===== src/Fixture/Binary/RoundTrip.antt =====
-- What a reader of the wire format of fixture/encode_binary.go finds.
use stateless_executor.Prelude.{
  ◌-◌, ◌%◌, ◌≤◌, ◌≡◌, refl, sym, ap, ap₂, ◌∙◌, List, [], ◌++◌, length, take, drop, replicate,
  length-append, take-append, drop-append, append-nil, arith,
}
use stateless_executor.Prelude.Errors.{ok, >>=-eq-ok, wrapping, wrapping-eq-ok}
use stateless_executor.Prelude.Endian.{Bytes, IsU64, le_value, length-le_bytes, le_value-le_bytes}
use stateless_executor.Fixture.Types.{FixtureFile}
use stateless_executor.Fixture.Geth.{Json, Geth, Withdrawal}
use stateless_executor.Fixture.Hex.{decode_hex_array}
use stateless_executor.Fixture.Tx.{build_transactions, build_withdrawals}
use stateless_executor.Fixture.Ssz.{u64_le}
use stateless_executor.Fixture.Binary.{
  write_be64, write_binary_array, pad_rounds, binary_payload, binary_frame, build_block_rlp,
  zesu_input_binary,
}
use stateless_executor.Fixture.Binary.Blocks.{
  read_block, read_array, read_block-write, read_array-write, pad_rounds-shape,
}

-- What a reader finds behind the length and the 32 zeros.
pub record BinaryParts : Type 0 where
  pub root : Bytes
  pub block_rlp : Bytes
  pub state : List Bytes
  pub codes : List Bytes
  pub keys : List Bytes
  pub headers : List Bytes

-- The content of a file: as many bytes as its header says.
abbrev pub content_of : Bytes → Bytes
content_of bs = take (le_value (take 8 bs)) (drop 8 bs)

unfoldable pub read_payload : Bytes → BinaryParts
read_payload bs =
    let (block_rlp, rest0) = read_block (drop 32 bs) in
    let (state, rest1) = read_array rest0 in
    let (codes, rest2) = read_array rest1 in
    let (keys, rest3) = read_array rest2 in
    record {
      root = take 32 bs;
      block_rlp = block_rlp;
      state = state;
      codes = codes;
      keys = keys;
      headers = (read_array rest3).0;
    }

content_of-binary_frame :
    (payload : Bytes) → IsU64 (length payload) → content_of (binary_frame payload) ≡ payload
unfolding binary_frame
content_of-binary_frame payload h =
    let front = u64_le (length payload) in
    let width = length-le_bytes 8 (length payload) in
    let zeros : Bytes = replicate ((8 - length payload % 8) % 8) 0 in
    let padded = pad_rounds-shape 8 payload (omega arith) in
    ap₂ take
      (ap le_value (take-append 8 front (pad_rounds 8 payload) (sym width))
        ∙ le_value-le_bytes 8 (length payload) (omega arith))
      (drop-append 8 front (pad_rounds 8 payload) (sym width) ∙ padded)
    ∙ take-append (length payload) payload zeros refl

length-binary_frame : (payload : Bytes) → length payload ≤ length (binary_frame payload)
unfolding binary_frame
length-binary_frame payload =
    let zeros : Bytes = replicate ((8 - length payload % 8) % 8) 0 in
    omega (
      arith,
      length-append (u64_le (length payload)) (pad_rounds 8 payload),
      ap length (pad_rounds-shape 8 payload (omega arith)),
      length-append payload zeros,
    )

-- The parts of a payload that is shorter than 2^64 bytes.
read_payload-binary_payload :
    (block_rlp : Bytes) (state codes keys headers : List Bytes)
    → IsU64 (length (binary_payload block_rlp state codes keys headers))
    → read_payload (binary_payload block_rlp state codes keys headers) ≡ record {
      root = replicate 32 0;
      block_rlp = block_rlp;
      state = state;
      codes = codes;
      keys = keys;
      headers = headers;
    }
unfolding read_payload
read_payload-binary_payload block_rlp state codes keys headers h =
    let zeros : Bytes = replicate 32 0 in
    let a1 = write_binary_array state in
    let a2 = write_binary_array codes in
    let a3 = write_binary_array keys in
    let a4 = write_binary_array headers in
    let r2 = a3 ++ a4 in
    let r1 = a2 ++ r2 in
    let r0 = a1 ++ r1 in
    let front = write_be64 (length block_rlp) in
    let s0 = length-append zeros (front ++ (block_rlp ++ r0)) in
    let s1 = length-append front (block_rlp ++ r0) in
    let s2 = length-append block_rlp r0 in
    let s3 = length-append a1 r1 in
    let s4 = length-append a2 r2 in
    let s5 = length-append a3 a4 in
    let e0 =
      ap read_block (drop-append 32 zeros (front ++ (block_rlp ++ r0)) refl)
      ∙ read_block-write block_rlp r0 (omega (arith, h, s0, s1, s2)) in
    let e1 =
      ap (λ (p : Bytes × Bytes). read_array p.1) e0
      ∙ read_array-write state r1 (omega (arith, h, s0, s1, s2, s3)) in
    let e2 =
      ap (λ (p : List Bytes × Bytes). read_array p.1) e1
      ∙ read_array-write codes r2 (omega (arith, h, s0, s1, s2, s3, s4)) in
    let e3 =
      ap (λ (p : List Bytes × Bytes). read_array p.1) e2
      ∙ read_array-write keys a4 (omega (arith, h, s0, s1, s2, s3, s4, s5)) in
    let e4 =
      ap (λ (p : List Bytes × Bytes). read_array p.1) e3
      ∙ ap read_array (sym (append-nil a4))
      ∙ read_array-write headers [] (omega (arith, h, s0, s1, s2, s3, s4, s5)) in
    λ i. record {
      root = take-append 32 zeros (front ++ (block_rlp ++ r0)) refl i;
      block_rlp = (e0 i).0;
      state = (e1 i).0;
      codes = (e2 i).0;
      keys = (e3 i).0;
      headers = (e4 i).0;
    }

module _ (g : Geth) (j : Json) (f : FixtureFile) where
  -- If the binary form of a fixture is made, with a content shorter than 2^64 bytes, then the
  -- transactions, withdrawals, block and witness arrays of the fixture are encoded or decoded, and a
  -- reader of the file finds 32 zeros, the block and the four arrays.
  pub read_payload-zesu_input_binary :
      {bs : Bytes}
      → zesu_input_binary g j f ≡ ok bs
      → IsU64 (length bs)
      → (txs : List g.Tx) × (withdrawals : List Withdrawal) × (block_rlp : Bytes) × (state codes
          keys headers : List Bytes)
        × (build_transactions g j f.stateless_input.block.body.transactions ≡ ok txs)
        × (build_withdrawals g j f.stateless_input.block.body.withdrawals ≡ ok withdrawals)
        × (build_block_rlp g j f txs withdrawals ≡ ok block_rlp)
        × (decode_hex_array f.stateless_input.witness.state ≡ ok state)
        × (decode_hex_array f.stateless_input.witness.codes ≡ ok codes)
        × (decode_hex_array f.stateless_input.witness.keys ≡ ok keys)
        × (decode_hex_array f.stateless_input.witness.headers ≡ ok headers)
        × (read_payload (content_of bs) ≡ record {
          root = replicate 32 0;
          block_rlp = block_rlp;
          state = state;
          codes = codes;
          keys = keys;
          headers = headers;
        })
  unfolding zesu_input_binary
  read_payload-zesu_input_binary {bs} e h =
      let body = f.stateless_input.block.body in
      let witness = f.stateless_input.witness in
      let (txs, p1, e1) = >>=-eq-ok (build_transactions g j body.transactions) _ e in
      let (wds, p2, e2) = >>=-eq-ok (build_withdrawals g j body.withdrawals) _ e1 in
      let (rlp, p3, e3) = >>=-eq-ok (wrapping "block RLP" (build_block_rlp g j f txs wds)) _ e2 in
      let (state, p4, e4) = >>=-eq-ok (decode_hex_array witness.state) _ e3 in
      let (codes, p5, e5) = >>=-eq-ok (decode_hex_array witness.codes) _ e4 in
      let (keys, p6, e6) = >>=-eq-ok (decode_hex_array witness.keys) _ e5 in
      let (headers, p7, e7) = >>=-eq-ok (decode_hex_array witness.headers) _ e6 in
      let payload = binary_payload rlp state codes keys headers in
      let same : bs ≡ binary_frame payload = cc e7 in
      let small : IsU64 (length payload) =
        omega (arith, h, ap length same, length-binary_frame payload) in
      (
        txs,
        wds,
        rlp,
        state,
        codes,
        keys,
        headers,
        p1,
        p2,
        wrapping-eq-ok "block RLP" (build_block_rlp g j f txs wds) p3,
        p4,
        p5,
        p6,
        p7,
        ap (λ (b : Bytes). read_payload (content_of b)) same
            ∙ ap read_payload (content_of-binary_frame payload small)
            ∙ read_payload-binary_payload rlp state codes keys headers small,
      )
