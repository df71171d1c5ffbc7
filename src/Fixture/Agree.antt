-- ===== src/Fixture/Agree.antt =====
-- The fixture path (fixture/encode_ssz.go) and the live path (fixture/encode_ssz_live.go) on one
-- block.
use stateless_executor.Prelude.{
  ℕ, ◌%◌, ◌^◌, ◌≡◌, refl, sym, ap, ap₂, ◌∙◌, List, [], Option, none, some, arith, if◌then◌else◌,
  ◌==◌, false, inl, inr, Option-cases,
}
use stateless_executor.Prelude.Errors.{ok, >>=-eq-ok, wrapping, wrapping-eq-ok}
use stateless_executor.Prelude.Endian.{Bytes, IsU64}
use stateless_executor.Prelude.Int.{ℤ}
use stateless_executor.Fixture.Types.{FixtureFile, FixtureHeader, FixtureChainConfig}
use stateless_executor.Fixture.Geth.{Json, Geth, Header, Withdrawal}
use stateless_executor.Fixture.Hex.{must_hex_to_bytes, decode_hex_array, hex_to_big_int}
use stateless_executor.Fixture.Convert.{raw_json_to_big_int}
use stateless_executor.Fixture.Rebuild.{fixture_header, header_of}
use stateless_executor.Fixture.Fork.{active_protocol_fork, first_active, fork_table, fork_amsterdam}
use stateless_executor.Fixture.Tx.{build_transactions, build_withdrawals}
use stateless_executor.Fixture.Payload.{
  marshal_all, encode_ssz_execution_witness, encode_ssz_execution_payload, payload_writes,
  encode_ssz_new_payload_request, encode_ssz_stateless_input, fixture_chain_id, beacon_root_of,
  bal_bytes_of, zesu_input_ssz_plain,
}
use stateless_executor.Fixture.Live.{
  Block, or_zero_hash, encode_execution_payload_from_block, encode_new_payload_request_from_block,
  zesu_input_ssz_from_block,
}
use stateless_executor.Fixture.Ssz.{
  concat, ssz_uint256, encode_ssz_byte_list_list, encode_ssz_withdrawal_list,
  encode_execution_witness_from_arrays, encode_stateless_input_container, schema_id_for,
}

-- The four hashes that the fixture path writes undecoded are hashes of 32 bytes.
pub record IsCanonical (g : Geth) (h : FixtureHeader) : Type 0 where
  pub parent_hash : must_hex_to_bytes h.parent_hash ≡ g.hex_to_hash h.parent_hash
  pub state_root : must_hex_to_bytes h.state_root ≡ g.hex_to_hash h.state_root
  pub receipts_root : must_hex_to_bytes h.receipts_root ≡ g.hex_to_hash h.receipts_root
  pub mix_hash : must_hex_to_bytes h.mix_hash ≡ g.hex_to_hash h.mix_hash
  pub number_fits : IsU64 h.number

-- No row of the fork table is fork 0.
first_active-ne-zero :
    (cc : FixtureChainConfig) (ts : ℕ) → (first_active ts (fork_table cc) == 0) ≡ false
unfolding first_active
first_active-ne-zero cfg ts = ground arith

module _ (g : Geth) (j : Json) (f : FixtureFile) where
  abbrev h : FixtureHeader
  h = f.stateless_input.block.header

  abbrev bal : Bytes
  bal = bal_bytes_of f.stateless_input.block.body.block_access_list

  -- The block that the fixture's header, transactions and withdrawals make.
  abbrev pub block_of : Header → List g.Tx → List Withdrawal → Block g
  block_of header txs wds = record {
    header = header;
    hash = g.header_hash header;
    beacon_root = header.parent_beacon_root;
    transactions = txs;
    withdrawals = wds;
  }

  header_parts :
      {header : Header}
      → fixture_header g j f ≡ ok header
      → (base_fee : _) × (difficulty : _) × (raw_json_to_big_int j h.base_fee_per_gas ≡ ok base_fee)
        × (header
            ≡ header_of g j h f.stateless_input.block.body.block_access_list difficulty base_fee)
  unfolding fixture_header
  header_parts e =
      let (d, p, e') = >>=-eq-ok (wrapping "difficulty" (hex_to_big_int h.difficulty)) _ e in
      let (z, q, e'') =
        >>=-eq-ok (wrapping "baseFee" (raw_json_to_big_int j h.base_fee_per_gas)) _ e' in
      (z, d, wrapping-eq-ok "baseFee" (raw_json_to_big_int j h.base_fee_per_gas) q, cc e'')

  module _ (canonical : IsCanonical g h) (txs : List g.Tx) (wds : List Withdrawal) (d z : ℤ) where
    abbrev header : Header
    header = header_of g j h f.stateless_input.block.body.block_access_list d z

    -- The live encoder writes the same payload.
    live_payload :
        (raw_txs : List Bytes) (base_fee : Bytes)
        → marshal_all g txs ≡ ok raw_txs
        → ssz_uint256 z ≡ ok base_fee
        → encode_execution_payload_from_block g (block_of header txs wds) bal
          ≡ ok (
              concat (
                payload_writes g j h base_fee
                  (g.header_hash header)
                  (must_hex_to_bytes h.extra_data)
                  (encode_ssz_byte_list_list raw_txs)
                  (encode_ssz_withdrawal_list wds)
                  bal))
    unfolding encode_execution_payload_from_block payload_writes header_of
    live_payload raw_txs base_fee m n =
        let same : h.number % 2 ^ 64 ≡ h.number = omega (arith, canonical.number_fits) in
        let c1 = canonical.parent_hash in
        let c2 = canonical.state_root in
        let c3 = canonical.receipts_root in
        let c4 = canonical.mix_hash in rw (m, n, same, c1, c2, c3, c4) refl

  module _ (canonical : IsCanonical g h) (txs : List g.Tx) (wds : List Withdrawal) where
    -- A successful fixture payload is the live payload of the block that the fixture describes.
    payload_agrees :
        {ep : Bytes}
        → encode_ssz_execution_payload g j f txs wds ≡ ok ep
        → (header : Header) × (fixture_header g j f ≡ ok header)
          × (encode_execution_payload_from_block g (block_of header txs wds) bal ≡ ok ep)
    unfolding encode_ssz_execution_payload
    payload_agrees {ep} e =
        let (header, p, e1) = >>=-eq-ok (fixture_header g j f) _ e in
        let (raw_txs, m, e2) = >>=-eq-ok (marshal_all g txs) _ e1 in
        let (z, q, e3) = >>=-eq-ok (raw_json_to_big_int j h.base_fee_per_gas) _ e2 in
        let (base_fee, n, e4) = >>=-eq-ok (ssz_uint256 z) _ e3 in
        let (z', d, q', made) = header_parts p in
        let same : z' ≡ z = cc (q, q') in
        let made' =
          made ∙ ap (header_of g j h f.stateless_input.block.body.block_access_list d) same in
        let live = live_payload canonical txs wds d z raw_txs base_fee m n in
        (header, p, rw (← made') at live ∙ e4)

    -- A successful fixture request is the live request without execution requests.
    request_agrees :
        (root : Bytes) {npr : Bytes}
        → encode_ssz_new_payload_request g j f txs wds root ≡ ok npr
        → (header : Header) × (fixture_header g j f ≡ ok header)
          × (encode_new_payload_request_from_block g (block_of header txs wds) root bal [] ≡ ok npr)
    unfolding encode_ssz_new_payload_request encode_new_payload_request_from_block
    request_agrees root e =
        let (ep, p, e1) = >>=-eq-ok (encode_ssz_execution_payload g j f txs wds) _ e in
        let (header, q, live) = payload_agrees p in (header, q, rw live e1)

-- The witness of the fixture path is that of the live path, on the decoded arrays.
pub encode_ssz_execution_witness-arrays :
    (f : FixtureFile) {wit : Bytes}
    → encode_ssz_execution_witness f.stateless_input.witness ≡ ok wit
    → (state codes headers : List Bytes) × (decode_hex_array f.stateless_input.witness.state
        ≡ ok state)
      × (decode_hex_array f.stateless_input.witness.codes ≡ ok codes)
      × (decode_hex_array f.stateless_input.witness.headers ≡ ok headers)
      × (wit ≡ encode_execution_witness_from_arrays state codes headers)
unfolding encode_ssz_execution_witness encode_execution_witness_from_arrays
encode_ssz_execution_witness-arrays f e =
    let w = f.stateless_input.witness in
    let (state, p, e1) = >>=-eq-ok (decode_hex_array w.state) _ e in
    let (codes, q, e2) = >>=-eq-ok (decode_hex_array w.codes) _ e1 in
    let (headers, r, e3) = >>=-eq-ok (decode_hex_array w.headers) _ e2 in
    (state, codes, headers, p, q, r, cc e3)

-- The chain id that a fixture hands to the live encoder: 0 stands for none.
abbrev pub chain_id_or_zero : Option FixtureChainConfig → ℕ
chain_id_or_zero none = 0
chain_id_or_zero (some cc) = cc.chain_id

fixture_chain_id-default :
    (cc : Option FixtureChainConfig)
    → fixture_chain_id cc ≡ (if chain_id_or_zero cc == 0 then 1 else chain_id_or_zero cc)
unfolding fixture_chain_id
fixture_chain_id-default none = refl
fixture_chain_id-default (some cfg) = refl

active_protocol_fork-default :
    (cc : Option FixtureChainConfig) (ts : ℕ)
    → (if active_protocol_fork cc ts == 0 then fork_amsterdam else active_protocol_fork cc ts)
      ≡ active_protocol_fork cc ts
unfolding active_protocol_fork
active_protocol_fork-default none ts = refl
active_protocol_fork-default (some cfg) ts = rw (first_active-ne-zero cfg ts)

beacon_root_agrees :
    (g : Geth) (j : Json) (hd : FixtureHeader) (b : _) (d z : ℤ)
    → or_zero_hash (header_of g j hd b d z).parent_beacon_root
      ≡ beacon_root_of g j hd.parent_beacon_block_root
unfolding header_of
beacon_root_agrees g j hd b d z = elim (Option-cases hd.parent_beacon_block_root) [
  | inl e ↦ rw e
  | inr (s, e) ↦ rw e
]

assemble :
    (g : Geth) (block : Block g) (root npr wit bal_bytes : Bytes) (state codes headers : List Bytes)
    (chain_id fork : ℕ)
    → or_zero_hash block.beacon_root ≡ root
    → encode_new_payload_request_from_block g block root bal_bytes [] ≡ ok npr
    → wit ≡ encode_execution_witness_from_arrays state codes headers
    → zesu_input_ssz_from_block g block state codes headers bal_bytes [] chain_id fork
      ≡ ok (
          encode_stateless_input_container npr wit
            (if chain_id == 0 then 1 else chain_id)
            (schema_id_for (if fork == 0 then fork_amsterdam else fork)))
unfolding zesu_input_ssz_from_block
assemble g block root npr wit bal_bytes state codes headers chain_id fork rooted live same =
    rw (rooted, live, same)

module _ (g : Geth) (j : Json) (f : FixtureFile) where
  -- If the four hashes that the fixture path writes undecoded have 32 bytes, the number fits a
  -- uint64 and the fixture path succeeds, then the header, transactions, withdrawals and witness
  -- arrays of the fixture decode, and the live path returns the same bytes for the block that they
  -- make, given the fixture's block access list, no requests, its chain id and its active fork.
  pub zesu_input_ssz_plain-live :
      IsCanonical g f.stateless_input.block.header
      → {bs : Bytes} → zesu_input_ssz_plain g j f ≡ ok bs
      → (header : Header) × (txs : List g.Tx) × (wds : List Withdrawal) × (state codes
          headers : List Bytes)
        × (fixture_header g j f ≡ ok header)
        × (build_transactions g j f.stateless_input.block.body.transactions ≡ ok txs)
        × (build_withdrawals g j f.stateless_input.block.body.withdrawals ≡ ok wds)
        × (decode_hex_array f.stateless_input.witness.state ≡ ok state)
        × (decode_hex_array f.stateless_input.witness.codes ≡ ok codes)
        × (decode_hex_array f.stateless_input.witness.headers ≡ ok headers)
        × (zesu_input_ssz_from_block g
              (block_of g j f header txs wds)
              state
              codes
              headers
              (bal_bytes_of f.stateless_input.block.body.block_access_list)
              []
              (chain_id_or_zero f.stateless_input.chain_config)
              (active_protocol_fork f.stateless_input.chain_config
                f.stateless_input.block.header.timestamp)
            ≡ ok bs)
  unfolding zesu_input_ssz_plain encode_ssz_stateless_input
  zesu_input_ssz_plain-live canonical {bs} e =
      let body = f.stateless_input.block.body in
      let cfg = f.stateless_input.chain_config in
      let ts = f.stateless_input.block.header.timestamp in
      let root = beacon_root_of g j f.stateless_input.block.header.parent_beacon_block_root in
      let (txs, p, e1) = >>=-eq-ok (build_transactions g j body.transactions) _ e in
      let (wds, q, e2) = >>=-eq-ok (build_withdrawals g j body.withdrawals) _ e1 in
      let (npr, r, e3) = >>=-eq-ok (encode_ssz_new_payload_request g j f txs wds root) _ e2 in
      let (wit, s, e4) = >>=-eq-ok (encode_ssz_execution_witness f.stateless_input.witness) _ e3 in
      let (header, hd, live) = request_agrees g j f canonical txs wds root r in
      let (z, d, _, made) = header_parts g j f hd in
      let (state, codes, headers, es, ec, eh, same) = encode_ssz_execution_witness-arrays f s in
      let rooted : or_zero_hash header.parent_beacon_root ≡ root =
        ap (λ (x : Header). or_zero_hash x.parent_beacon_root) made
        ∙ beacon_root_agrees g j f.stateless_input.block.header body.block_access_list d z in
      (
        header,
        txs,
        wds,
        state,
        codes,
        headers,
        hd,
        p,
        q,
        es,
        ec,
        eh,
        assemble g (block_of g j f header txs wds) root npr wit
              (bal_bytes_of body.block_access_list) state codes headers (chain_id_or_zero cfg)
              (active_protocol_fork cfg ts) rooted live same
            ∙ ap ok (
                ap₂ (λ c k. encode_stateless_input_container npr wit c (schema_id_for k))
                  (sym (fixture_chain_id-default cfg)) (active_protocol_fork-default cfg ts))
            ∙ e4,
      )
