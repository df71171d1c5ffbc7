-- ===== src/Pipeline/Success.antt =====
-- What a fetch that succeeds has in its hands: Fetch of pipeline/pipeline.go from the node's answers
-- to what the guest reads of the input.
use stateless_executor.Prelude.{
  ℕ, ◌+◌, ◌*◌, ◌^◌, ◌<◌, ◌≡◌, inl, inr, refl, ap, ◌∙◌, sym, List, [], Option, length, Bool-cases,
}
use stateless_executor.Prelude.Errors.{Result, ok, err, panic, wrapping-eq-ok, >>=-eq-ok, wrapping}
use stateless_executor.Prelude.Text.{Text, codes, text_eq}
use stateless_executor.Prelude.Endian.{Bytes, IsU64}
use stateless_executor.Fixture.Geth.{Geth}
use stateless_executor.Fixture.Fork.{GenesisChainConfig}
use stateless_executor.Fixture.Live.{Block, or_zero_int, or_zero_hash}
use stateless_executor.Fixture.Live.RoundTrip.{IsDecoded, block_parts}
use stateless_executor.Fixture.Live.Input.{
  Input, read_input, read_input-from_block, chain_or_mainnet, fork_or_amsterdam,
}
use stateless_executor.Fixture.Payload.{marshal_all}
use stateless_executor.Fixture.Ssz.{ssz_uint256, encode_ssz_versioned_hashes}
use stateless_executor.Pool.{Pool, call, pick}
use stateless_executor.Pipeline.Types.{Remote}
use stateless_executor.Pipeline.Fetch.{
  EngineConfig, Arrays, Fetched, hex_num, fetch, fetch_from, fetch_rest, fetch_with, staged,
  fetch_block, fetch_witness, fetch_requests, bal_of, with_bal, input_of, genesis_chain,
  genesis_fork, hostname, decode_hex_result,
}

module _ {g : Geth} (r : Remote g) where
  -- A block, a witness and requests that the node answered, with the input and the metadata that
  -- Fetch makes of them.
  pub record IsFetched (e : EngineConfig) (genesis : Option GenesisChainConfig) (url num : Text)
      (f : Fetched) (bs : Bytes) : Type 0 where
    pub block : Block g
    pub witness : Arrays
    pub bal_bytes : Bytes
    pub requests : List Bytes
    pub block_answered : fetch_block r url num ≡ ok block
    pub witness_answered : fetch_witness r url num ≡ ok witness
    pub bal_found : bal_of r e url num block ≡ ok bal_bytes
    pub requests_answered : fetch_requests r url num block ≡ ok requests
    pub encoded : input_of r genesis block witness bal_bytes requests ≡ ok bs
    pub meta_is : f.meta ≡ with_bal r bal_bytes block

  staged-ok :
      (node : Text) (b : Result (Block g)) (w : Result Arrays) (rest : Block g → Arrays → Fetched)
      {bs : Bytes}
      → (staged r node b w rest).input ≡ ok bs
      → (block : Block g) × (w' : Arrays) × (b ≡ ok block)
        × (w ≡ ok w')
        × (staged r node b w rest ≡ rest block w')
  staged-ok node (err e) w rest h = cc
  staged-ok node panic w rest h = cc
  staged-ok node (ok block) (err e) rest h = cc
  staged-ok node (ok block) panic rest h = cc
  staged-ok node (ok block) (ok w) rest h = (block, w, refl, refl, refl)

  fetch_with-ok :
      (genesis : Option GenesisChainConfig) (url num : Text) (block : Block g) (w : Arrays)
      (found : Result Bytes) {bs : Bytes}
      → (fetch_with r genesis url num block w found).input ≡ ok bs
      → (bal_bytes : Bytes) × (found ≡ ok bal_bytes)
        × ((fetch_with r genesis url num block w (ok bal_bytes)).input ≡ ok bs)
        × ((fetch_with r genesis url num block w found).meta ≡ with_bal r bal_bytes block)
  fetch_with-ok genesis url num block w (ok bal_bytes) h = (bal_bytes, refl, h, refl)
  fetch_with-ok genesis url num block w (err e) h = cc
  fetch_with-ok genesis url num block w panic h = cc

  fetch_from-IsFetched :
      (e : EngineConfig) (genesis : Option GenesisChainConfig) (url num : Text) {bs : Bytes}
      → (fetch_from r e genesis url num).input ≡ ok bs
      → IsFetched e genesis url num (fetch_from r e genesis url num) bs
  fetch_from-IsFetched e genesis url num {bs} h =
      let (block, w, b, w', same) =
        staged-ok (hostname r url) (fetch_block r url num) (fetch_witness r url num)
          (fetch_rest r e genesis url num) h in
      let h' : (fetch_rest r e genesis url num block w).input ≡ ok bs =
        sym (ap (λ (f : Fetched). f.input) same) ∙ h in
      let (bal_bytes, found, h'', meta) =
        fetch_with-ok genesis url num block w (bal_of r e url num block) h' in
      let (rs, q, made) =
        >>=-eq-ok (wrapping "pipeline: execution requests" (fetch_requests r url num block)) _
          h'' in
      record {
        block = block;
        witness = w;
        bal_bytes = bal_bytes;
        requests = rs;
        block_answered = b;
        witness_answered = w';
        bal_found = found;
        requests_answered = wrapping-eq-ok _ (fetch_requests r url num block) q;
        encoded = made;
        meta_is = ap (λ (f : Fetched). f.meta) same ∙ meta;
      }

  fetch_block-decoded :
      (url num : Text) {block : Block g}
      → fetch_block r url num ≡ ok block
      → (rlp : Bytes) × (r.decode_block rlp ≡ ok block)
  unfolding fetch_block
  fetch_block-decoded url num {block} h =
      let (raw, _, h') =
        >>=-eq-ok
          (wrapping "pipeline: debug_getRawBlock"
            (call (r.answer url (codes "debug_getRawBlock") num)))
          _ h in
      let (rlp, _, h'') =
        >>=-eq-ok (wrapping "pipeline: decoding block RLP" (decode_hex_result r raw)) _ h' in
      (rlp, wrapping-eq-ok _ (r.decode_block rlp) h'')

  -- A fetch that returns an input has asked the node that Pick returns.
  pub fetch-IsFetched :
      (e : EngineConfig) (genesis : Option GenesisChainConfig) (p : Pool) (n : ℕ) {bs : Bytes}
      → (fetch r e genesis p n).0.input ≡ ok bs
      → IsFetched e genesis (pick p).0 (hex_num n) (fetch r e genesis p n).0 bs
  unfolding fetch
  fetch-IsFetched e genesis p n {bs} h = elim (Bool-cases (text_eq (pick p).0 [])) [
    | inl blank ↦ cc
    | inr named ↦
        let same : (fetch r e genesis p n).0 ≡ fetch_from r e genesis (pick p).0 (hex_num n) =
          rw named refl in
        rw same (
          fetch_from-IsFetched e genesis (pick p).0 (hex_num n)
            (sym (ap (λ (f : Fetched). f.input) same) ∙ h))
  ]

  -- What a guest reads of the input of a fetch, field by field.
  abbrev pub fetched_input :
      Option GenesisChainConfig → Block g → Arrays → Bytes → List Bytes → Bytes → List Bytes → Input
  fetched_input genesis block w bal_bytes requests base_fee raw_txs = record {
    schema_id = fork_or_amsterdam (genesis_fork genesis block.header.time) * 256 + 1;
    chain_id = chain_or_mainnet (genesis_chain genesis);
    payload = block_parts g block base_fee raw_txs bal_bytes;
    versioned_hashes = encode_ssz_versioned_hashes g block.transactions;
    parent_beacon_block_root = or_zero_hash block.beacon_root;
    requests = requests;
    witness = record { state = w.state; codes = w.codes; headers = w.headers };
  }

  -- If go-ethereum decodes only blocks whose fields have their sizes, and the chain id and the fork
  -- of the genesis fit their types: whenever Fetch returns an input below 4 GiB, the node that was
  -- picked has answered with a block, a witness and requests, and the input is the SSZ container as it
  -- is, without a length in front: a guest that takes it apart from its first byte on finds the fork that is active at the block's time, the chain id, that block, the access list
  -- that was found for it, those requests and that witness.
  pub read_input-fetch :
      (e : EngineConfig) (genesis : Option GenesisChainConfig) (p : Pool) (n : ℕ) {bs : Bytes}
      → ((rlp : Bytes) (block : Block g) → r.decode_block rlp ≡ ok block → IsDecoded g block)
      → IsU64 (genesis_chain genesis)
      → ((t : ℕ) → genesis_fork genesis t < 256)
      → (fetch r e genesis p n).0.input ≡ ok bs
      → length bs < 2 ^ 32
      → (block : Block g) × (w : Arrays) × (bal_bytes : Bytes) × (requests : List Bytes)
        × (base_fee : Bytes) × (raw_txs : List Bytes) × (fetch_block r (pick p).0 (hex_num n)
            ≡ ok block)
        × (fetch_witness r (pick p).0 (hex_num n) ≡ ok w)
        × (bal_of r e (pick p).0 (hex_num n) block ≡ ok bal_bytes)
        × (fetch_requests r (pick p).0 (hex_num n) block ≡ ok requests)
        × (marshal_all g block.transactions ≡ ok raw_txs)
        × (ssz_uint256 (or_zero_int block.header.base_fee) ≡ ok base_fee)
        × (read_input bs ≡ fetched_input genesis block w bal_bytes requests base_fee raw_txs)
  read_input-fetch e genesis p n {bs} decodes chain_fits fork_fits h small =
      let f = fetch-IsFetched e genesis p n h in
      let (rlp, made) = fetch_block-decoded (pick p).0 (hex_num n) f.block_answered in
      let (raw_txs, base_fee, m, fee, asc, back) =
        read_input-from_block g f.block f.bal_bytes f.requests f.witness.state f.witness.codes
          f.witness.headers (genesis_chain genesis) (genesis_fork genesis f.block.header.time)
          (decodes rlp f.block made) chain_fits (fork_fits f.block.header.time) f.encoded small in
      (
        f.block, f.witness, f.bal_bytes, f.requests, base_fee, raw_txs, f.block_answered,
        f.witness_answered, f.bal_found, f.requests_answered, m, fee, back,
      )
