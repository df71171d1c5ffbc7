-- ===== src/Fixture/Tx.antt =====
-- fixture/encode.go: transactions, authorizations, withdrawals and the header of a fixture.
use stateless_executor.Prelude.{
  ℕ, ◌+◌, ◌*◌, ◌^◌, ◌%◌, List, [], ◌∷◌, map, if◌then◌else◌, ltb, length,
}
use stateless_executor.Prelude.Errors.{Result, ok, err, message, ◌>>=◌, wrapping, wrapping_at}
use stateless_executor.Prelude.Text.{Text, codes, text_eq}
use stateless_executor.Prelude.Endian.{Bytes}
use stateless_executor.Prelude.Int.{pos}
use stateless_executor.Fixture.Types.{
  FixtureSig, FixtureTx, FixtureAuthorization, FixtureWithdrawal,
}
use stateless_executor.Fixture.Geth.{
  Json, Geth, Withdrawal, SetCodeAuthorization, legacy, access_list_tx, dynamic_fee, blob, set_code,
}
use stateless_executor.Fixture.Hex.{hex_to_big_int2, hex_to_uint64, must_hex_to_bytes}
use stateless_executor.Fixture.Convert.{
  raw_json_to_uint64, parse_sig, big_to_uint256, hex_to_uint256, parse_to_addr_ptr,
  decode_access_list,
}

-- EIP-155: v = chainID*2 + 35 + yParity, and 27 + yParity for chain id 0, on uint64.
unfoldable pub legacy_v : ℕ → ℕ → ℕ
legacy_v chain_id y_parity =
    if ltb 0 chain_id then (chain_id * 2 + 35 + y_parity) % 2 ^ 64 else (27 + y_parity) % 2 ^ 64

module _ (g : Geth) (j : Json) where
  open g use {Tx, new_tx, hex_to_address, hex_to_hash}

  unfoldable pub build_eip1559 : Bytes → FixtureSig → Result Tx
  build_eip1559 raw sig = do
    b ← j.unmarshal_eip1559 raw
    al ← decode_access_list g j b.access_list
    (y_parity, r, s) ← parse_sig sig
    ok (
        new_tx (
          dynamic_fee (record {
            chain_id = pos b.chain_id;
            nonce = b.nonce;
            gas_tip_cap = pos b.max_priority_fee_per_gas;
            gas_fee_cap = pos b.max_fee_per_gas;
            gas = b.gas_limit;
            to = parse_to_addr_ptr g b.to;
            value = hex_to_big_int2 b.value;
            payload = must_hex_to_bytes b.input;
            access_list = al;
            v = pos y_parity;
            r = r;
            s = s;
          })))

  unfoldable pub build_legacy : Bytes → FixtureSig → Result Tx
  unfolding legacy_v
  build_legacy raw sig = do
    b ← j.unmarshal_legacy raw
    chain_id ← wrapping "legacy chain_id" (raw_json_to_uint64 j b.chain_id)
    (y_parity, r, s) ← parse_sig sig
    ok (
        new_tx (
          legacy (record {
            nonce = b.nonce;
            gas_price = pos b.gas_price;
            gas = b.gas_limit;
            to = parse_to_addr_ptr g b.to;
            value = hex_to_big_int2 b.value;
            payload = must_hex_to_bytes b.input;
            v = pos (legacy_v chain_id y_parity);
            r = r;
            s = s;
          })))

  unfoldable pub build_eip2930 : Bytes → FixtureSig → Result Tx
  build_eip2930 raw sig = do
    b ← j.unmarshal_eip2930 raw
    al ← decode_access_list g j b.access_list
    (y_parity, r, s) ← parse_sig sig
    ok (
        new_tx (
          access_list_tx (record {
            chain_id = pos b.chain_id;
            nonce = b.nonce;
            gas_price = pos b.gas_price;
            gas = b.gas_limit;
            to = parse_to_addr_ptr g b.to;
            value = hex_to_big_int2 b.value;
            payload = must_hex_to_bytes b.input;
            access_list = al;
            v = pos y_parity;
            r = r;
            s = s;
          })))

  unfoldable pub build_eip4844 : Bytes → FixtureSig → Result Tx
  build_eip4844 raw sig = do
    b ← j.unmarshal_eip4844 raw
    al ← decode_access_list g j b.access_list
    (y_parity, _, _) ← parse_sig sig
    chain_id ← wrapping "EIP-4844 chainId" (hex_to_uint256 g b.chain_id)
    nonce ← hex_to_uint64 b.nonce
    gas ← hex_to_uint64 b.gas
    max_fee_per_gas ← hex_to_uint256 g b.max_fee_per_gas
    max_prio_fee_per_gas ← hex_to_uint256 g b.max_priority_fee_per_gas
    value ← hex_to_uint256 g b.value
    blob_fee_cap ← hex_to_uint256 g b.max_fee_per_blob_gas
    r_u ← hex_to_uint256 g sig.r
    s_u ← hex_to_uint256 g sig.s
    ok (
        new_tx (
          blob (record {
            chain_id = chain_id;
            nonce = nonce;
            gas_tip_cap = max_prio_fee_per_gas;
            gas_fee_cap = max_fee_per_gas;
            gas = gas;
            to = hex_to_address b.to;
            value = value;
            payload = must_hex_to_bytes b.input;
            access_list = al;
            blob_fee_cap = blob_fee_cap;
            blob_hashes = map hex_to_hash b.blob_versioned_hashes;
            v = y_parity;
            r = r_u;
            s = s_u;
          })))

  -- One authorization of `buildAuthList`, at index i. The parity is cut to a uint8.
  unfoldable pub build_auth : ℕ → FixtureAuthorization → Result SetCodeAuthorization
  build_auth i a = do
    chain_id ← wrapping_at "auth chainId" i (hex_to_uint64 a.inner.chain_id)
    nonce ← wrapping_at "auth nonce" i (hex_to_uint64 a.inner.nonce)
    y_parity ← hex_to_uint64 a.y_parity
    r_u ← hex_to_uint256 g a.r
    s_u ← hex_to_uint256 g a.s
    ok (record {
      chain_id = chain_id;
      address = hex_to_address a.inner.address;
      nonce = nonce;
      v = y_parity % 256;
      r = r_u;
      s = s_u;
    })

  unfoldable pub build_auth_list :
      ℕ → List FixtureAuthorization → Result (List SetCodeAuthorization)
  unfolding build_auth
  build_auth_list i [] = ok []
  build_auth_list i (a ∷ auths) = do
    x ← build_auth i a
    out ← build_auth_list (i + 1) auths
    ok (x ∷ out)

  unfoldable pub build_eip7702 : Bytes → FixtureSig → Result Tx
  build_eip7702 raw sig = do
    b ← j.unmarshal_eip7702 raw
    al ← decode_access_list g j b.access_list
    auths ← build_auth_list 0 b.authorization_list
    (y_parity, _, _) ← parse_sig sig
    r_u ← hex_to_uint256 g sig.r
    s_u ← hex_to_uint256 g sig.s
    ok (
        new_tx (
          set_code (record {
            chain_id = b.chain_id;
            nonce = b.nonce;
            gas_tip_cap = b.max_priority_fee_per_gas;
            gas_fee_cap = b.max_fee_per_gas;
            gas = b.gas_limit;
            to = hex_to_address b.to;
            value = big_to_uint256 g (hex_to_big_int2 b.value);
            payload = must_hex_to_bytes b.input;
            access_list = al;
            auth_list = auths;
            v = y_parity;
            r = r_u;
            s = s_u;
          })))

  -- The switch on the one key of the map.
  unfoldable pub build_tx_of_type : Text → Bytes → FixtureSig → Result Tx
  build_tx_of_type tx_type raw sig =
      if text_eq tx_type (codes "Eip1559")
      then build_eip1559 raw sig
      else if text_eq tx_type (codes "Legacy")
      then build_legacy raw sig
      else if text_eq tx_type (codes "Eip2930")
      then build_eip2930 raw sig
      else if text_eq tx_type (codes "Eip4844")
      then build_eip4844 raw sig
      else if text_eq tx_type (codes "Eip7702")
      then build_eip7702 raw sig
      else err (message "unknown tx type" tx_type)

  unfoldable pub build_tx : FixtureTx → Result Tx
  unfolding build_tx_of_type
  build_tx ft = elim ft.transaction [
    | ((tx_type, raw) ∷ []) ↦ build_tx_of_type tx_type raw ft.signature
    | other ↦ err (message "expected exactly one tx type key" (length other ∷ []))
  ]

  -- The loop of `buildTransactions` from transaction i on.
  unfoldable pub build_transactions_from : ℕ → List FixtureTx → Result (List Tx)
  build_transactions_from i [] = ok []
  build_transactions_from i (ft ∷ txs) = do
    tx ← wrapping_at "tx" i (build_tx ft)
    out ← build_transactions_from (i + 1) txs
    ok (tx ∷ out)

  unfoldable pub build_transactions : List FixtureTx → Result (List Tx)
  unfolding build_transactions_from
  build_transactions txs = build_transactions_from 0 txs

  unfoldable pub build_withdrawals_from : ℕ → List FixtureWithdrawal → Result (List Withdrawal)
  build_withdrawals_from i [] = ok []
  build_withdrawals_from i (w ∷ wds) = do
    idx ← wrapping_at "withdrawal index" i (hex_to_uint64 w.index)
    vi ← wrapping_at "withdrawal validatorIndex" i (hex_to_uint64 w.validator_index)
    amount ← wrapping_at "withdrawal amount" i (hex_to_uint64 w.amount)
    out ← build_withdrawals_from (i + 1) wds
    ok (
        record { index = idx; validator = vi; address = hex_to_address w.address; amount = amount }
        ∷ out)

  unfoldable pub build_withdrawals : List FixtureWithdrawal → Result (List Withdrawal)
  unfolding build_withdrawals_from
  build_withdrawals wds = build_withdrawals_from 0 wds
