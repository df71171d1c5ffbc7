-- ===== src/Pipeline/Bal.antt =====
-- The block access list in pipeline/pipeline.go: its reconstruction from a node's JSON, and the check
-- of its hash against the header.
use stateless_executor.Prelude.{ℕ, ◌-◌, ◌%◌, ◌^◌, List, [], ◌∷◌, Option, none, some, if◌then◌else◌}
use stateless_executor.Prelude.Errors.{
  Error, Result, ok, err, panic, wrap, message, external, ◌>>=◌, wrapping,
}
use stateless_executor.Prelude.Text.{Text, codes, text_eq}
use stateless_executor.Prelude.Endian.{Bytes}
use stateless_executor.Prelude.Int.{ℤ, pos, negsuc}
use stateless_executor.Fixture.Geth.{Geth}
use stateless_executor.Fixture.Hex.{must_hex_to_bytes}
use stateless_executor.Fixture.Live.{Block}
use stateless_executor.Pool.{call}
use stateless_executor.Pipeline.Types.{
  Remote, BalStorageWriteJson, BalStorageChangeJson, BalBalanceChangeJson, BalNonceChangeJson,
  BalCodeChangeJson, BalAccountChangeJson,
}

-- uint32(n) of an int: the low 32 bits in two's complement.
abbrev pub low32 : ℤ → ℕ
low32 (pos n) = n % 2 ^ 32
low32 (negsuc n) = 2 ^ 32 - 1 - n % 2 ^ 32

abbrev pub balance_or_zero : Option ℕ → ℕ
balance_or_zero none = 0
balance_or_zero (some n) = n

module _ {g : Geth} (r : Remote g) where
  abbrev pub B : Type 0
  B = r.bal.Builder

  module _ (addr : Bytes) where
    unfoldable pub add_reads : List Text → B → B
    add_reads [] b = b
    add_reads (slot ∷ slots) b = add_reads slots (r.bal.storage_read addr (g.hex_to_hash slot) b)

    unfoldable pub add_writes : Bytes → List BalStorageWriteJson → B → B
    add_writes key [] b = b
    add_writes key (ch ∷ changes) b =
        add_writes key changes
          (r.bal.storage_write (low32 ch.tx_index) addr key (g.hex_to_hash ch.new_value) b)

    unfoldable pub add_storage : List BalStorageChangeJson → B → B
    unfolding add_writes
    add_storage [] b = b
    add_storage (sw ∷ rest) b = add_storage rest (add_writes (g.hex_to_hash sw.slot) sw.changes b)

    unfoldable pub add_balances : List BalBalanceChangeJson → B → B
    add_balances [] b = b
    add_balances (bc ∷ rest) b = add_balances rest (
        r.bal.balance_change (low32 bc.tx_index) addr
          (balance_or_zero (r.bal.from_hex bc.post_balance)) b)

    unfoldable pub add_nonces : List BalNonceChangeJson → B → B
    add_nonces [] b = b
    add_nonces (nc ∷ rest) b =
        add_nonces rest (r.bal.nonce_change addr (low32 nc.tx_index) nc.new_nonce b)

    unfoldable pub add_code : Option BalCodeChangeJson → B → B
    unfolding must_hex_to_bytes
    add_code none b = b
    add_code (some cc') b =
        r.bal.code_change addr (low32 cc'.tx_index) (must_hex_to_bytes cc'.new_code) b

  -- One round of the loop over the accounts.
  unfoldable pub add_account : BalAccountChangeJson → B → B
  unfolding add_reads add_storage add_balances add_nonces add_code
  add_account ac b =
      let addr = g.hex_to_address ac.address in
      let read = add_reads addr ac.storage_reads (r.bal.account_read addr b) in
      let stored = add_storage addr ac.storage_changes read in
      let paid = add_balances addr ac.balance_changes stored in
      add_code addr ac.code_change (add_nonces addr ac.nonce_changes paid)

  unfoldable pub add_accounts : List BalAccountChangeJson → B → B
  unfolding add_account
  add_accounts [] b = b
  add_accounts (ac ∷ rest) b = add_accounts rest (add_account ac b)

  unfoldable pub fetch_bal : Text → Text → Result Bytes
  unfolding call add_accounts
  fetch_bal raw_url hex_num = do
    raw ← call (r.answer raw_url (codes "eth_getBlockAccessList") hex_num)
    changes ← wrapping "decoding BAL JSON" (r.unmarshal_bal raw)
    wrapping "RLP-encoding BAL" (r.bal.encode_rlp (add_accounts changes r.bal.new_builder))

  -- Against the hash that the header commits to.
  abbrev pub checked_hash : Bytes → Result Bytes → Option Error
  checked_hash expected (ok got) =
      if text_eq got expected then none else some (message "BAL hash does not match header" got)
  checked_hash expected (err e) = some (wrap "BAL decode" e)
  checked_hash expected panic = some (external 0)

  unfoldable pub verify_bal_hash : Bytes → Block g → Option Error
  verify_bal_hash bal_bytes block = elim block.header.block_access_list_hash [
    | none ↦ none
    | some expected ↦ checked_hash expected (r.bal.decode_hash bal_bytes)
  ]
