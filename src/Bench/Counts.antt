-- ===== src/Bench/Counts.antt =====
-- The transaction counts of eestBlockInfo in bench/units.go.
use stateless_executor.Prelude.{ℕ, ◌+◌, ◌≡◌, refl, ◌∙◌, List, [], ◌∷◌, length, arith}
use stateless_executor.Fixture.Zkevm.{ZkevmTx, ZkevmBlock, gas_used}
use stateless_executor.Bench.{BlockInfo, count_tx, count_txs, eest_block_info}

abbrev pub counted : BlockInfo → ℕ
counted info =
    info.legacy_txs + info.eip1559_txs + info.eip2930_txs + info.eip4844_txs + info.eip7702_txs

counted-count_tx : (info : BlockInfo) (tx : ZkevmTx) → counted (count_tx info tx) ≡ counted info + 1
unfolding count_tx
counted-count_tx info tx = ground arith

count_tx_keeps :
    (info : BlockInfo) (tx : ZkevmTx)
    → ((count_tx info tx).tx_count ≡ info.tx_count) × ((count_tx info tx).gas_used ≡ info.gas_used)
unfolding count_tx
count_tx_keeps info tx = ground arith

counted-count_txs :
    (txs : List ZkevmTx) (info : BlockInfo)
    → (counted (count_txs info txs) ≡ counted info + length txs)
      × ((count_txs info txs).tx_count ≡ info.tx_count)
      × ((count_txs info txs).gas_used ≡ info.gas_used)
unfolding count_txs
counted-count_txs [] info = (omega arith, refl, refl)
counted-count_txs (tx ∷ txs) info =
    let (sum, number, gas) = counted-count_txs txs (count_tx info tx) in
    let (number', gas') = count_tx_keeps info tx in
    (omega (arith, sum, counted-count_tx info tx), number ∙ number', gas ∙ gas')

-- Every transaction is counted under exactly one type: the five counts add up to the number of
-- transactions, and the gas used is that of the header.
pub counted-eest_block_info :
    (b : ZkevmBlock)
    → (counted (eest_block_info b) ≡ length b.transactions)
      × ((eest_block_info b).tx_count ≡ length b.transactions)
      × ((eest_block_info b).gas_used ≡ gas_used b)
unfolding eest_block_info
counted-eest_block_info b =
    let (sum, number, gas) = counted-count_txs b.transactions _ in (omega (arith, sum), number, gas)
