-- ===== src/Fixture/Ssz/Payload.antt =====
-- The SszExecutionPayload container: its layout of a 540-byte fixed region and four variable
-- sections, and what a reader finds at the places that fixture/encode_ssz.go documents.
use stateless_executor.Prelude.{
  ℕ, ◌+◌, ◌^◌, ◌<◌, ◌≡◌, refl, ◌∙◌, List, [], ◌∷◌, length, take, drop, arith, append-nil,
}
use stateless_executor.Prelude.Endian.{Bytes, IsU64, length-le_bytes}
use stateless_executor.Fixture.Ssz.{u32, u32_le, u64_le, concat}
use stateless_executor.Fixture.Ssz.Decode.{
  slice, read_u32, read_u64, total, drop-writes, slice-writes, read_u32-writes, read_u64-writes,
  length-concat,
}

pub record PayloadParts : Type 0 where
  pub parent_hash : Bytes
  pub fee_recipient : Bytes
  pub state_root : Bytes
  pub receipts_root : Bytes
  pub logs_bloom : Bytes
  pub prev_randao : Bytes
  pub block_number : ℕ
  pub gas_limit : ℕ
  pub gas_used : ℕ
  pub timestamp : ℕ
  pub extra_data : Bytes
  pub base_fee : Bytes
  pub block_hash : Bytes
  pub transactions : Bytes
  pub withdrawals : Bytes
  pub blob_gas_used : ℕ
  pub excess_blob_gas : ℕ
  pub block_access_list : Bytes
  pub slot_number : ℕ

-- The writes of a payload, in order.
abbrev pub layout : PayloadParts → List Bytes
layout p =
    let txs_off = u32 (u32 540 + u32 (length p.extra_data)) in
    let wds_off = u32 (txs_off + u32 (length p.transactions)) in
    let bal_off = u32 (wds_off + u32 (length p.withdrawals)) in
    p.parent_hash
    ∷ p.fee_recipient
    ∷ p.state_root
    ∷ p.receipts_root
    ∷ p.logs_bloom
    ∷ p.prev_randao
    ∷ u64_le p.block_number
    ∷ u64_le p.gas_limit
    ∷ u64_le p.gas_used
    ∷ u64_le p.timestamp
    ∷ u32_le (u32 540)
    ∷ p.base_fee
    ∷ p.block_hash
    ∷ u32_le txs_off
    ∷ u32_le wds_off
    ∷ u64_le p.blob_gas_used
    ∷ u64_le p.excess_blob_gas
    ∷ u32_le bal_off
    ∷ u64_le p.slot_number
    ∷ p.extra_data
    ∷ p.transactions
    ∷ p.withdrawals
    ∷ p.block_access_list
    ∷ []

unfoldable pub read_execution_payload : Bytes → PayloadParts
read_execution_payload bs = record {
  parent_hash = slice 0 32 bs;
  fee_recipient = slice 32 52 bs;
  state_root = slice 52 84 bs;
  receipts_root = slice 84 116 bs;
  logs_bloom = slice 116 372 bs;
  prev_randao = slice 372 404 bs;
  block_number = read_u64 404 bs;
  gas_limit = read_u64 412 bs;
  gas_used = read_u64 420 bs;
  timestamp = read_u64 428 bs;
  extra_data = slice (read_u32 436 bs) (read_u32 504 bs) bs;
  base_fee = slice 440 472 bs;
  block_hash = slice 472 504 bs;
  transactions = slice (read_u32 504 bs) (read_u32 508 bs) bs;
  withdrawals = slice (read_u32 508 bs) (read_u32 528 bs) bs;
  blob_gas_used = read_u64 512 bs;
  excess_blob_gas = read_u64 520 bs;
  block_access_list = drop (read_u32 528 bs) bs;
  slot_number = read_u64 532 bs;
}

-- Hashes of 32 bytes, an address of 20 and a bloom of 256.
pub record IsSized (p : PayloadParts) : Type 0 where
  pub parent_hash_size : length p.parent_hash ≡ 32
  pub fee_recipient_size : length p.fee_recipient ≡ 20
  pub state_root_size : length p.state_root ≡ 32
  pub receipts_root_size : length p.receipts_root ≡ 32
  pub logs_bloom_size : length p.logs_bloom ≡ 256
  pub prev_randao_size : length p.prev_randao ≡ 32
  pub base_fee_size : length p.base_fee ≡ 32
  pub block_hash_size : length p.block_hash ≡ 32

-- Numbers that fit a uint64, and variable sections that end below 4 GiB.
pub record IsBounded (p : PayloadParts) : Type 0 where
  pub block_number_fits : IsU64 p.block_number
  pub gas_limit_fits : IsU64 p.gas_limit
  pub gas_used_fits : IsU64 p.gas_used
  pub timestamp_fits : IsU64 p.timestamp
  pub blob_gas_used_fits : IsU64 p.blob_gas_used
  pub excess_blob_gas_fits : IsU64 p.excess_blob_gas
  pub slot_number_fits : IsU64 p.slot_number
  pub sections_fit :
      540 + length p.extra_data + length p.transactions + length p.withdrawals < 2 ^ 32

module _ (p : PayloadParts) (sized : IsSized p) where
  abbrev ws : List Bytes
  ws = layout p

  abbrev bs : Bytes
  bs = concat ws

  fixed_head :
      (total (take 1 ws) ≡ 32)
      × (total (take 2 ws) ≡ 52)
      × (total (take 3 ws) ≡ 84)
      × (total (take 4 ws) ≡ 116)
      × (total (take 5 ws) ≡ 372)
      × (total (take 6 ws) ≡ 404)
  fixed_head = omega arith

  numbers :
      (total (take 7 ws) ≡ 412)
      × (total (take 8 ws) ≡ 420)
      × (total (take 9 ws) ≡ 428)
      × (total (take 10 ws) ≡ 436)
      × (total (take 11 ws) ≡ 440)
      × (total (take 12 ws) ≡ 472)
      × (total (take 13 ws) ≡ 504)
  numbers = omega (
    arith,
    fixed_head,
    length-le_bytes 8 p.block_number,
    length-le_bytes 8 p.gas_limit,
    length-le_bytes 8 p.gas_used,
    length-le_bytes 8 p.timestamp,
    length-le_bytes 4 (u32 540),
  )

  abbrev txs_off : ℕ
  txs_off = u32 (u32 540 + u32 (length p.extra_data))

  abbrev wds_off : ℕ
  wds_off = u32 (txs_off + u32 (length p.transactions))

  abbrev bal_off : ℕ
  bal_off = u32 (wds_off + u32 (length p.withdrawals))

  fixed_tail :
      (total (take 14 ws) ≡ 508)
      × (total (take 15 ws) ≡ 512)
      × (total (take 16 ws) ≡ 520)
      × (total (take 17 ws) ≡ 528)
      × (total (take 18 ws) ≡ 532)
      × (total (take 19 ws) ≡ 540)
  fixed_tail = omega (
    arith,
    numbers,
    length-le_bytes 4 txs_off,
    length-le_bytes 4 wds_off,
    length-le_bytes 4 bal_off,
    length-le_bytes 8 p.blob_gas_used,
    length-le_bytes 8 p.excess_blob_gas,
    length-le_bytes 8 p.slot_number,
  )

  -- With sections of the documented sizes the fixed region takes 540 bytes.
  pub total-take-layout : total (take 19 (layout p)) ≡ 540
  total-take-layout = fixed_tail.5

  -- The length of the whole payload bounds its variable sections.
  pub length-layout :
      length (concat (layout p))
      ≡ 540
        + length p.extra_data
        + length p.transactions
        + length p.withdrawals
        + length p.block_access_list
  length-layout = omega (arith, length-concat ws, fixed_tail)

  module _ (bounded : IsBounded p) where
    abbrev txs_at : ℕ
    txs_at = 540 + length p.extra_data

    abbrev wds_at : ℕ
    wds_at = txs_at + length p.transactions

    abbrev bal_at : ℕ
    bal_at = wds_at + length p.withdrawals

    offsets :
        (read_u32 436 bs ≡ 540)
        × (read_u32 504 bs ≡ txs_at)
        × (read_u32 508 bs ≡ wds_at)
        × (read_u32 528 bs ≡ bal_at)
    offsets = (
      read_u32-writes 10 ws 436 540 (omega (arith, numbers)) refl (omega arith),
      read_u32-writes 13 ws 504 txs_off (omega (arith, numbers)) refl (omega arith)
          ∙ omega (arith, bounded.sections_fit),
      read_u32-writes 14 ws 508 wds_off (omega (arith, fixed_tail)) refl (omega arith)
          ∙ omega (arith, bounded.sections_fit),
      read_u32-writes 17 ws 528 bal_off (omega (arith, fixed_tail)) refl (omega arith)
          ∙ omega (arith, bounded.sections_fit),
    )

    variable_sections :
        (slice (read_u32 436 bs) (read_u32 504 bs) bs ≡ p.extra_data)
        × (slice (read_u32 504 bs) (read_u32 508 bs) bs ≡ p.transactions)
        × (slice (read_u32 508 bs) (read_u32 528 bs) bs ≡ p.withdrawals)
        × (drop (read_u32 528 bs) bs ≡ p.block_access_list)
    variable_sections =
        let (e0, e1, e2, e3) = offsets in
        rw (e0, e1, e2, e3)
          (
            slice-writes 19 ws 540 txs_at (omega (arith, fixed_tail)) (omega arith),
            slice-writes 20 ws txs_at wds_at (omega (arith, fixed_tail)) (omega arith),
            slice-writes 21 ws wds_at bal_at (omega (arith, fixed_tail)) (omega arith),
            drop-writes 22 ws bal_at (omega (arith, fixed_tail)) ∙ append-nil p.block_access_list,
          )

    -- A reader finds every part of the payload at its documented place.
    pub read_execution_payload-layout : read_execution_payload (concat (layout p)) ≡ p
    unfolding read_execution_payload
    read_execution_payload-layout =
        let (extra, txs, wds, bal) = variable_sections in
        λ i. record {
          parent_hash = slice-writes 0 ws 0 32 refl (omega arith) i;
          fee_recipient = slice-writes 1 ws 32 52 (omega (arith, fixed_head)) (omega arith) i;
          state_root = slice-writes 2 ws 52 84 (omega (arith, fixed_head)) (omega arith) i;
          receipts_root = slice-writes 3 ws 84 116 (omega (arith, fixed_head)) (omega arith) i;
          logs_bloom = slice-writes 4 ws 116 372 (omega (arith, fixed_head)) (omega arith) i;
          prev_randao = slice-writes 5 ws 372 404 (omega (arith, fixed_head)) (omega arith) i;
          block_number =
              read_u64-writes 6 ws 404 p.block_number (omega (arith, fixed_head)) refl
                bounded.block_number_fits i;
          gas_limit =
              read_u64-writes 7 ws 412 p.gas_limit (omega (arith, numbers)) refl
                bounded.gas_limit_fits i;
          gas_used =
              read_u64-writes 8 ws 420 p.gas_used (omega (arith, numbers)) refl
                bounded.gas_used_fits i;
          timestamp =
              read_u64-writes 9 ws 428 p.timestamp (omega (arith, numbers)) refl
                bounded.timestamp_fits i;
          extra_data = extra i;
          base_fee = slice-writes 11 ws 440 472 (omega (arith, numbers)) (omega arith) i;
          block_hash = slice-writes 12 ws 472 504 (omega (arith, numbers)) (omega arith) i;
          transactions = txs i;
          withdrawals = wds i;
          blob_gas_used =
              read_u64-writes 15 ws 512 p.blob_gas_used (omega (arith, fixed_tail)) refl
                bounded.blob_gas_used_fits i;
          excess_blob_gas =
              read_u64-writes 16 ws 520 p.excess_blob_gas (omega (arith, fixed_tail)) refl
                bounded.excess_blob_gas_fits i;
          block_access_list = bal i;
          slot_number =
              read_u64-writes 18 ws 532 p.slot_number (omega (arith, fixed_tail)) refl
                bounded.slot_number_fits i;
        }
