-- ===== src/Fixture/Ssz/Withdrawals.antt =====
-- fixture/encode_ssz.go, encodeSszWithdrawalList: 44 bytes a withdrawal, read back.
use stateless_executor.Prelude.{
  ℕ, zero, suc, ◌*◌, ◌≡◌, refl, sym, ap, ap₂, ◌∙◌, List, [], ◌∷◌, length, take, drop, length-append,
  take-append, drop-append, arith, All,
}
use stateless_executor.Prelude.Endian.{Bytes, IsU64, length-le_bytes}
use stateless_executor.Fixture.Geth.{Withdrawal}
use stateless_executor.Fixture.Ssz.{u64_le, withdrawal_bytes, encode_ssz_withdrawal_list}
use stateless_executor.Fixture.Ssz.Decode.{
  slice, read_u64, slice-writes, read_u64-writes, length-concat,
}

-- A withdrawal whose numbers are uint64s and whose address has 20 bytes.
pub record IsWithdrawal (w : Withdrawal) : Type 0 where
  pub index_fits : IsU64 w.index
  pub validator_fits : IsU64 w.validator
  pub address_size : length w.address ≡ 20
  pub amount_fits : IsU64 w.amount

unfoldable pub read_withdrawal : Bytes → Withdrawal
read_withdrawal bs = record {
  index = read_u64 0 bs;
  validator = read_u64 8 bs;
  address = slice 16 36 bs;
  amount = read_u64 36 bs;
}

unfoldable pub read_withdrawals : ℕ → Bytes → List Withdrawal
unfolding read_withdrawal
read_withdrawals zero bs = []
read_withdrawals (suc n) bs = read_withdrawal (take 44 bs) ∷ read_withdrawals n (drop 44 bs)

abbrev writes : Withdrawal → List Bytes
writes w = u64_le w.index ∷ u64_le w.validator ∷ w.address ∷ u64_le w.amount ∷ []

sizes :
    (w : Withdrawal)
    → (length (u64_le w.index) ≡ 8)
      × (length (u64_le w.validator) ≡ 8)
      × (length (u64_le w.amount) ≡ 8)
sizes w = (length-le_bytes 8 w.index, length-le_bytes 8 w.validator, length-le_bytes 8 w.amount)

length-withdrawal_bytes : (w : Withdrawal) → IsWithdrawal w → length (withdrawal_bytes w) ≡ 44
length-withdrawal_bytes w v = omega (arith, length-concat (writes w), sizes w)

read_withdrawal-bytes : (w : Withdrawal) → IsWithdrawal w → read_withdrawal (withdrawal_bytes w) ≡ w
unfolding read_withdrawal
read_withdrawal-bytes w v = λ i. record {
  index = read_u64-writes 0 (writes w) 0 w.index refl refl v.index_fits i;
  validator =
      read_u64-writes 1 (writes w) 8 w.validator (omega (arith, sizes w)) refl v.validator_fits i;
  address = slice-writes 2 (writes w) 16 36 (omega (arith, sizes w)) (omega arith) i;
  amount = read_u64-writes 3 (writes w) 36 w.amount (omega (arith, sizes w)) refl v.amount_fits i;
}

-- Withdrawals whose numbers fit a uint64 and whose addresses have 20 bytes take 44 bytes each, and
-- reading that many returns them.
pub read_withdrawals-encode :
    (wds : List Withdrawal)
    → All IsWithdrawal wds
    → (length (encode_ssz_withdrawal_list wds) ≡ 44 * length wds)
      × (read_withdrawals (length wds) (encode_ssz_withdrawal_list wds) ≡ wds)
unfolding encode_ssz_withdrawal_list read_withdrawals
read_withdrawals-encode [] h = (refl, refl)
read_withdrawals-encode (w ∷ wds) (v, vs) =
    let (size, back) = read_withdrawals-encode wds vs in
    let rest : Bytes = encode_ssz_withdrawal_list wds in
    let here = sym (length-withdrawal_bytes w v) in
    (
      omega (arith, length-append (withdrawal_bytes w) rest, here, size),
      ap₂ ◌∷◌
          (ap read_withdrawal (take-append 44 (withdrawal_bytes w) rest here)
            ∙ read_withdrawal-bytes w v)
          (ap (read_withdrawals (length wds)) (drop-append 44 (withdrawal_bytes w) rest here)
            ∙ back),
    )
