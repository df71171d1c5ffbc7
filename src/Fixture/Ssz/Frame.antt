-- ===== src/Fixture/Ssz/Frame.antt =====
-- The zkVM file framing (fixture/encode_ssz.go, ZkvmFrame) read back.
use stateless_executor.Prelude.{
  ℕ, ◌+◌, ◌-◌, ◌*◌, ◌/◌, ◌%◌, ◌≤◌, ◌<◌, ◌≡◌, refl, ap, ◌∙◌, List, [], ◌∷◌, length, take, drop,
  replicate, length-replicate, take-append, arith, append-nil,
}
use stateless_executor.Prelude.Endian.{Bytes, IsU64, length-le_bytes}
use stateless_executor.Fixture.Ssz.{u64_le, zkvm_frame}
use stateless_executor.Fixture.Ssz.Decode.{read_u64, drop-writes, length-concat, read_u64-writes}

-- What the guest reads of a file: as many bytes behind the header as the header says.
abbrev pub read_frame : Bytes → Bytes
read_frame bs = take (read_u64 0 bs) (drop 8 bs)

abbrev padding : Bytes → Bytes
padding ssz = replicate ((length ssz + 7) / 8 * 8 - length ssz) 0

abbrev writes : Bytes → List Bytes
writes ssz = u64_le (length ssz) ∷ ssz ∷ padding ssz ∷ []

-- The bytes behind the header of a frame, as many as the header says, are the input, if its length
-- fits a uint64.
pub read_frame-zkvm_frame : (ssz : Bytes) → IsU64 (length ssz) → read_frame (zkvm_frame ssz) ≡ ssz
unfolding zkvm_frame
read_frame-zkvm_frame ssz h =
    ap (λ (n : ℕ). take n (drop 8 (zkvm_frame ssz)))
      (read_u64-writes 0 (writes ssz) 0 (length ssz) refl refl h)
    ∙ ap (λ (t : Bytes). take (length ssz) t)
        (drop-writes 1 (writes ssz) 8 (omega (arith, length-le_bytes 8 (length ssz))))
    ∙ take-append (length ssz) ssz _ refl

length-zkvm_frame_total : (ssz : Bytes) → length (zkvm_frame ssz) ≡ 8 + (length ssz + 7) / 8 * 8
unfolding zkvm_frame
length-zkvm_frame_total ssz = omega (
  arith,
  length-concat (writes ssz),
  length-replicate {0} {A = ℕ} ((length ssz + 7) / 8 * 8 - length ssz) 0,
  length-le_bytes 8 (length ssz),
)

-- The length of a frame is a multiple of 8, at least 8 and less than 16 above that of the input.
pub length-zkvm_frame :
    (ssz : Bytes)
    → (length (zkvm_frame ssz) % 8 ≡ 0)
      × (length ssz + 8 ≤ length (zkvm_frame ssz))
      × (length (zkvm_frame ssz) < length ssz + 16)
length-zkvm_frame ssz = omega (arith, length-zkvm_frame_total ssz)

-- What stands behind the input is zeros only.
pub drop-zkvm_frame :
    (ssz : Bytes)
    → drop (8 + length ssz) (zkvm_frame ssz)
      ≡ replicate (length (zkvm_frame ssz) - 8 - length ssz) 0
unfolding zkvm_frame
drop-zkvm_frame ssz =
    drop-writes 2 (writes ssz) (8 + length ssz) (omega (arith, length-le_bytes 8 (length ssz)))
    ∙ append-nil (padding ssz)
    ∙ ap (λ (n : ℕ). replicate n 0) (omega (arith, length-zkvm_frame_total ssz))
