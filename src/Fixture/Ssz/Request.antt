-- ===== src/Fixture/Ssz/Request.antt =====
-- The SszNewPayloadRequest container of fixture/encode_ssz.go, read back by its offsets.
use stateless_executor.Prelude.{
  ℕ, ◌+◌, ◌^◌, ◌<◌, ◌≡◌, refl, ◌∙◌, List, [], ◌∷◌, length, take, drop, arith, append-nil,
}
use stateless_executor.Prelude.Endian.{Bytes, length-le_bytes}
use stateless_executor.Fixture.Ssz.{u32, u32_le, concat, new_payload_request}
use stateless_executor.Fixture.Ssz.Decode.{
  slice, read_u32, total, drop-writes, slice-writes, read_u32-writes,
}

pub record NewPayloadParts : Type 0 where
  pub execution_payload : Bytes
  pub versioned_hashes : Bytes
  pub parent_beacon_block_root : Bytes
  pub execution_requests : Bytes

unfoldable pub read_new_payload_request : Bytes → NewPayloadParts
read_new_payload_request bs = record {
  execution_payload = slice (read_u32 0 bs) (read_u32 4 bs) bs;
  versioned_hashes = slice (read_u32 4 bs) (read_u32 40 bs) bs;
  parent_beacon_block_root = slice 8 40 bs;
  execution_requests = drop (read_u32 40 bs) bs;
}

module _ (ep vh er root : Bytes) where
  abbrev o1 : ℕ
  o1 = 44 + length ep

  abbrev o2 : ℕ
  o2 = o1 + length vh

  abbrev ws : List Bytes
  ws = u32_le 44 ∷ u32_le (u32 o1) ∷ root ∷ u32_le (u32 o2) ∷ ep ∷ vh ∷ er ∷ []

  module _ (rooted : length root ≡ 32) (fits : o2 < 2 ^ 32) where
    table :
        (total (take 1 ws) ≡ 4)
        × (total (take 2 ws) ≡ 8)
        × (total (take 3 ws) ≡ 40)
        × (total (take 4 ws) ≡ 44)
    table =
        omega (arith, length-le_bytes 4 44, length-le_bytes 4 (u32 o1), length-le_bytes 4 (u32 o2))

    offsets :
        (read_u32 0 (concat ws) ≡ 44)
        × (read_u32 4 (concat ws) ≡ o1)
        × (read_u32 40 (concat ws) ≡ o2)
    offsets = (
      read_u32-writes 0 ws 0 44 refl refl (omega arith),
      read_u32-writes 1 ws 4 (u32 o1) (omega (arith, table)) refl (omega arith) ∙ omega arith,
      read_u32-writes 3 ws 40 (u32 o2) (omega (arith, table)) refl (omega arith) ∙ omega arith,
    )

    -- The four sections of a request read back, if it is shorter than 4 GiB.
    pub read_new_payload_request-encode :
        read_new_payload_request (new_payload_request ep vh er root) ≡ record {
          execution_payload = ep;
          versioned_hashes = vh;
          parent_beacon_block_root = root;
          execution_requests = er;
        }
    unfolding read_new_payload_request new_payload_request
    read_new_payload_request-encode =
        let (e0, e1, e2) = offsets in
        rw (e0, e1, e2)
          (cc (
            slice-writes 4 ws 44 o1 (omega (arith, table)) (omega arith),
            slice-writes 5 ws o1 o2 (omega (arith, table)) (omega arith),
            slice-writes 2 ws 8 40 (omega (arith, table)) (omega arith),
            drop-writes 6 ws o2 (omega (arith, table)) ∙ append-nil er,
          ))
