-- ===== src/Fixture/Ssz/Sections.antt =====
-- The container of execution requests: five offsets, then five sections, read back.
use stateless_executor.Prelude.{
  ℕ, ◌+◌, ◌<◌, ◌^◌, ◌≡◌, refl, ◌∙◌, List, [], ◌∷◌, ◌++◌, length, take, drop, arith, append-nil,
}
use stateless_executor.Prelude.Endian.{Bytes, length-le_bytes}
use stateless_executor.Fixture.Ssz.{u32, u32_le, concat, list_offsets}
use stateless_executor.Fixture.Ssz.Decode.{
  slice, read_u32, total, drop-writes, slice-writes, read_u32-writes,
}

-- The five sections of the container, by its offsets.
abbrev pub sections : Bytes → List Bytes
sections bs =
    slice (read_u32 0 bs) (read_u32 4 bs) bs
    ∷ slice (read_u32 4 bs) (read_u32 8 bs) bs
    ∷ slice (read_u32 8 bs) (read_u32 12 bs) bs
    ∷ slice (read_u32 12 bs) (read_u32 16 bs) bs
    ∷ drop (read_u32 16 bs) bs
    ∷ []

module _ (l0 l1 l2 l3 l4 : Bytes) where
  abbrev ls : List Bytes
  ls = l0 ∷ l1 ∷ l2 ∷ l3 ∷ l4 ∷ []

  abbrev o1 : ℕ
  o1 = 20 + length l0

  abbrev o2 : ℕ
  o2 = o1 + length l1

  abbrev o3 : ℕ
  o3 = o2 + length l2

  abbrev o4 : ℕ
  o4 = o3 + length l3

  abbrev ws : List Bytes
  ws = u32_le (u32 20) ∷ u32_le (u32 o1) ∷ u32_le (u32 o2) ∷ u32_le (u32 o3) ∷ u32_le (u32 o4) ∷ ls

  table :
      (total (take 1 ws) ≡ 4)
      × (total (take 2 ws) ≡ 8)
      × (total (take 3 ws) ≡ 12)
      × (total (take 4 ws) ≡ 16)
      × (total (take 5 ws) ≡ 20)
  table = omega (
    arith,
    length-le_bytes 4 (u32 20),
    length-le_bytes 4 (u32 o1),
    length-le_bytes 4 (u32 o2),
    length-le_bytes 4 (u32 o3),
    length-le_bytes 4 (u32 o4),
  )

  module _ (h : 20 + total ls < 2 ^ 32) where
    offsets :
        (read_u32 0 (concat ws) ≡ 20)
        × (read_u32 4 (concat ws) ≡ o1)
        × (read_u32 8 (concat ws) ≡ o2)
        × (read_u32 12 (concat ws) ≡ o3)
        × (read_u32 16 (concat ws) ≡ o4)
    offsets = (
      read_u32-writes 0 ws 0 (u32 20) refl refl (omega arith),
      read_u32-writes 1 ws 4 (u32 o1) (omega (arith, table)) refl (omega arith) ∙ omega arith,
      read_u32-writes 2 ws 8 (u32 o2) (omega (arith, table)) refl (omega arith) ∙ omega arith,
      read_u32-writes 3 ws 12 (u32 o3) (omega (arith, table)) refl (omega arith) ∙ omega arith,
      read_u32-writes 4 ws 16 (u32 o4) (omega (arith, table)) refl (omega arith) ∙ omega arith,
    )

    pub sections-concat : sections (concat (list_offsets 20 ls ++ ls)) ≡ ls
    unfolding list_offsets
    sections-concat =
        let (e0, e1, e2, e3, e4) = offsets in
        rw (e0, e1, e2, e3, e4)
          (cc (
            slice-writes 5 ws 20 o1 (omega (arith, table)) (omega arith),
            slice-writes 6 ws o1 o2 (omega (arith, table)) (omega arith),
            slice-writes 7 ws o2 o3 (omega (arith, table)) (omega arith),
            slice-writes 8 ws o3 o4 (omega (arith, table)) (omega arith),
            drop-writes 9 ws o4 (omega (arith, table)) ∙ append-nil l4,
          ))
