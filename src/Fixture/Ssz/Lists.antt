-- ===== src/Fixture/Ssz/Lists.antt =====
-- The SSZ lists of fixture/encode_ssz.go, read back: byte lists behind their offset table.
use stateless_executor.Prelude.{
  ℕ, suc, ◌+◌, ◌-◌, ◌*◌, ◌/◌, ◌^◌, ◌<◌, ◌≡◌, refl, sym, ap, ◌∙◌, List, [], ◌∷◌, ◌++◌, length, take,
  drop, length-append, take-append, drop-append, drop-append_add, arith, append-nil, ap₂,
  append_assoc,
}
use stateless_executor.Prelude.Endian.{
  Bytes, le_bytes, le_value, length-le_bytes, le_value-le_bytes,
}
use stateless_executor.Fixture.Ssz.{
  u32, u32_le, concat, byte_list_offsets, encode_ssz_byte_list_list,
}
use stateless_executor.Fixture.Ssz.Decode.{read_u32, read_items, decode_byte_list_list}

length-byte_list_offsets :
    (off : ℕ) (items : List Bytes) → length (byte_list_offsets off items) ≡ 4 * length items
unfolding byte_list_offsets
length-byte_list_offsets off [] = refl
length-byte_list_offsets off (item ∷ items) =
    let next = u32 (off + u32 (length item)) in
    omega (
      arith,
      length-append (u32_le off) (byte_list_offsets next items),
      length-le_bytes 4 off,
      length-byte_list_offsets next items,
    )

-- A list being written: the offsets before the items left, and the bytes of the items before them.
abbrev image : Bytes → ℕ → Bytes → List Bytes → Bytes
image table off bytes items = table ++ (byte_list_offsets off items ++ (bytes ++ concat items))

module _ (table : Bytes) (off : ℕ) (bytes : Bytes) where
  abbrev Placed : List Bytes → Type 0
  Placed items =
      (off ≡ length table + 4 * length items + length bytes)
      × (off + length (concat items) < 2 ^ 32)

  drop-image :
      (items : List Bytes) → Placed items → drop off (image table off bytes items) ≡ concat items
  drop-image items h =
      let left : Bytes = byte_list_offsets off items in
      drop-append_add off (4 * length items + length bytes) table (left ++ (bytes ++ concat items))
        (omega arith)
      ∙ drop-append_add (4 * length items + length bytes) (length bytes) left
          (bytes ++ concat items) (omega (arith, length-byte_list_offsets off items))
      ∙ drop-append (length bytes) bytes (concat items) refl

  image_offset :
      (item : Bytes) (items : List Bytes)
      → Placed (item ∷ items)
      → read_u32 (length table) (image table off bytes (item ∷ items)) ≡ off
  unfolding byte_list_offsets
  image_offset item items h =
      let next = byte_list_offsets (u32 (off + u32 (length item))) items in
      let back = bytes ++ concat (item ∷ items) in
      ap (λ (t : Bytes). le_value (take 4 t)) (drop-append (length table) table _ refl)
      ∙ ap (λ (t : Bytes). le_value (take 4 t)) (append_assoc (u32_le off) next back)
      ∙ ap le_value (take-append 4 (u32_le off) (next ++ back) (sym (length-le_bytes 4 off)))
      ∙ le_value-le_bytes 4 off (omega arith)

  -- Writing one item moves its offset and its bytes to the front parts.
  image_step :
      (item : Bytes) (items : List Bytes)
      → Placed (item ∷ items)
      → image table off bytes (item ∷ items)
        ≡ image (table ++ u32_le off) (off + length item) (bytes ++ item) items
  unfolding byte_list_offsets
  image_step item items h =
      let e : u32 (off + u32 (length item)) ≡ off + length item =
        omega (arith, length-append item (concat items)) in
      rw e (rw (append_assoc, append_assoc, append_assoc))

image_next :
    (table : Bytes) (off : ℕ) (bytes item : Bytes) (items : List Bytes)
    → Placed table off bytes (item ∷ items)
    → Placed (table ++ u32_le off) (off + length item) (bytes ++ item) items
image_next table off bytes item items h = omega (
  arith,
  length-append table (u32_le off),
  length-append bytes item,
  length-append item (concat items),
  length-le_bytes 4 off,
)

read_items-image :
    (table : Bytes) (off : ℕ) (bytes : Bytes) (items : List Bytes)
    → Placed table off bytes items
    → read_items (length items) (length table) (image table off bytes items) ≡ items
unfolding read_items
read_items-image table off bytes [] h = refl
read_items-image table off bytes (item ∷ []) h =
    let bs : Bytes = image table off bytes (item ∷ []) in
    ap (λ (n : ℕ). drop n bs ∷ []) (image_offset table off bytes item [] h)
    ∙ ap (λ (b : Bytes). b ∷ []) (drop-image table off bytes (item ∷ []) h ∙ append-nil item)
read_items-image table off bytes (item ∷ next ∷ items) h =
    let table' = table ++ u32_le off in
    let off' = off + length item in
    let bytes' = bytes ++ item in
    let h' = image_next table off bytes item (next ∷ items) h in
    let step = image_step table off bytes item (next ∷ items) h in
    let at : length table' ≡ length table + 4 =
      length-append table (u32_le off) ∙ ap (λ n. length table + n) (length-le_bytes 4 off) in
    let second : read_u32 (length table + 4) (image table off bytes (item ∷ next ∷ items)) ≡ off' =
      rw (step, ← at) (image_offset table' off' bytes' next items h') in
    let rest : read_items (suc (length items)) (length table + 4)
          (image table off bytes (item ∷ next ∷ items))
        ≡ next ∷ items =
      rw (step, ← at) (read_items-image table' off' bytes' (next ∷ items) h') in
    ap₂ ◌∷◌
      (rw (image_offset table off bytes item (next ∷ items) h, second)
        (ap (λ (t : Bytes). take (off + length item - off) t)
            (drop-image table off bytes (item ∷ next ∷ items) h)
          ∙ take-append (off + length item - off) item (concat (next ∷ items)) (omega arith)))
      rest

encode-nonempty :
    (item : Bytes) (items : List Bytes)
    → (b : ℕ) × (bs : Bytes) × (encode_ssz_byte_list_list (item ∷ items) ≡ b ∷ bs)
unfolding encode_ssz_byte_list_list byte_list_offsets le_bytes
encode-nonempty item items = (_, _, refl)

decode-cons :
    (x : Bytes) {b : ℕ} {bs : Bytes}
    → x ≡ b ∷ bs
    → decode_byte_list_list x ≡ read_items (read_u32 0 x / 4) 0 x
unfolding decode_byte_list_list
decode-cons [] e = cc
decode-cons (c ∷ x) e = refl

pub length-encode :
    (items : List Bytes)
    → length (encode_ssz_byte_list_list items) ≡ 4 * length items + length (concat items)
unfolding encode_ssz_byte_list_list
length-encode [] = refl
length-encode (item ∷ items) =
    let off = u32 (4 * length (item ∷ items)) in
    omega (
      arith,
      length-append (byte_list_offsets off (item ∷ items)) (concat (item ∷ items)),
      length-byte_list_offsets off (item ∷ items),
    )

-- The encoding of a list of byte lists decodes to that list, if it is shorter than 4 GiB.
pub decode_byte_list_list-encode :
    (items : List Bytes)
    → length (encode_ssz_byte_list_list items) < 2 ^ 32
    → decode_byte_list_list (encode_ssz_byte_list_list items) ≡ items
unfolding encode_ssz_byte_list_list
decode_byte_list_list-encode [] h = unfold decode_byte_list_list in refl
decode_byte_list_list-encode (item ∷ items) h =
    let all = item ∷ items in
    let off = u32 (4 * length all) in
    let placed : Placed [] off [] all =
      omega (arith, length-encode all, length-append item (concat items)) in
    decode-cons (encode_ssz_byte_list_list all) (encode-nonempty item items).2
    ∙ ap (λ (n : ℕ). read_items n 0 (encode_ssz_byte_list_list all))
        (ap (λ (n : ℕ). n / 4) (image_offset [] off [] item items placed)
          ∙ omega (arith, length-encode all, length-append item (concat items)))
    ∙ read_items-image [] off [] all placed
