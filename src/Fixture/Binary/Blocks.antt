-- ===== src/Fixture/Binary/Blocks.antt =====
-- The blocks, the arrays and the padding of fixture/encode_binary.go, read back.
use stateless_executor.Prelude.{
  ℕ, zero, suc, ◌*◌, ◌-◌, ◌%◌, ◌≤◌, ◌<◌, ◌≡◌, refl, sym, ap, ap₂, ◌∙◌, List, [], ◌∷◌, ◌++◌, length,
  take, drop, replicate, length-append, take-append, drop-append, append_assoc, append-nil, arith,
  ◌==◌, Bool-cases, inl, inr, ==_iff,
}
use stateless_executor.Prelude.Endian.{Bytes, IsU64, be_value, length-be_bytes, be_value-be_bytes}
use stateless_executor.Fixture.Binary.{write_be64, write_items, write_binary_array, pad_rounds}

-- A length and as many bytes, and what follows them.
abbrev pub read_block : Bytes → Bytes × Bytes
read_block bs = let n = be_value (take 8 bs) in (take n (drop 8 bs), drop n (drop 8 bs))

unfoldable pub read_blocks : ℕ → Bytes → List Bytes × Bytes
read_blocks zero bs = ([], bs)
read_blocks (suc n) bs =
    let (items, rest) = read_blocks n (read_block bs).1 in ((read_block bs).0 ∷ items, rest)

abbrev pub read_array : Bytes → List Bytes × Bytes
read_array bs = read_blocks (be_value (take 8 bs)) (drop 8 bs)

module _ (n : ℕ) (tail : Bytes) where
  take-write_be64 : take 8 (write_be64 n ++ tail) ≡ write_be64 n
  take-write_be64 = take-append 8 (write_be64 n) tail (sym (length-be_bytes 8 n))

  drop-write_be64 : drop 8 (write_be64 n ++ tail) ≡ tail
  drop-write_be64 = drop-append 8 (write_be64 n) tail (sym (length-be_bytes 8 n))

  read-write_be64 : IsU64 n → be_value (take 8 (write_be64 n ++ tail)) ≡ n
  read-write_be64 h = ap be_value take-write_be64 ∙ be_value-be_bytes 8 n (omega arith)

pub read_block-write :
    (item tail : Bytes)
    → IsU64 (length item)
    → read_block (write_be64 (length item) ++ (item ++ tail)) ≡ (item, tail)
read_block-write item tail h =
    let n = read-write_be64 (length item) (item ++ tail) h in
    let rest = drop-write_be64 (length item) (item ++ tail) in
    λ i. (
      (ap₂ take n rest ∙ take-append (length item) item tail refl) i,
      (ap₂ drop n rest ∙ drop-append (length item) item tail refl) i,
    )

read_blocks-suc :
    (n : ℕ) (bs item rest : Bytes)
    → read_block bs ≡ (item, rest)
    → read_blocks (suc n) bs ≡ (item ∷ (read_blocks n rest).0, (read_blocks n rest).1)
unfolding read_blocks
read_blocks-suc n bs item rest e =
    ap (λ (p : Bytes × Bytes). (p.0 ∷ (read_blocks n p.1).0, (read_blocks n p.1).1)) e

length-write_items : (items : List Bytes) → 8 * length items ≤ length (write_items items)
unfolding write_items
length-write_items [] = omega arith
length-write_items (item ∷ items) = omega (
  arith,
  length-write_items items,
  length-append (write_be64 (length item)) (item ++ write_items items),
  length-append item (write_items items),
  length-be_bytes 8 (length item),
)

read_blocks-write_items :
    (items : List Bytes) (tail : Bytes)
    → IsU64 (length (write_items items))
    → read_blocks (length items) (write_items items ++ tail) ≡ (items, tail)
unfolding write_items
read_blocks-write_items [] tail h = unfold read_blocks in refl
read_blocks-write_items (item ∷ items) tail h =
    let rest = write_items items in
    let front = write_be64 (length item) in
    let size = length-append front (item ++ rest) in
    let inner = length-append item rest in
    let split : (front ++ (item ++ rest)) ++ tail ≡ front ++ (item ++ (rest ++ tail)) =
      append_assoc front (item ++ rest) tail
      ∙ ap (λ (t : Bytes). front ++ t) (append_assoc item rest tail) in
    ap (read_blocks (suc (length items))) split
    ∙ read_blocks-suc (length items) _ item (rest ++ tail)
        (read_block-write item (rest ++ tail) (omega (arith, size, inner)))
    ∙ ap (λ (q : List Bytes × Bytes). (item ∷ q.0, q.1))
        (read_blocks-write_items items tail (omega (arith, size, inner)))

pub read_array-write :
    (items : List Bytes) (tail : Bytes)
    → IsU64 (length (write_binary_array items))
    → read_array (write_binary_array items ++ tail) ≡ (items, tail)
read_array-write items tail h =
    let rest = write_items items in
    let size = length-append (write_be64 (length items)) rest in
    ap read_array (append_assoc (write_be64 (length items)) rest tail)
    ∙ ap₂ read_blocks
        (read-write_be64 (length items) (rest ++ tail)
          (omega (arith, size, length-write_items items)))
        (drop-write_be64 (length items) (rest ++ tail))
    ∙ read_blocks-write_items items tail (omega (arith, size))

-- The padding loop ends within its 8 rounds, at a multiple of 8, and adds only zeros.
pub pad_rounds-shape :
    (n : ℕ) (payload : Bytes)
    → (8 - length payload % 8) % 8 < n
    → pad_rounds n payload ≡ payload ++ replicate ((8 - length payload % 8) % 8) 0
unfolding pad_rounds
pad_rounds-shape zero payload h = absurd (omega arith)
pad_rounds-shape (suc n) payload h = elim (Bool-cases (length payload % 8 == 0)) [
  | inl done ↦
      let whole : length payload % 8 ≡ 0 = (==_iff (length payload % 8) 0).0 done in
      let none_left : 0 ≡ (8 - length payload % 8) % 8 = omega (arith, whole) in
      rw done (sym (append-nil payload) ∙ ap (λ (k : ℕ). payload ++ replicate k 0) none_left)
  | inr more ↦
      let left = (8 - length payload % 8) % 8 in
      let missing : 0 < length payload % 8 = ground (arith, more) in
      let size = length-append payload (0 ∷ []) in
      let less : (8 - length (payload ++ (0 ∷ [])) % 8) % 8 ≡ left - 1 =
        omega (arith, size, missing) in
      let again : suc (left - 1) ≡ left = omega (arith, missing) in
      rw more (
        pad_rounds-shape n (payload ++ (0 ∷ [])) (omega (arith, less, missing))
        ∙ ap (λ (k : ℕ). (payload ++ (0 ∷ [])) ++ replicate k 0) less
        ∙ append_assoc payload (0 ∷ []) (replicate (left - 1) 0)
        ∙ ap (λ (k : ℕ). payload ++ replicate k 0) again)
]
