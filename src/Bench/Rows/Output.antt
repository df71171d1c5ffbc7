-- ===== src/Bench/Rows/Output.antt =====
-- decodeStatelessOutput of bench/main.go, against the layout that its comment documents.
use stateless_executor.Prelude.{
  ℕ, ◌^◌, ◌≤◌, ◌<◌, ◌≡◌, ◌↔◌, ◌∙◌, refl, ap, sym, Bool, true, false, List, [], ◌∷◌, ◌++◌,
  if◌then◌else◌, ltb, ltb→lt, le→ltb, zero, suc, ◌==◌, length, get_or, take, All, arith,
  length-append, take-append, drop-append, drop-append_add, take_all, Bool-cases, inl, inr,
}
use stateless_executor.Prelude.Text.{Text}
use stateless_executor.Prelude.Endian.{
  Bytes, IsByte, IsU64, le_bytes, le_value, le_value-le_bytes, length-le_bytes, le_bytes-IsByte,
}
use stateless_executor.Fixture.Hex.{decode_string}
use stateless_executor.Emu.{encode_to_string, stateless_output_size}
use stateless_executor.Emu.HexText.{decode_string-encode_to_string}
use stateless_executor.Bench.Rows.{
  no_output, slice, decoded_output, output_of, decode_stateless_output,
}

-- root(32) ‖ valid(1) ‖ chain_id(8, LE) ‖ schema_id(2, LE)
abbrev pub output_region : Bytes → ℕ → ℕ → ℕ → Bytes
output_region root valid chain_id schema_id =
    root ++ ((valid ∷ []) ++ (le_bytes 8 chain_id ++ le_bytes 2 schema_id))

All-append {ℓ κ} :
    {A : Type ℓ} (P : A → Type κ) (xs ys : List A) → All P xs → All P ys → All P (xs ++ ys)
All-append P [] ys h k = k
All-append P (x ∷ xs) ys (h, hs) k = (h, All-append P xs ys hs k)

decoded_output-decoded :
    (b : Bytes) (fine : Bool)
    → (((decoded_output b fine).decoded ≡ true) ↔ ((fine ≡ true) × (43 ≤ length b)))
      × ((decoded_output b fine).decoded ≡ false → decoded_output b fine ≡ no_output)
decoded_output-decoded b false = ((λ h. cc, λ (h, _). cc), λ _. refl)
decoded_output-decoded b true = elim (Bool-cases (ltb (length b) stateless_output_size)) [
  | inl short ↦
      let less = ltb→lt (length b) stateless_output_size short in
      ((λ h. cc (short, h), λ (_, long). absurd (omega (arith, less, long))), λ _. rw short refl)
  | inr long ↦ ((λ _. (refl, ground (arith, long)), λ _. rw long refl), λ h. cc (long, h))
]

-- A region counts as decoded exactly if its text is hex throughout and has at least 43 bytes;
-- otherwise every field is zero.
pub decode_stateless_output-decoded :
    (output_hex : Text)
    → (((decode_stateless_output output_hex).decoded ≡ true)
        ↔ (((decode_string output_hex).1 ≡ true) × (43 ≤ length (decode_string output_hex).0)))
      × ((decode_stateless_output output_hex).decoded ≡ false
          → decode_stateless_output output_hex ≡ no_output)
unfolding decode_stateless_output
decode_stateless_output-decoded output_hex =
    decoded_output-decoded (decode_string output_hex).0 (decode_string output_hex).1

get_or-append_add :
    (n : ℕ) (xs ys : Bytes) (d : ℕ) → n ≡ length xs → get_or (xs ++ ys) n d ≡ get_or ys 0 d
get_or-append_add zero [] ys d h = refl
get_or-append_add (suc n) [] ys d h = absurd (omega arith)
get_or-append_add zero (x ∷ xs) ys d h = absurd (omega arith)
get_or-append_add (suc n) (x ∷ xs) ys d h = get_or-append_add n xs ys d (omega arith)

module _ (root : Bytes) (valid chain_id schema_id : ℕ) (sized : length root ≡ 32) where
  abbrev region : Bytes
  region = output_region root valid chain_id schema_id

  length-region : length region ≡ 43
  length-region = omega (
    arith,
    sized,
    length-append root ((valid ∷ []) ++ (le_bytes 8 chain_id ++ le_bytes 2 schema_id)),
    length-append (le_bytes 8 chain_id) (le_bytes 2 schema_id),
    length-le_bytes 8 chain_id,
    length-le_bytes 2 schema_id,
  )

  region-root : slice 0 32 region ≡ root
  region-root = take-append 32 root _ (sym sized)

  region-valid : get_or region 32 0 ≡ valid
  region-valid = get_or-append_add 32 root _ 0 (sym sized)

  region-chain_id : slice 33 41 region ≡ le_bytes 8 chain_id
  region-chain_id =
      ap (take 8) (drop-append_add 33 1 root _ (omega (arith, sized)))
      ∙ take-append 8 (le_bytes 8 chain_id) (le_bytes 2 schema_id)
          (sym (length-le_bytes 8 chain_id))

  region-schema_id : slice 41 43 region ≡ le_bytes 2 schema_id
  region-schema_id =
      ap (take 2) (
        drop-append_add 41 9 root _ (omega (arith, sized))
        ∙ drop-append 8 (le_bytes 8 chain_id) (le_bytes 2 schema_id)
            (sym (length-le_bytes 8 chain_id)))
      ∙ take_all 2 (le_bytes 2 schema_id) (omega (arith, length-le_bytes 2 schema_id))

  output_of-region :
      IsU64 chain_id
      → schema_id < 2 ^ 16
      → output_of region ≡ record {
        payload_root = encode_to_string root;
        success = valid == 1;
        chain_id = chain_id;
        schema_id = schema_id;
        decoded = true;
      }
  output_of-region chain_fits schema_fits =
      let payload = ap encode_to_string region-root in
      let flag = ap (λ (v : ℕ). v == 1) region-valid in
      let chain =
        ap le_value region-chain_id ∙ le_value-le_bytes 8 chain_id (omega (arith, chain_fits)) in
      let schema =
        ap le_value region-schema_id ∙ le_value-le_bytes 2 schema_id (omega (arith, schema_fits)) in
      cc (payload, flag, chain, schema)

  -- A region with a root of 32 bytes, a validity byte, a chain id below 2^64 and a schema id below
  -- 2^16, written as hex, is decoded to these values: the root as hex, and success exactly for 1.
  pub decode_stateless_output-region :
      All IsByte root
      → IsByte valid
      → IsU64 chain_id
      → schema_id < 2 ^ 16
      → decode_stateless_output (encode_to_string region) ≡ record {
        payload_root = encode_to_string root;
        success = valid == 1;
        chain_id = chain_id;
        schema_id = schema_id;
        decoded = true;
      }
  unfolding decode_stateless_output
  decode_stateless_output-region bytes byte chain_fits schema_fits =
      let all : All IsByte region =
        All-append IsByte root ((valid ∷ []) ++ (le_bytes 8 chain_id ++ le_bytes 2 schema_id)) bytes
          (
            byte,
            All-append IsByte (le_bytes 8 chain_id) (le_bytes 2 schema_id)
                (le_bytes-IsByte 8 chain_id) (le_bytes-IsByte 2 schema_id),
          ) in
      let (back, _) = decode_string-encode_to_string region all in
      let long : ltb (length region) stateless_output_size ≡ false =
        le→ltb (length region) stateless_output_size (omega (arith, length-region)) in
      ap (λ (p : Bytes × Bool). decoded_output p.0 p.1) back
      ∙ ap (λ (b : Bool). if b then no_output else output_of region) long
      ∙ output_of-region chain_fits schema_fits
