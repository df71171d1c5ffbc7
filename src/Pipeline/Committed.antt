-- ===== src/Pipeline/Committed.antt =====
-- The checks of pipeline/pipeline.go against the hashes in a block's header: the block access list
-- and the execution requests.
use stateless_executor.Prelude.{
  ◌≡◌, ◌≢◌, ◌↔◌, ◌⊎◌, inl, inr, refl, ap, ◌∙◌, sym, List, [], ◌∷◌, Option, none, some, Bool-cases,
  Option-cases, arith,
}
use stateless_executor.Prelude.Errors.{Result, ok, err, panic, >>=-eq-ok, wrapping}
use stateless_executor.Prelude.Text.{Text, codes, text_eq, text_eq_refl, text_eq→eq}
use stateless_executor.Prelude.Endian.{Bytes}
use stateless_executor.Fixture.Geth.{Geth}
use stateless_executor.Fixture.Live.{Block}
use stateless_executor.Pool.{call}
use stateless_executor.Pipeline.Types.{Remote}
use stateless_executor.Pipeline.Bal.{verify_bal_hash, checked_hash}
use stateless_executor.Pipeline.Fetch.{fetch_requests, decode_requests, asked_requests, bal_error}

module _ {g : Geth} (r : Remote g) where
  -- The bytes are an access list whose hash is this one.
  pub record IsCommitted (expected bal_bytes : Bytes) : Type 0 where
    pub fetched : bal_bytes ≢ []
    pub decoded : r.bal.decode_hash bal_bytes ≡ ok expected

  checked_hash-none :
      (expected : Bytes) (got : Result Bytes)
      → (checked_hash r expected got ≡ none) ↔ (got ≡ ok expected)
  checked_hash-none expected (err e) = ground arith
  checked_hash-none expected panic = ground arith
  checked_hash-none expected (ok got) = elim (Bool-cases (text_eq got expected)) [
    | inl match' ↦ (λ h. ap ok (text_eq→eq got expected match'), λ h. rw match' refl)
    | inr differ ↦ (λ h. cc, λ h. absurd (cc (differ, h, text_eq_refl expected)))
  ]

  -- The header commits to no access list, or one was fetched that has the committed hash.
  abbrev pub HasBal : Block g → Bytes → Type 0
  HasBal block bal_bytes =
      (block.header.block_access_list_hash ≡ none)
      ⊎ ((expected : Bytes) × (block.header.block_access_list_hash ≡ some expected)
          × IsCommitted expected bal_bytes)

  -- The error that is kept beside the input is nil exactly if the header commits to no access list,
  -- or an access list was fetched that decodes and has the committed hash.
  pub bal_error-none :
      (bal_bytes : Bytes) (block : Block g)
      → (bal_error r bal_bytes block ≡ none) ↔ HasBal block bal_bytes
  unfolding bal_error verify_bal_hash
  bal_error-none [] block = elim (Option-cases block.header.block_access_list_hash) [
    | inl plain ↦ (λ h. inl plain, λ h. rw plain refl)
    | inr (x, committed) ↦
        (λ h. cc, λ h. elim h [ inl q ↦ cc | inr (y, q, c) ↦ absurd (c.fetched refl) ])
  ]
  bal_error-none (b ∷ bs) block = elim (Option-cases block.header.block_access_list_hash) [
    | inl plain ↦ (λ h. inl plain, λ h. rw plain refl)
    | inr (x, committed) ↦
        let (to, back) = checked_hash-none x (r.bal.decode_hash (b ∷ bs)) in
        (
          λ h. inr (x, committed, record { fetched = λ nil. cc; decoded = to (cc) }),
          λ h. rw committed (elim h [
            | inl q ↦ cc
            | inr (y, q, c) ↦ let same : y ≡ x = cc in back (c.decoded ∙ ap ok same)
          ]),
        )
  ]

  asked_requests-hash :
      (url num : Text) (want : Bytes) {requests : List Bytes}
      → asked_requests r url num want ≡ ok requests
      → r.calc_requests_hash requests ≡ want
  asked_requests-hash url num want {requests} h =
      let (raw, _, h1) =
        >>=-eq-ok (call (r.answer url (codes "debug_getRawExecutionRequests") num)) _ h in
      let (encoded, _, h2) =
        >>=-eq-ok (wrapping "decoding debug_getRawExecutionRequests" (r.unmarshal_strings raw)) _
          h1 in
      let (rs, _, h3) = >>=-eq-ok (decode_requests 0 encoded) _ h2 in
      elim (Bool-cases (text_eq (r.calc_requests_hash rs) want)) [
        | inl equal ↦
            let same : rs ≡ requests = cc in
            ap r.calc_requests_hash (sym same) ∙ text_eq→eq (r.calc_requests_hash rs) want equal
        | inr differ ↦ cc
      ]

  abbrev pub requests_hash_or_empty : Option Bytes → Bytes
  requests_hash_or_empty none = r.empty_requests_hash
  requests_hash_or_empty (some want) = want

  -- If the hash of no requests is the constant for them: the requests that a fetch goes on with hash
  -- to the header's requests hash, and where the header has none, to that of no requests.
  pub fetch_requests-hash :
      (url num : Text) (block : Block g) {requests : List Bytes}
      → r.calc_requests_hash [] ≡ r.empty_requests_hash
      → fetch_requests r url num block ≡ ok requests
      → r.calc_requests_hash requests ≡ requests_hash_or_empty block.header.requests_hash
  unfolding fetch_requests
  fetch_requests-hash url num block {requests} empties h =
      elim (Option-cases block.header.requests_hash) [
        | inl plain ↦ let same : requests ≡ [] = cc in rw (same, plain) empties
        | inr (x, committed) ↦ elim (Bool-cases (text_eq x r.empty_requests_hash)) [
          | inl blank ↦
              let at = text_eq→eq x r.empty_requests_hash blank in
              let same : requests ≡ [] = cc in rw (same, committed) (empties ∙ sym at)
          | inr full ↦
              let asked : asked_requests r url num x ≡ ok requests = cc in
              rw committed (asked_requests-hash url num x asked)
        ]
      ]
