-- ===== src/ZkevmRunner/Agree.antt =====
-- The two tools that run the zkevm tests, cmd/zkevm-runner/main.go and bench/units.go: the same
-- labels, and the same verdict on the same output.
use stateless_executor.Prelude.{
  ℕ, ◌+◌, ◌≡◌, ◌↔◌, ◌⊎◌, inl, inr, ◌∙◌, refl, ap, ap₂, sym, true, false, ◌&&◌, ◌||◌, List, [], ◌∷◌,
  ◌++◌, Option, none, some, map, Bool-cases,
}
use stateless_executor.Prelude.Errors.{Error}
use stateless_executor.Prelude.Text.{Text, text_eq}
use stateless_executor.Fixture.Zkevm.{ZkevmBlock, ZkevmTestCase}
use stateless_executor.Emu
use stateless_executor.Emu.{empty_result}
use stateless_executor.Bench.{
  is_missing, Encoded, VerdictKind, verify_eest, judged, normalise_hex,
  expected_success_from_output, trimmed,
}
use stateless_executor.Bench.Work.{FileJob, WorkUnit, block_units, case_units, block_label}
use stateless_executor.ZkevmRunner.{WorkItem, Ran, block_items, work_items, judge, no_error}

map_append {ℓ κ} :
    {A : Type ℓ} {B : Type κ} (f : A → B) (xs ys : List A) → map f (xs ++ ys) ≡ map f xs ++ map f ys
map_append f [] ys = refl
map_append f (x ∷ xs) ys = ap (λ l. f x ∷ l) (map_append f xs ys)

abbrev pub item_names : List WorkItem → List Text
item_names items = map (λ (it : WorkItem). it.name) items

abbrev pub unit_labels : List WorkUnit → List Text
unit_labels units = map (λ (u : WorkUnit). u.meta.label) units

block_items-labels :
    (j : FileJob) (tc : ZkevmTestCase) (bi : ℕ) (blocks : List ZkevmBlock)
    → item_names (block_items tc bi blocks) ≡ unit_labels (block_units j tc bi blocks)
unfolding block_items block_units block_label
block_items-labels j tc bi [] = refl
block_items-labels j tc bi (b ∷ blocks) =
    ap (λ (l : List Text). block_label tc bi ∷ l) (block_items-labels j tc (bi + 1) blocks)

-- Both tools give the blocks of a file's test cases the same labels, in the same order.
pub work_items-case_units :
    (j : FileJob) (tcs : List ZkevmTestCase)
    → item_names (work_items tcs) ≡ unit_labels (case_units j tcs)
unfolding work_items case_units
work_items-case_units j [] = refl
work_items-case_units j (tc ∷ tcs) =
    map_append (λ (it : WorkItem). it.name) (block_items tc 0 tc.blocks) (work_items tcs)
    ∙ ap₂ ◌++◌ (block_items-labels j tc 0 tc.blocks) (work_items-case_units j tcs)
    ∙ sym (
        map_append (λ (u : WorkUnit). u.meta.label) (block_units j tc 0 tc.blocks)
          (case_units j tcs))

-- What bench expects of the same block.
abbrev pub encoded_of : ZkevmBlock → Encoded
encoded_of block = record {
  expected_success = expected_success_from_output (normalise_hex block.stateless_output_bytes);
  expected_output_hex = normalise_hex block.stateless_output_bytes;
}

-- What bench makes of the same run.
abbrev pub emulated_of : Ran → Emu.Result
emulated_of ran = record (empty_result ran.raw_out) { output_hex = ran.output_hex }

-- The kinds under which bench does not hold a block against the guest.
abbrev pub IsAccepted : VerdictKind → Type 0
IsAccepted k = (k ≡ VerdictKind.pass) ⊎ (k ≡ VerdictKind.unverified)

judged-IsAccepted :
    (enc : Encoded) (r : Emu.Result)
    → ((text_eq enc.expected_output_hex []
          || text_eq
              (trimmed enc.expected_output_hex (normalise_hex r.output_hex))
              enc.expected_output_hex)
        ≡ true)
      ↔ IsAccepted (judged enc r).kind
unfolding judged
judged-IsAccepted enc r = elim (Bool-cases (text_eq enc.expected_output_hex [])) [
  | inl blank ↦ rw blank (λ h. inr refl, λ h. refl)
  | inr full ↦
      elim (Bool-cases (
        text_eq (trimmed enc.expected_output_hex (normalise_hex r.output_hex))
          enc.expected_output_hex)) [
            | inl equal ↦ rw (full, equal) (λ h. inl refl, λ h. refl)
            | inr differ ↦ rw (full, differ) (λ h. cc, λ h. elim h [ inl e ↦ cc | inr e ↦ cc ])
          ]
]

verify_eest-IsAccepted :
    (enc : Encoded) (r : Emu.Result) (e : Option Error)
    → ((no_error e
          && (text_eq enc.expected_output_hex []
              || text_eq
                  (trimmed enc.expected_output_hex (normalise_hex r.output_hex))
                  enc.expected_output_hex))
        ≡ true)
      ↔ IsAccepted (verify_eest enc r e).kind
unfolding verify_eest
verify_eest-IsAccepted enc r none = judged-IsAccepted enc r
verify_eest-IsAccepted enc r (some x) = elim (Bool-cases (is_missing x)) [
  | inl missing ↦ rw missing (λ h. cc, λ h. elim h [ inl e ↦ cc | inr e ↦ cc ])
  | inr present ↦ rw present (λ h. cc, λ h. elim h [ inl e ↦ cc | inr e ↦ cc ])
]

-- For a run whose output is hex in lower case without a prefix, as the emulators' outputs are encoded:
-- the runner calls a block validated exactly if bench passes it or leaves it unverified.
pub judge-verify_eest :
    (it : WorkItem) (ran : Ran) (elapsed : ℕ)
    → normalise_hex ran.output_hex ≡ ran.output_hex
    → ((judge false it ran elapsed).validation_ok ≡ true)
      ↔ IsAccepted (verify_eest (encoded_of it.block) (emulated_of ran) ran.error).kind
unfolding judge
judge-verify_eest it ran elapsed lower =
    rw lower at (verify_eest-IsAccepted (encoded_of it.block) (emulated_of ran) ran.error)
