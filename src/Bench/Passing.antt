-- ===== src/Bench/Passing.antt =====
-- When bench/units.go lets a unit pass.
use stateless_executor.Prelude.{
  ◌≡◌, sym, ap, ◌∙◌, ◌≢◌, ◌↔◌, ◌≤◌, refl, [], ◌∷◌, Option, none, some, length, take, take_all, ltb,
  arith, Bool-cases, inl, inr,
}
use stateless_executor.Prelude.Errors.{Error}
use stateless_executor.Prelude.Text.{Text, text_eq, text_eq→eq, text_eq_refl}
use stateless_executor.Bench.{
  Encoded, VerdictKind, verify_eest, verify_corpus, judged, normalise_hex, trimmed,
}
use stateless_executor.Emu

trimmed-take :
    (expected got : Text) → expected ≢ [] → trimmed expected got ≡ take (length expected) got
trimmed-take [] got h = absurd (h refl)
trimmed-take (c ∷ s) got h = elim (Bool-cases (ltb (length (c ∷ s)) (length got))) [
  | inl longer ↦ rw longer (ground arith)
  | inr shorter ↦
      let fits : length got ≤ length (c ∷ s) = ground (arith, shorter) in
      rw shorter (ground (arith, take_all (length (c ∷ s)) got fits))
]

-- The verdict on a run that returned no error.
judged_pass_iff :
    (enc : Encoded) (r : Emu.Result)
    → ((judged enc r).kind ≡ VerdictKind.pass) ↔ (
        (enc.expected_output_hex ≢ [])
        × (take (length enc.expected_output_hex) (normalise_hex r.output_hex)
            ≡ enc.expected_output_hex))
unfolding judged
judged_pass_iff enc r =
    let want = enc.expected_output_hex in
    let got = trimmed want (normalise_hex r.output_hex) in
    elim (Bool-cases (text_eq want [])) [
      | inl nothing ↦
          let none_there = text_eq→eq want [] nothing in
          rw nothing (λ h. cc, λ (there, starts). absurd (there none_there))
      | inr something ↦
          let there : want ≢ [] = λ e. cc (something, ap (λ (t : Text). text_eq t []) e) in
          let cut = trimmed-take want (normalise_hex r.output_hex) there in
          elim (Bool-cases (text_eq got want)) [
            | inl match ↦
                rw (something, match) (λ h. (there, sym cut ∙ text_eq→eq got want match), λ h. refl)
            | inr differs ↦
                rw (something, differs)
                  (
                    λ h. cc,
                    λ (there', starts). cc (
                      differs,
                      ap (λ (t : Text). text_eq t want) (cut ∙ starts),
                      text_eq_refl want,
                    ),
                  )
          ]
    ]

-- A unit of the blockchain tests passes exactly if the run returned no error, the fixture has an
-- expected output, and the output starts with it, as lower-case hex without its 0x.
pub verify_eest_pass_iff :
    (enc : Encoded) (r : Emu.Result) (run_err : Option Error)
    → ((verify_eest enc r run_err).kind ≡ VerdictKind.pass) ↔ (
        (run_err ≡ none)
        × (enc.expected_output_hex ≢ [])
        × (take (length enc.expected_output_hex) (normalise_hex r.output_hex)
            ≡ enc.expected_output_hex))
unfolding verify_eest
verify_eest_pass_iff enc r none =
    let (to, from) = judged_pass_iff enc r in
    (λ h. (refl, (to h).0, (to h).1), λ (e, there, starts). from (there, starts))
verify_eest_pass_iff enc r (some e) = ground arith

-- A unit of the corpus passes exactly if the run returned no error and the guest reported no
-- execution error just where the fixture expects success.
pub verify_corpus_pass_iff :
    (enc : Encoded) (r : Emu.Result) (run_err : Option Error)
    → ((verify_corpus enc r run_err).kind ≡ VerdictKind.pass)
      ↔ ((run_err ≡ none) × (text_eq r.exec_err [] ≡ enc.expected_success))
unfolding verify_corpus
verify_corpus_pass_iff enc r none = ground arith
verify_corpus_pass_iff enc r (some e) = ground arith
