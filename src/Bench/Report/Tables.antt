-- ===== src/Bench/Report/Tables.antt =====
-- The tables of the report and of the printed summary of bench/main.go, against the verdicts.
use stateless_executor.Prelude.{◌+◌, ◌≡◌, ◌≢◌, ap, List, [], ◌∷◌, Option, none, some, length, arith}
use stateless_executor.Prelude.Errors.{Error}
use stateless_executor.Prelude.Text.{Text}
use stateless_executor.Prelude.Sort.{pick_all}
use stateless_executor.Bench.{VerdictKind}
use stateless_executor.Bench.Run.{BlockResult}
use stateless_executor.Bench.Rows.{no_tally, tally}
use stateless_executor.Bench.Rows.Tally.{of_verdict, of_measured, tally-counts}
use stateless_executor.Bench.Report.{print_summary, unit_cell, ErrorRow}
use mathlib.Core.List.{Permᴰ}
use mathlib.Core.List.Permᴰ

-- Exactly the results with the verdict error carry an error.
abbrev pub IsJudged : BlockResult → Type 0
IsJudged r =
    (r.verdict.kind ≡ VerdictKind.error → r.error ≢ none)
    × (r.verdict.kind ≢ VerdictKind.error → r.error ≡ none)

-- What the report shows of a result that carries an error.
abbrev pub shown_error : BlockResult → Option Error → Option ErrorRow
shown_error r none = none
shown_error r (some e) = some (record {
  block_num = r.block_num;
  name = r.name;
  cell = unit_cell r;
  error = e;
  output = r.err_output;
})

abbrev pub shown : BlockResult → Option ErrorRow
shown r = shown_error r r.error

measured-length :
    (rs : List BlockResult)
    → length (of_measured rs)
      ≡ length (of_verdict VerdictKind.pass rs)
        + length (of_verdict VerdictKind.fail rs)
        + length (of_verdict VerdictKind.unverified rs)
unfolding pick_all
measured-length [] = omega arith
measured-length (r ∷ rs) = let h = measured-length rs in ground arith

-- What is printed as validated are the units that passed and those that are unverified.
pub print_summary-validated :
    (all : List BlockResult) (target : Text)
    → (print_summary
        (tally no_tally all).good
        (length all)
        (length (tally no_tally all).validation_failures)
        target).validated
      ≡ length (of_verdict VerdictKind.pass all) + length (of_verdict VerdictKind.unverified all)
unfolding print_summary
print_summary-validated all target =
    let (good, fails, _, _) = tally-counts all in
    let size = ap (λ (l : List BlockResult). length l) good in
    let size' = ap (λ (l : List BlockResult). length l) fails in
    omega (arith, size, size', measured-length all)
