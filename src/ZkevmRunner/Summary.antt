-- ===== src/ZkevmRunner/Summary.antt =====
-- The counts that cmd/zkevm-runner/main.go prints and reports.
use stateless_executor.Prelude.{ℕ, ◌+◌, ◌≡◌, ◌∙◌, refl, ap, ap₂, sym, List, [], ◌∷◌, length, arith}
use stateless_executor.Prelude.Sort.{length-perm, sort-perm}
use stateless_executor.Prelude.Sort.Orders.{text_lt}
use stateless_executor.ZkevmRunner.{
  TestResult, Status, status_of, Summed, summed, sum_up, print_summary, Tables, filed, file_all,
  write_report, FailureRow, ErrorRow, by_name,
}
use mathlib.Core.List.{Permᴰ}

-- How many of the results are passed, failed, errored and skipped.
abbrev Totals : Type 0
Totals = ℕ × ℕ × ℕ × ℕ

abbrev totals : Summed → Totals
totals s = (s.passed, s.failed, s.errored, s.skipped)

-- One more result of a status.
abbrev more : Status → Totals → Totals
more Status.fine (p, f, e, s) = (p + 1, f, e, s)
more Status.failed (p, f, e, s) = (p, f + 1, e, s)
more Status.errored (p, f, e, s) = (p, f, e + 1, s)
more Status.skipped (p, f, e, s) = (p, f, e, s + 1)

totals-summed :
    (k : Status) (r : TestResult) (s : Summed) → totals (summed k r s) ≡ more k (totals s)
totals-summed Status.fine r s = refl
totals-summed Status.failed r s = refl
totals-summed Status.errored r s = refl
totals-summed Status.skipped r s = refl

more_comm : (k l : Status) (t : Totals) → more k (more l t) ≡ more l (more k t)
more_comm k l t = ground arith

-- The totals of the statuses.
tally : List TestResult → Totals
tally [] = (0, 0, 0, 0)
tally (r ∷ rs) = more (status_of r) (tally rs)

-- The counts do not depend on the order of the results.
tally-perm : {xs ys : List TestResult} → Permᴰ xs ys → tally xs ≡ tally ys
unfolding tally
tally-perm Permᴰ.nil = refl
tally-perm (Permᴰ.cons e p) = ap₂ more (ap status_of e) (tally-perm p)
tally-perm (Permᴰ.swap {a} {b} {a'} {b'} {l} e e') =
    more_comm (status_of a) (status_of b) (tally l)
    ∙ ap₂ (λ (k k' : Status). more k (more k' (tally l))) (ap status_of e') (ap status_of e)
tally-perm (Permᴰ.trans p q) = tally-perm p ∙ tally-perm q

sum_up-tally : (rs : List TestResult) → totals (sum_up rs) ≡ tally rs
unfolding sum_up tally
sum_up-tally [] = refl
sum_up-tally (r ∷ rs) =
    totals-summed (status_of r) r (sum_up rs) ∙ ap (more (status_of r)) (sum_up-tally rs)

-- The rows of the tables, and the counters beside them.
abbrev filed_totals : Tables → Totals
filed_totals t = (t.passed, length t.failures, length t.errors, length t.skips)

abbrev counter_totals : Tables → Totals
counter_totals t = (t.passed, length t.failures, t.errored, t.skipped)

filed-more :
    (k : Status) (r : TestResult) (t : Tables)
    → filed_totals (filed k r t) ≡ more k (filed_totals t)
filed-more k r t = ground arith

file_all-tally : (rs : List TestResult) → filed_totals (file_all rs) ≡ tally rs
unfolding file_all tally
file_all-tally [] = refl
file_all-tally (r ∷ rs) =
    filed-more (status_of r) r (file_all rs) ∙ ap (more (status_of r)) (file_all-tally rs)

counter-more :
    (k : Status) (r : TestResult) (t : Tables)
    → counter_totals (filed k r t) ≡ more k (counter_totals t)
counter-more k r t = ground arith

file_all-counters : (rs : List TestResult) → counter_totals (file_all rs) ≡ tally rs
unfolding file_all tally
file_all-counters [] = refl
file_all-counters (r ∷ rs) =
    counter-more (status_of r) r (file_all rs) ∙ ap (more (status_of r)) (file_all-counters rs)

abbrev sum_of : Totals → ℕ
sum_of (p, f, e, s) = p + f + e + s

sum_of-more : (k : Status) (t : Totals) → sum_of (more k t) ≡ sum_of t + 1
sum_of-more k t = ground arith

sum_of-tally : (rs : List TestResult) → sum_of (tally rs) ≡ length rs
unfolding tally
sum_of-tally [] = omega arith
sum_of-tally (r ∷ rs) = omega (arith, sum_of-more (status_of r) (tally rs), sum_of-tally rs)

-- The summary counts every result once, the report has the same total and the same four counts, and
-- the tables of the failed, errored and skipped results have as many rows as they count.
pub write_report-print_summary :
    (results : List TestResult)
    → ((print_summary results).passed
          + (print_summary results).failed
          + (print_summary results).errored
          + (print_summary results).skipped
        ≡ length results)
      × ((write_report results).total ≡ length results)
      × ((write_report results).passed ≡ (print_summary results).passed)
      × ((write_report results).failed ≡ (print_summary results).failed)
      × ((write_report results).errored ≡ (print_summary results).errored)
      × ((write_report results).skipped ≡ (print_summary results).skipped)
      × (length (write_report results).failures ≡ (print_summary results).failed)
      × (length (write_report results).errors ≡ (print_summary results).errored)
      × (length (write_report results).skips ≡ (print_summary results).skipped)
unfolding write_report print_summary
write_report-print_summary results =
    let sorted = by_name (λ (r : TestResult). r.name) results in
    let order = sort-perm (λ (a b : TestResult). text_lt a.name b.name) results in
    let printed : totals (sum_up sorted) ≡ tally results =
      sum_up-tally sorted ∙ sym (tally-perm order) in
    let t = file_all results in
    let filed' = file_all-tally results ∙ sym printed in
    let counted = file_all-counters results ∙ sym printed in
    let fails =
      length-perm
        (sort-perm (λ (a b : FailureRow). text_lt a.result.name b.result.name) t.failures) in
    let errors = length-perm (sort-perm (λ (a b : ErrorRow). text_lt a.name b.name) t.errors) in
    let skips = length-perm (sort-perm (λ (a b : ErrorRow). text_lt a.name b.name) t.skips) in
    (
      ap sum_of printed ∙ sum_of-tally results,
      refl,
      ap (λ (x : Totals). x.0) filed',
      ap (λ (x : Totals). x.1) counted,
      ap (λ (x : Totals). x.2) counted,
      ap (λ (x : Totals). x.3) counted,
      sym fails ∙ ap (λ (x : Totals). x.1) filed',
      sym errors ∙ ap (λ (x : Totals). x.2) filed',
      sym skips ∙ ap (λ (x : Totals). x.3) filed',
    )
