-- ===== src/Bench/Report/Suites.antt =====
-- The suites in the report of bench/main.go: their medians, and the index of each unit's suite.
use stateless_executor.Prelude.{◌≡◌, ap, List, map}
use stateless_executor.Prelude.Text.{Text}
use stateless_executor.Prelude.Sort.Orders.{sort-text_lt-perm}
use stateless_executor.Bench.Run.{BlockResult}
use stateless_executor.Bench.Rows.{compute_stats}
use stateless_executor.Bench.Report.{suite_medians, suite_costs}
use mathlib.Core.List.{Permᴰ}

-- The order in which Go visits the map of suites does not show in the medians.
pub suite_medians-perm :
    {visited visited' : List Text} (good : List BlockResult)
    → Permᴰ visited visited'
    → suite_medians visited good ≡ suite_medians visited' good
unfolding suite_medians
suite_medians-perm good p =
    ap
      (λ (names : List Text).
        (names, map (λ (s : Text). (compute_stats (suite_costs s good)).p50) names))
      (sort-text_lt-perm p)
