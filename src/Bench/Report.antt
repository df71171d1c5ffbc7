-- ===== src/Bench/Report.antt =====
-- bench/main.go: what is printed and reported of a run. Each table is the list of its rows; the HTML
-- that shows them is a template.
pub mod Tables
pub mod Suites
use stateless_executor.Prelude.{
  ℕ, zero, suc, ◌+◌, ◌-◌, Bool, true, false, not, ◌&&◌, ◌||◌, List, [], ◌∷◌, ◌++◌, Option, none,
  some, map, if◌then◌else◌, ltb, ◌==◌, length,
}
use stateless_executor.Prelude.Errors.{Error}
use stateless_executor.Prelude.Text.{Text, codes, text_eq}
use stateless_executor.Prelude.Sort.{sort}
use stateless_executor.Prelude.Sort.Orders.{text_lt}
use stateless_executor.Fixture.Format.{Format}
use stateless_executor.Emu.{CostReport}
use stateless_executor.Pipeline.Engine.{format_uint}
use stateless_executor.Bench.{Reason, VerdictKind}
use stateless_executor.Bench.Run.{BlockResult}
use stateless_executor.Bench.Rows.{
  is_zkevm, CostStats, compute_stats, partition_by_gas, decode_stateless_output, StatelessOutput,
  suite_chart_height,
}

pub record StatRow : Type 0 where
  pub label : Text
  pub stats : CostStats

abbrev pub costs_of : (CostReport → ℕ) → List BlockResult → List ℕ
costs_of fn good = map (λ (r : BlockResult). fn r.costs) good

abbrev pub stat_row : Text → (CostReport → ℕ) → List BlockResult → StatRow
stat_row label fn good = record { label = label; stats = compute_stats (costs_of fn good) }

-- The rows of the statistics, by target.
unfoldable pub stat_rows : Text → List BlockResult → List StatRow
unfolding compute_stats
stat_rows target good =
    if text_eq target (codes "openvm")
    then stat_row (codes "INSTRUCTIONS") (λ c. c.instructions) good ∷ []
    else stat_row (codes "BASE") (λ c. c.base) good
      ∷ stat_row (codes "MAIN") (λ c. c.main) good
      ∷ stat_row (codes "OPCODES") (λ c. c.opcodes) good
      ∷ stat_row (codes "PRECOMPILES") (λ c. c.precompiles) good
      ∷ stat_row (codes "MEMORY") (λ c. c.memory) good
      ∷ stat_row (codes "TOTAL") (λ c. c.total) good
      ∷ []

-- What printSummary prints: the counts of its headline, and its tables.
pub record Summary : Type 0 where
  pub measured : ℕ
  pub total : ℕ
  pub validated : ℕ
  pub rows : List StatRow
  pub zero_gas : Option CostStats

-- The table of the units without gas is printed for zisk only, and only if there are some.
abbrev pub zero_gas_stats : Text → List BlockResult → Option CostStats
zero_gas_stats target [] = none
zero_gas_stats target (r ∷ rs) =
    if text_eq target (codes "openvm")
    then none
    else some (compute_stats (costs_of (λ c. c.total) (r ∷ rs)))

unfoldable pub print_summary : List BlockResult → ℕ → ℕ → Text → Summary
unfolding partition_by_gas stat_rows
print_summary good total validation_failures target =
    let (worked, empty) = partition_by_gas good in
    record {
      measured = length good;
      total = total;
      validated = length good - validation_failures;
      rows = stat_rows target (elim empty [ [] ↦ good | (r ∷ rs) ↦ worked ]);
      zero_gas = zero_gas_stats target empty;
    }

unfoldable pub unit_cell : BlockResult → Text
unfolding format_uint
unit_cell r = if is_zkevm r.kind then r.label else format_uint r.block_num 10

pub record ExecFailedRow : Type 0 where
  pub block_num : ℕ
  pub name : Text
  pub cell : Text
  pub reason : Text

pub record ValidationFailRow : Type 0 where
  pub block_num : ℕ
  pub name : Text
  pub cell : Text
  pub expected_success : Bool
  pub exec_error : Text
  pub reason : Reason

pub record ErrorRow : Type 0 where
  pub block_num : ℕ
  pub name : Text
  pub cell : Text
  pub error : Error
  pub output : Text

-- For a unit that is skipped, and for one that is unverified.
pub record SkipRow : Type 0 where
  pub cell : Text
  pub suite : Text
  pub network : Text
  pub reason : Reason

abbrev pub no_error : BlockResult → Bool
no_error r = elim r.error [ none ↦ true | some e ↦ false ]

abbrev pub is_fail : VerdictKind → Bool
is_fail VerdictKind.fail = true
is_fail _ = false

-- The loops of writeReport that fill the tables, each before its sort.
unfoldable pub exec_failed_rows : List BlockResult → List ExecFailedRow
unfolding unit_cell
exec_failed_rows [] = []
exec_failed_rows (r ∷ rs) =
    let rest = exec_failed_rows rs in
    if no_error r && (not (text_eq r.exec_error []) && r.validation_ok)
    then record {
      block_num = r.block_num;
      name = r.name;
      cell = unit_cell r;
      reason = r.exec_error;
    }
      ∷ rest
    else rest

abbrev pub fail_row : BlockResult → ValidationFailRow
fail_row r = record {
  block_num = r.block_num;
  name = r.name;
  cell = unit_cell r;
  expected_success = r.expected_success;
  exec_error = r.exec_error;
  reason = r.verdict.reason;
}

unfoldable pub validation_fail_rows : List BlockResult → List ValidationFailRow
unfolding unit_cell
validation_fail_rows [] = []
validation_fail_rows (r ∷ rs) =
    let rest = validation_fail_rows rs in
    if no_error r && is_fail r.verdict.kind then fail_row r ∷ rest else rest

abbrev pub error_row : BlockResult → Option Error → List ErrorRow → List ErrorRow
error_row r none rest = rest
error_row r (some e) rest =
    record {
      block_num = r.block_num;
      name = r.name;
      cell = unit_cell r;
      error = e;
      output = r.err_output;
    }
    ∷ rest

unfoldable pub error_rows : List BlockResult → List ErrorRow
unfolding unit_cell
error_rows [] = []
error_rows (r ∷ rs) = error_row r r.error (error_rows rs)

abbrev pub skip_row : BlockResult → SkipRow
skip_row r = record {
  cell = unit_cell r;
  suite = r.suite;
  network = r.network;
  reason = r.verdict.reason;
}

abbrev pub skip_if : BlockResult → VerdictKind → List SkipRow → List SkipRow
skip_if r VerdictKind.skip rest = skip_row r ∷ rest
skip_if r _ rest = rest

abbrev pub unverified_if : BlockResult → VerdictKind → List SkipRow → List SkipRow
unverified_if r VerdictKind.unverified rest = skip_row r ∷ rest
unverified_if r _ rest = rest

unfoldable pub skip_rows : List BlockResult → List SkipRow
unfolding unit_cell
skip_rows [] = []
skip_rows (r ∷ rs) = skip_if r r.verdict.kind (skip_rows rs)

unfoldable pub unverified_rows : List BlockResult → List SkipRow
unfolding unit_cell
unverified_rows [] = []
unverified_rows (r ∷ rs) = unverified_if r r.verdict.kind (unverified_rows rs)

-- A row of the raw data: the result, and what is decoded of its output.
pub record RawBlockRow : Type 0 where
  pub cell : Text
  pub result : BlockResult
  pub output : StatelessOutput

unfoldable pub raw_block_row : BlockResult → RawBlockRow
unfolding unit_cell decode_stateless_output
raw_block_row r = record {
  cell = unit_cell r;
  result = r;
  output = decode_stateless_output r.output_hex;
}

unfoldable pub any_zkevm : List BlockResult → Bool
any_zkevm [] = false
any_zkevm (r ∷ rs) = let rest = any_zkevm rs in if is_zkevm r.kind then true else rest

-- bySuite[suite], in the order of the loop.
unfoldable pub suite_costs : Text → List BlockResult → List ℕ
suite_costs suite [] = []
suite_costs suite (r ∷ rs) =
    let rest = suite_costs suite rs in if text_eq r.suite suite then r.costs.total ∷ rest else rest

-- `suiteMedians`, where `visited` lists the keys of bySuite as the range loop visits them.
unfoldable pub suite_medians : List Text → List BlockResult → List Text × List ℕ
unfolding sort suite_costs compute_stats
suite_medians visited good =
    let names = sort text_lt visited in
    (names, map (λ (s : Text). (compute_stats (suite_costs s good)).p50) names)

-- suiteIdx[suite] for names numbered from i on, 0 for a suite that is not in the map.
unfoldable pub index_from : ℕ → Text → List Text → ℕ
index_from i suite [] = 0
index_from i suite (n ∷ names) =
    let rest = index_from (i + 1) suite names in if text_eq n suite then i else rest

abbrev pub max_chart_units : ℕ
max_chart_units = 1500

unfoldable pub empty_count : List BlockResult → ℕ
empty_count [] = 0
empty_count (r ∷ rs) = let rest = empty_count rs in if r.info.gas_used == 0 then rest + 1 else rest

-- The data of the report, without the labels and the JSON text of the charts.
pub record ReportData : Type 0 where
  pub total : ℕ
  pub good : ℕ
  pub failed : ℕ
  pub validation_failed : ℕ
  pub skipped : ℕ
  pub unverified : ℕ
  pub is_eest : Bool
  pub unit_column : Text
  pub scaled : Bool
  pub rank_costs : List ℕ
  pub suite_labels : List Text
  pub suite_medians : List ℕ
  pub chart_height : ℕ
  pub has_empty_units : Bool
  pub empty_count : ℕ
  pub gas_per_unit : List ℕ
  pub unit_suite_idx : List ℕ
  pub rows : List StatRow
  pub exec_failed : List ExecFailedRow
  pub validation_fails : List ValidationFailRow
  pub errors : List ErrorRow
  pub skips : List SkipRow
  pub unverifieds : List SkipRow
  pub raw_blocks : List RawBlockRow

-- sort.SliceStable by the first column.
abbrev pub by_cell {ℓ} : {A : Type ℓ} → (A → Text) → List A → List A
by_cell cell rows = sort (λ a b. text_lt (cell a) (cell b)) rows

unfoldable pub write_report : List Text → List BlockResult → List BlockResult → Text → ReportData
unfolding exec_failed_rows validation_fail_rows error_rows skip_rows unverified_rows raw_block_row
    any_zkevm suite_medians index_from empty_count stat_rows suite_chart_height sort
write_report visited good all target =
    let is_eest = any_zkevm all in
    let scaled = ltb max_chart_units (length good) in
    let (suite_names, medians) = suite_medians visited good in
    let empties = empty_count good in
    record {
      total = length all;
      good = length good;
      failed = length (exec_failed_rows all);
      validation_failed = length (validation_fail_rows all);
      skipped = length (skip_rows all);
      unverified = length (unverified_rows all);
      is_eest = is_eest;
      unit_column = if is_eest then codes "Test" else codes "Block";
      scaled = scaled;
      rank_costs = if scaled then sort ltb (costs_of (λ c. c.total) good) else [];
      suite_labels = suite_names;
      suite_medians = if scaled then medians else [];
      chart_height = suite_chart_height (length suite_names);
      has_empty_units = ltb 0 empties;
      empty_count = empties;
      gas_per_unit = map (λ (r : BlockResult). r.info.gas_used) good;
      unit_suite_idx = map (λ (r : BlockResult). index_from 0 r.suite suite_names) good;
      rows = stat_rows target good;
      exec_failed = by_cell (λ (r : ExecFailedRow). r.cell) (exec_failed_rows all);
      validation_fails = by_cell (λ (r : ValidationFailRow). r.cell) (validation_fail_rows all);
      errors = by_cell (λ (r : ErrorRow). r.cell) (error_rows all);
      skips = by_cell (λ (r : SkipRow). r.cell) (skip_rows all);
      unverifieds = by_cell (λ (r : SkipRow). r.cell) (unverified_rows all);
      raw_blocks = map raw_block_row good;
    }
