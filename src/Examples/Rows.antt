-- ===== src/Examples/Rows.antt =====
-- The benchmark, the runner of the zkevm tests and the loading of a test file at a few values.
use stateless_executor.Prelude.{
  ℕ, zero, suc, ◌+◌, ◌≡◌, ◌≢◌, ◌↔◌, inl, inr, ◌≤◌, ◌<◌, ◌^◌, refl, List, [], ◌∷◌, ◌++◌, Option,
  none, true, false, arith, length, replicate, All, foldl,
}
use stateless_executor.Prelude.Errors.{Result, ok, err, message}
use stateless_executor.Prelude.Text.{Text, codes}
use stateless_executor.Prelude.Sort.{IsSorted, insert, sort, pick_all}
use stateless_executor.Prelude.Sort.Orders.{text_lt}
use stateless_executor.Fixture.Format.{Format}
use stateless_executor.Fixture.Load.{RawMap, Disk, load_cases, load_zkevm_map}
use stateless_executor.Fixture.Load.Order.{names, load_zkevm_map-perm}
use stateless_executor.Fixture.Zkevm.{ZkevmTestCase}
use stateless_executor.Emu.{no_costs, encode_to_string, empty_result}
use stateless_executor.Bench.{Verdict, VerdictKind, Reason, verify_eest, normalise_hex, to_lower}
use stateless_executor.Bench.Work.{FileJob, WorkUnit, case_units, no_info}
use stateless_executor.Bench.Run.{
  BlockResult, EmuRunner, run_all, file_results, Tick, tick, started,
}
use stateless_executor.Bench.Run.Schedule.{Among, one_after_other, run_all-in_order}
use stateless_executor.Bench.Run.Counters.{
  Pending, Steps, stop, next, grow, print, skip, ticks-bounded,
}
use stateless_executor.Bench.Rows.{
  SliceStable, sort_results, decode_stateless_output, compute_stats, sum, no_tally, tally,
  partition_by_gas,
}
use stateless_executor.Bench.Rows.Order.{
  by_label, insertion-IsStable, sort_results-IsSorted, is_row, pick_all-sort_results,
}
use stateless_executor.Bench.Rows.Output.{output_region, decode_stateless_output-region}
use stateless_executor.Bench.Rows.Stats.{compute_stats-bounds}
use stateless_executor.Bench.Rows.Tally.{
  of_verdict, of_measured, tally-counts, partition_by_gas-perm,
}
use stateless_executor.Bench.Report.{ReportData, write_report}
use stateless_executor.Bench.Discover.{Entries, file, dir, unreadable, done, more, discover_dir}
use stateless_executor.Bench.Discover.Accounts.{
  seen_all, found_seen, IsKnown, discover_dir-accounts,
}
use stateless_executor.ZkevmRunner
use stateless_executor.ZkevmRunner.{WorkItem, TestResult, Ran, work_items, judge, print_summary}
use stateless_executor.ZkevmRunner.Agree.{
  item_names, unit_labels, work_items-case_units, encoded_of, emulated_of, IsAccepted,
  judge-verify_eest,
}
use stateless_executor.ZkevmRunner.Summary.{write_report-print_summary}
use stateless_executor.Examples.Blocks.{zkevm_block, test_case}
use mathlib.Core.List.{Permᴰ}

abbrev job : Text → FileJob
job path = record { path = path; kind = Format.corpus; suite = codes "."; bytes = 1 }

abbrev runner : EmuRunner
runner input = (empty_result [], none)

abbrev no_units : FileJob → Result (List WorkUnit)
no_units j = ok []

covers : (i : ℕ) → i < 2 → Among i (1 ∷ 0 ∷ [])
covers zero h = inr (inl refl)
covers (suc zero) h = inl refl
covers (suc (suc i)) h = absurd (omega arith)

run_all-in_order_example :
    run_all no_units
      (job (codes "a") ∷ job (codes "b") ∷ [])
      runner
      (codes "zisk")
      (λ l. 0)
      (1 ∷ 0 ∷ [])
    ≡ one_after_other
        (λ j. file_results (no_units j) runner (codes "zisk") (λ l. 0))
        (job (codes "a") ∷ job (codes "b") ∷ [])
run_all-in_order_example =
    run_all-in_order no_units (job (codes "a") ∷ job (codes "b") ∷ []) runner (codes "zisk")
      (λ l. 0) (1 ∷ 0 ∷ []) covers

-- Of two files one gives two units, of which one is printed before the other file is skipped.
abbrev ticks : List Tick
ticks = Tick.expanded 2 ∷ Tick.printed ∷ Tick.skipped_file ∷ []

abbrev after : Pending
after = record { files = 0; units = 1 }

steps : Steps (record { files = 2; units = 0 }) ticks after
steps = next (grow 2) (next print (next skip stop))

ticks-bounded_example :
    ((foldl tick (started 2) ticks).done ≤ (foldl tick (started 2) ticks).total)
    × ((foldl tick (started 2) ticks).done + after.files + after.units
        ≡ (foldl tick (started 2) ticks).total)
ticks-bounded_example = ticks-bounded 2 steps

abbrev verdict : VerdictKind → Verdict
verdict k = record {
  kind = k;
  reason = Reason.no_reason;
  expected_success = true;
  got_success = true;
  expected_output_hex = [];
  got_output_hex = [];
  output_match = true;
}

abbrev result : Format → ℕ → VerdictKind → BlockResult
result kind n k = record {
  block_num = n;
  name = codes "x";
  label = codes "x";
  suite = codes ".";
  network = [];
  kind = kind;
  verdict = verdict k;
  target = codes "zisk";
  costs = no_costs;
  error = none;
  err_output = [];
  exec_error = [];
  elapsed_ms = 1;
  expected_success = true;
  validation_ok = true;
  info = no_info;
  output_hex = [];
}

abbrev results : List BlockResult
results =
    result Format.corpus 9 VerdictKind.pass
    ∷ result Format.corpus 3 VerdictKind.unverified
    ∷ result Format.zkevm 3 VerdictKind.skip
    ∷ []

abbrev measured : List BlockResult
measured = result Format.zkevm 9 VerdictKind.pass ∷ result Format.zkevm 3 VerdictKind.fail ∷ []

abbrev stable_sort : SliceStable
stable_sort less rs = sort less rs

sort_results-IsSorted_example :
    IsSorted by_label (sort_results stable_sort measured)
    × Permᴰ measured (sort_results stable_sort measured)
sort_results-IsSorted_example =
    sort_results-IsSorted stable_sort Format.zkevm measured insertion-IsStable (refl, (refl, tt))

pick_all-sort_results_example :
    pick_all (is_row (codes ".") (codes "x") 3) (sort_results stable_sort measured)
    ≡ pick_all (is_row (codes ".") (codes "x") 3) measured
pick_all-sort_results_example =
    pick_all-sort_results stable_sort Format.zkevm (codes ".") (codes "x") 3 measured
      insertion-IsStable (refl, (refl, tt))

tally-counts_example :
    ((tally no_tally results).good ≡ of_measured results)
    × ((tally no_tally results).validation_failures ≡ of_verdict VerdictKind.fail results)
    × ((tally no_tally results).skipped_units ≡ length (of_verdict VerdictKind.skip results))
    × ((tally no_tally results).unverified ≡ length (of_verdict VerdictKind.unverified results))
tally-counts_example = tally-counts results

-- A unit that used no gas and one that did.
abbrev costly : List BlockResult
costly =
    result Format.zkevm 3 VerdictKind.pass
    ∷ record (result Format.zkevm 9 VerdictKind.pass) { info = record no_info { gas_used = 5 } }
    ∷ []

partition_by_gas-perm_example :
    Permᴰ costly ((partition_by_gas costly).0 ++ (partition_by_gas costly).1)
    × All (λ (r : BlockResult). r.info.gas_used ≢ 0) (partition_by_gas costly).0
    × All (λ (r : BlockResult). r.info.gas_used ≡ 0) (partition_by_gas costly).1
partition_by_gas-perm_example = partition_by_gas-perm costly

abbrev report : ReportData
report = write_report (codes "." ∷ []) (tally no_tally results).good results (codes "zisk")

decode_stateless_output-region_example :
    decode_stateless_output (encode_to_string (output_region (replicate 32 7) 1 5 5377)) ≡ record {
      payload_root = encode_to_string (replicate 32 7);
      success = true;
      chain_id = 5;
      schema_id = 5377;
      decoded = true;
    }
decode_stateless_output-region_example =
    decode_stateless_output-region (replicate 32 7) 1 5 5377 refl (omega arith) (omega arith)
      (omega arith) (omega arith)

abbrev vals : List ℕ
vals = 3 ∷ 1 ∷ 2 ∷ []

some_vals : vals ≢ []
some_vals e = cc

small_vals : sum vals < 2 ^ 64
unfolding sum
small_vals = omega arith

compute_stats-bounds_example :
    All (λ v. ((compute_stats vals).min_cost ≤ v) × (v ≤ (compute_stats vals).max_cost)) vals
    × ((compute_stats vals).min_cost ≤ (compute_stats vals).p50)
    × ((compute_stats vals).p50 ≤ (compute_stats vals).max_cost)
    × ((compute_stats vals).min_cost ≤ (compute_stats vals).avg)
    × ((compute_stats vals).avg ≤ (compute_stats vals).max_cost)
compute_stats-bounds_example = compute_stats-bounds vals some_vals small_vals

-- A fixture, a hidden directory and a file that cannot be read.
abbrev tree : Entries
tree = more (file (codes "b.json") (codes "/f/b.json") (ok Format.zkevm) 7) (
    more (dir (codes ".git") (codes "/f/.git") none done)
      (more (unreadable (codes "/f/c") (message "denied" [])) done))

abbrev relative : Text → Option Text
relative path = none

discover_dir-accounts_example :
    Permᴰ (seen_all tree) (found_seen (discover_dir relative (codes "/f") none tree))
    × IsSorted
        (λ (a b : FileJob). text_lt a.path b.path)
        (discover_dir relative (codes "/f") none tree).jobs
    × All IsKnown (discover_dir relative (codes "/f") none tree).jobs
discover_dir-accounts_example = discover_dir-accounts relative (codes "/f") tree

abbrev item : WorkItem
item = record { test_case = test_case; block = zkevm_block; name = codes "t"; network = [] }

abbrev ran : Ran
ran = record { got_success = true; output_hex = codes "00ff"; raw_out = []; error = none }

lower : normalise_hex ran.output_hex ≡ ran.output_hex
unfolding normalise_hex to_lower
lower = refl

judge-verify_eest_example :
    ((judge false item ran 1).validation_ok ≡ true)
    ↔ IsAccepted (verify_eest (encoded_of item.block) (emulated_of ran) ran.error).kind
judge-verify_eest_example = judge-verify_eest item ran 1 lower

work_items-case_units_example :
    item_names (work_items (test_case ∷ []))
    ≡ unit_labels (case_units (job (codes "a")) (test_case ∷ []))
work_items-case_units_example = work_items-case_units (job (codes "a")) (test_case ∷ [])

abbrev judged : List TestResult
judged = judge false item ran 1 ∷ []

write_report-print_summary_example :
    ((print_summary judged).passed
        + (print_summary judged).failed
        + (print_summary judged).errored
        + (print_summary judged).skipped
      ≡ 1)
    × ((ZkevmRunner.write_report judged).total ≡ 1)
    × ((ZkevmRunner.write_report judged).passed ≡ (print_summary judged).passed)
    × ((ZkevmRunner.write_report judged).failed ≡ (print_summary judged).failed)
    × ((ZkevmRunner.write_report judged).errored ≡ (print_summary judged).errored)
    × ((ZkevmRunner.write_report judged).skipped ≡ (print_summary judged).skipped)
    × (length (ZkevmRunner.write_report judged).failures ≡ (print_summary judged).failed)
    × (length (ZkevmRunner.write_report judged).errors ≡ (print_summary judged).errored)
    × (length (ZkevmRunner.write_report judged).skips ≡ (print_summary judged).skipped)
write_report-print_summary_example = write_report-print_summary judged

abbrev disk : Disk
disk = record {
  read_file = λ path. err (message "" []);
  unmarshal_fixture = λ bs. err (message "" []);
  unmarshal_map = λ bs. err (message "" []);
  unmarshal_case = λ bs. ok test_case;
  unmarshal_engine = λ bs. ok [];
}

abbrev cases : RawMap
cases = record { keys = codes "b" ∷ codes "a" ∷ []; at = λ name. [] }

loaded :
    load_zkevm_map disk cases
    ≡ ok (record test_case { name = codes "a" } ∷ record test_case { name = codes "b" } ∷ [])
unfolding load_zkevm_map load_cases sort insert
loaded = refl

abbrev loaded_cases : List ZkevmTestCase
loaded_cases = record test_case { name = codes "a" } ∷ record test_case { name = codes "b" } ∷ []

load_zkevm_map-perm_example :
    (load_zkevm_map disk (record cases { keys = codes "a" ∷ codes "b" ∷ [] }) ≡ ok loaded_cases)
    × (names loaded_cases ≡ sort text_lt (codes "a" ∷ codes "b" ∷ []))
    × IsSorted text_lt (names loaded_cases)
load_zkevm_map-perm_example =
    load_zkevm_map-perm disk cases (codes "a" ∷ codes "b" ∷ []) (Permᴰ.swap refl refl) loaded
