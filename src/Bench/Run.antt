-- ===== src/Bench/Run.antt =====
-- bench/run.go: one unit run and judged, and all files run by workers that finish in any order. The
-- emulator and the clock are arguments.
pub mod Schedule
pub mod Counters
use stateless_executor.Prelude.{
  ℕ, zero, suc, ◌+◌, ◌-◌, Bool, true, false, not, ◌&&◌, List, [], ◌∷◌, ◌++◌, Option, none, some,
  if◌then◌else◌, ◌==◌, length, foldl, set, get_or, replicate,
}
use stateless_executor.Prelude.Errors.{Error, Result, ok, err, panic, ◌>>=◌}
use stateless_executor.Prelude.Text.{Text, codes, text_eq}
use stateless_executor.Prelude.Endian.{Bytes}
use stateless_executor.Fixture.Format.{Format}
use stateless_executor.Emu
use stateless_executor.Emu.{CostReport, no_costs, empty_result}
use stateless_executor.Bench.{BlockInfo, Verdict, VerdictKind}
use stateless_executor.Bench.Work.{FileJob, WorkUnit, EncodedUnit, Encoding, no_info}

-- `BlockResult` of bench/main.go.
pub record BlockResult : Type 0 where
  pub block_num : ℕ
  pub name : Text
  pub label : Text
  pub suite : Text
  pub network : Text
  pub kind : Format
  pub verdict : Verdict
  pub target : Text
  pub costs : CostReport
  pub error : Option Error
  pub err_output : Text
  pub exec_error : Text
  pub elapsed_ms : ℕ
  pub expected_success : Bool
  pub validation_ok : Bool
  pub info : BlockInfo
  pub output_hex : Text

abbrev pub EmuRunner : Type 0
EmuRunner = Bytes → Emu.Result × Option Error

-- Kind == verdictPass
unfoldable pub passes : VerdictKind → Bool
passes VerdictKind.pass = true
passes _ = false

abbrev pub is_error : VerdictKind → Bool
is_error VerdictKind.error = true
is_error _ = false

-- enc.Info != (blockInfo{})
abbrev pub is_no_info : BlockInfo → Bool
is_no_info i =
    (i.tx_count == 0)
    && ((i.gas_used == 0)
        && ((i.legacy_txs == 0)
            && ((i.eip1559_txs == 0)
                && ((i.eip2930_txs == 0) && ((i.eip4844_txs == 0) && (i.eip7702_txs == 0))))))

-- The run is skipped where the encoder returned an error, which then stands for the run's.
abbrev pub emulated : EmuRunner → EncodedUnit → Option Error → Emu.Result × Option Error
emulated run enc none = run enc.input
emulated run enc (some e) = (empty_result [], some e)

-- An errored run keeps its error and its output, any other its costs and its exec error.
abbrev pub judged_result : BlockResult → VerdictKind → Emu.Result → Option Error → BlockResult
judged_result res VerdictKind.error r run_err = record res {
  error = run_err;
  err_output = r.raw_out;
}
judged_result res _ r run_err = record res { costs = r.costs; exec_error = r.exec_err }

abbrev pub unit_result : WorkUnit → EmuRunner → Text → ℕ → Encoding → BlockResult
unit_result u run target elapsed (enc, enc_err) =
    let (r, run_err) = emulated run enc enc_err in
    let v = u.verify enc.expected r run_err in
    let res : BlockResult = record {
      block_num = u.meta.block_num;
      name = u.meta.label;
      label = u.meta.label;
      suite = u.meta.suite;
      network = u.meta.network;
      kind = u.meta.kind;
      verdict = v;
      target = target;
      costs = no_costs;
      error = none;
      err_output = [];
      exec_error = [];
      elapsed_ms = elapsed;
      expected_success = v.expected_success;
      validation_ok = passes v.kind;
      info = if is_no_info enc.info then u.meta.info else enc.info;
      output_hex = r.output_hex;
    } in
    judged_result res v.kind r run_err

-- `runUnit`, from its start to its result; printing it is left out.
unfoldable pub run_unit : WorkUnit → EmuRunner → Text → ℕ → Result BlockResult
unfolding passes
run_unit u run target elapsed = u.encode >>= λ e. ok (unit_result u run target elapsed e)

unfoldable pub run_units : List WorkUnit → EmuRunner → Text → (Text → ℕ) → Result (List BlockResult)
unfolding run_unit
run_units [] run target clock = ok []
run_units (u ∷ us) run target clock = do
  res ← run_unit u run target (clock u.meta.label)
  rest ← run_units us run target clock
  ok (res ∷ rest)

-- A file that does not expand leaves no results.
abbrev pub file_results :
    Result (List WorkUnit) → EmuRunner → Text → (Text → ℕ) → Result (List BlockResult)
file_results (ok units) run target clock = run_units units run target clock
file_results (err e) run target clock = ok []
file_results panic run target clock = panic

-- perFile[idx] = out, for the worker that finishes.
unfoldable pub finish :
    (ℕ → Result (List BlockResult))
    → List (Result (List BlockResult))
    → ℕ
    → List (Result (List BlockResult))
finish work per_file idx = set per_file idx (work idx)

unfoldable pub joined : List (Result (List BlockResult)) → Result (List BlockResult)
joined [] = ok []
joined (rs ∷ per_file) = do out ← rs; rest ← joined per_file; ok (out ++ rest)

-- `runAll`, where `schedule` lists the indices of the files in the order in which their workers
-- finish, and `work` gives what the worker of an index computes.
abbrev pub scheduled : (ℕ → Result (List BlockResult)) → ℕ → List ℕ → Result (List BlockResult)
scheduled work n schedule = joined (foldl (finish work) (replicate n (ok [])) schedule)

unfoldable pub run_all :
    (FileJob → Result (List WorkUnit))
    → List FileJob
    → EmuRunner
    → Text
    → (Text → ℕ)
    → List ℕ
    → Result (List BlockResult)
unfolding run_units finish joined
run_all expand jobs run target clock schedule =
    let no_job : FileJob = record { path = []; kind = Format.unknown; suite = []; bytes = 0 } in
    scheduled (λ i. file_results (expand (get_or jobs i no_job)) run target clock) (length jobs)
      schedule

-- `progress`: the counters done and total. A file adds its units less one to the total and then one
-- to done for each of them; a file that does not expand adds one to done.
pub record Progress : Type 0 where
  pub done : ℕ
  pub total : ℕ

unfoldable pub add_units : Progress → ℕ → Progress
add_units p n = record p { total = p.total + n - 1 }

unfoldable pub add_done : Progress → Progress
add_done p = record p { done = p.done + 1 }

-- One step of one of the workers.
pub data Tick : Type 0 where
  skipped_file : Tick
  expanded : ℕ → Tick
  printed : Tick

unfoldable pub tick : Progress → Tick → Progress
unfolding add_units add_done
tick p Tick.skipped_file = add_done p
tick p (Tick.expanded n) = add_units p n
tick p Tick.printed = add_done p

abbrev pub started : ℕ → Progress
started files = record { done = 0; total = files }
