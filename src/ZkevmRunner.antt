-- ===== src/ZkevmRunner.antt =====
-- cmd/zkevm-runner/main.go: the blocks of the zkevm tests run one by one, judged by their output
-- bytes, summed up and reported. The emulators and the file system are arguments.
pub mod Summary
pub mod Agree
use stateless_executor.Prelude.{
  ℕ, zero, suc, ◌+◌, ◌-◌, ◌*◌, Bool, true, false, not, ◌&&◌, ◌||◌, List, [], ◌∷◌, ◌++◌, Option,
  none, some, map, take, drop, if◌then◌else◌, ltb, leb, ◌==◌, length,
}
use stateless_executor.Prelude.Errors.{Error, Result, ok, err, panic, wrap, message}
use stateless_executor.Prelude.Text.{
  Text, codes, text_eq, has_prefix, contains, split_byte, trim_space,
}
use stateless_executor.Prelude.Endian.{Bytes}
use stateless_executor.Prelude.Sort.{sort}
use stateless_executor.Prelude.Sort.Orders.{text_lt}
use stateless_executor.Fixture.Zkevm.{ZkevmBlock, ZkevmTestCase, zesu_input_from_zkevm_block}
use stateless_executor.Emu
use stateless_executor.Emu.{Opts, Finished}
use stateless_executor.Pipeline.Engine.{format_uint}
use stateless_executor.Bench.{normalise_hex, expected_success_from_output, trimmed, is_missing}

pub record TestResult : Type 0 where
  pub name : Text
  pub network : Text
  pub expected_success : Bool
  pub got_success : Bool
  pub expected_output_hex : Text
  pub got_output_hex : Text
  pub output_match : Bool
  pub validation_ok : Bool
  pub error : Option Error
  pub err_output : Text
  pub elapsed_ms : ℕ

pub record WorkItem : Type 0 where
  pub test_case : ZkevmTestCase
  pub block : ZkevmBlock
  pub name : Text
  pub network : Text

-- The loops of `main` over the test cases of one file and their blocks.
unfoldable pub block_items : ZkevmTestCase → ℕ → List ZkevmBlock → List WorkItem
unfolding format_uint
block_items tc bi [] = []
block_items tc bi (block ∷ blocks) =
    let name =
      if ltb 1 (length tc.blocks)
      then tc.name ++ (codes "/block" ++ format_uint bi 10)
      else tc.name in
    record { test_case = tc; block = block; name = name; network = tc.network }
    ∷ block_items tc (bi + 1) blocks

unfoldable pub work_items : List ZkevmTestCase → List WorkItem
unfolding block_items
work_items [] = []
work_items (tc ∷ tcs) = block_items tc 0 tc.blocks ++ work_items tcs

pub data Target : Type 0 where
  zisk openvm pico : Target

-- The -target flag, and the emulator that stands for it where --zkvmPath is not given.
unfoldable pub target_of : Text → Option Target
target_of s =
    if text_eq s (codes "zisk")
    then some Target.zisk
    else if text_eq s (codes "openvm")
    then some Target.openvm
    else if text_eq s (codes "pico")
    then some Target.pico
    else none

unfoldable pub default_zkvm : Text → Target → Text
default_zkvm ziskemu_path Target.zisk = ziskemu_path
default_zkvm ziskemu_path Target.openvm = codes "zesu-openvm-runner"
default_zkvm ziskemu_path Target.pico = codes "zesu-pico-runner"

-- What an emulator's process leaves for an input, by target, and the error of reading its output.
pub record Emulators : Type 0 where
  pub finished : Target → Opts → Bytes → Finished
  pub read_error : Error

-- The four values that runOne returns.
pub record Ran : Type 0 where
  pub got_success : Bool
  pub output_hex : Text
  pub raw_out : Text
  pub error : Option Error

abbrev pub no_error : Option Error → Bool
no_error none = true
no_error (some e) = false

abbrev pub host_ran : Emu.Result × Option Error → Ran
host_ran (r, e) = record {
  got_success = no_error e && text_eq r.exec_err [];
  output_hex = r.output_hex;
  raw_out = r.raw_out;
  error = e;
}

-- The verdict that ziskemu's log states; none where the run failed.
abbrev pub zisk_ran : Emu.Result × Option Error → Ran
zisk_ran (r, e) = record {
  got_success =
      no_error e
      && (contains r.raw_out (codes "success=1") && not (contains r.raw_out (codes "success=0")));
  output_hex = r.output_hex;
  raw_out = r.raw_out;
  error = e;
}

abbrev pub run_input : Emulators → Target → Opts → Bytes → Ran
run_input es Target.zisk o input = zisk_ran (Emu.run o (es.finished Target.zisk o input))
run_input es Target.openvm o input =
    host_ran (Emu.run_host es.read_error (es.finished Target.openvm o input))
run_input es Target.pico o input =
    host_ran (Emu.run_host es.read_error (es.finished Target.pico o input))

abbrev pub not_run : Error → Ran
not_run e = record { got_success = false; output_hex = []; raw_out = []; error = some e }

-- RequireCosts stays false, and no step cap is set.
unfoldable pub run_one : Emulators → ZkevmTestCase → ZkevmBlock → Text → Text → Target → Result Ran
unfolding zesu_input_from_zkevm_block contains Emu.run Emu.run_host
run_one es tc block elf_path zkvm_path target =
    let o : Opts = record {
      elf = elf_path;
      bin = zkvm_path;
      max_steps = 0;
      require_costs = false;
    } in
    elim (zesu_input_from_zkevm_block tc block).0 [
      | ok input ↦ ok (run_input es target o input)
      | err e ↦ ok (not_run (wrap "encode" e))
      | panic ↦ panic
    ]

-- base[strings.LastIndexAny(base, "/\\")+1:]
unfoldable pub last_component : Text → Text
last_component [] = []
last_component (c ∷ s) =
    let rest = last_component s in
    if contains s (codes "/") || contains s (codes "\\")
    then rest
    else if (c == b'/') || (c == b'\\')
    then s
    else c ∷ s

-- The strings.Replacer of dumpOne.
unfoldable pub safe_name : Text → Text
safe_name [] = []
safe_name (c ∷ s) =
    let rest = safe_name s in
    if (c == b':') || ((c == b'[') || (c == b' '))
    then b'_' ∷ rest
    else if c == b']'
    then rest
    else c ∷ rest

-- The file name that `dumpOne` writes to.
unfoldable pub dump_name : ZkevmTestCase → ℕ → Text
unfolding last_component safe_name contains format_uint
dump_name tc idx =
    take 80 (safe_name (last_component tc.name))
    ++ (codes "_" ++ (format_uint idx 10 ++ codes ".bin"))

-- `dumpOne`, on a write of a file in the dump directory.
unfoldable pub dump_one :
    (Text → Bytes → Option Error) → ZkevmTestCase → ZkevmBlock → ℕ → Result Ran
unfolding zesu_input_from_zkevm_block dump_name
dump_one write_file tc block idx = elim (zesu_input_from_zkevm_block tc block).0 [
  | ok input ↦ ok (record {
    got_success = false;
    output_hex = [];
    raw_out = [];
    error = write_file (dump_name tc idx) input;
  })
  | err e ↦ ok (not_run (wrap "encode" e))
  | panic ↦ panic
]

abbrev pub is_skipped : Option Error → Bool
is_skipped none = false
is_skipped (some e) = is_missing e

-- The result that a worker stores for what it ran; `dumping` tells whether -dump-dir is set.
unfoldable pub judge : Bool → WorkItem → Ran → ℕ → TestResult
unfolding normalise_hex expected_success_from_output
judge dumping it ran elapsed =
    let expected_hex = normalise_hex it.block.stateless_output_bytes in
    let matched =
      text_eq expected_hex [] || text_eq (trimmed expected_hex ran.output_hex) expected_hex in
    record {
      name = it.name;
      network = it.network;
      expected_success = expected_success_from_output expected_hex;
      got_success = ran.got_success;
      expected_output_hex = expected_hex;
      got_output_hex = ran.output_hex;
      output_match = matched;
      validation_ok = dumping || (no_error ran.error && matched);
      error = ran.error;
      err_output = ran.raw_out;
      elapsed_ms = elapsed;
    }

-- The status of the progress line.
pub data Status : Type 0 where
  fine skipped errored failed : Status

unfoldable pub status_of : TestResult → Status
status_of r = if is_skipped r.error then Status.skipped else elim r.error [
  | some e ↦ Status.errored
  | none ↦ if r.validation_ok then Status.fine else Status.failed
]

-- strings.Join(lines, "\n")
unfoldable pub join_lines : List Text → Text
join_lines [] = []
join_lines (l ∷ []) = l
join_lines (l ∷ m ∷ ls) = l ++ (10 ∷ join_lines (m ∷ ls))

abbrev pub is_key_line : Text → Bool
is_key_line t =
    contains t (codes "input_len=")
    || (contains t (codes "block=")
        || (contains t (codes "root:")
            || (contains t (codes "output:") || text_eq t (codes "info: ok"))))

unfoldable pub key_lines : List Text → List Text
unfolding contains
key_lines [] = []
key_lines (l ∷ ls) =
    let t = trim_space l in let rest = key_lines ls in if is_key_line t then t ∷ rest else rest

unfoldable pub filter_uart_log : Text → Text
unfolding key_lines join_lines
filter_uart_log raw_out = join_lines (key_lines (split_byte 10 raw_out))

unfoldable pub truncate_name : Text → Text
truncate_name s =
    if leb (length s) (40 * 2 + 3) then s else take 40 s ++ (codes "..." ++ drop (length s - 40) s)

-- The counters of printSummary, with the failures in the order of their names.
pub record Summed : Type 0 where
  pub passed : ℕ
  pub failed : ℕ
  pub errored : ℕ
  pub skipped : ℕ
  pub failures : List TestResult

abbrev pub summed : Status → TestResult → Summed → Summed
summed Status.skipped r s = record s { skipped = s.skipped + 1 }
summed Status.errored r s = record s { errored = s.errored + 1 }
summed Status.fine r s = record s { passed = s.passed + 1 }
summed Status.failed r s = record s { failed = s.failed + 1; failures = r ∷ s.failures }

unfoldable pub sum_up : List TestResult → Summed
unfolding status_of
sum_up [] = record { passed = 0; failed = 0; errored = 0; skipped = 0; failures = [] }
sum_up (r ∷ rs) = summed (status_of r) r (sum_up rs)

-- sort.Slice by name. It is not stable: rows of one name may come in another order than here.
abbrev pub by_name {ℓ} : {A : Type ℓ} → (A → Text) → List A → List A
by_name name rs = sort (λ a b. text_lt (name a) (name b)) rs

unfoldable pub print_summary : List TestResult → Summed
unfolding sum_up sort
print_summary results = sum_up (by_name (λ (r : TestResult). r.name) results)

pub record FailureRow : Type 0 where
  pub result : TestResult
  pub err_line : Text

-- Both for an error and for a skip.
pub record ErrorRow : Type 0 where
  pub name : Text
  pub network : Text
  pub error : Option Error
  pub output : Text

-- The first line of the output that starts with "error:", without its margins.
unfoldable pub error_line : List Text → Text
error_line [] = []
error_line (l ∷ ls) =
    let rest = error_line ls in
    if has_prefix (trim_space l) (codes "error:") then trim_space l else rest

abbrev pub error_row : TestResult → ErrorRow
error_row r = record { name = r.name; network = r.network; error = r.error; output = r.err_output }

abbrev pub failure_row : TestResult → FailureRow
failure_row r = record { result = r; err_line = error_line (split_byte 10 r.err_output) }

-- The variables of writeReport's loop.
pub record Tables : Type 0 where
  pub passed : ℕ
  pub errored : ℕ
  pub skipped : ℕ
  pub failures : List FailureRow
  pub errors : List ErrorRow
  pub skips : List ErrorRow

abbrev pub filed : Status → TestResult → Tables → Tables
filed Status.skipped r t = record t { skipped = t.skipped + 1; skips = error_row r ∷ t.skips }
filed Status.errored r t = record t { errored = t.errored + 1; errors = error_row r ∷ t.errors }
filed Status.failed r t = record t { failures = failure_row r ∷ t.failures }
filed Status.fine r t = record t { passed = t.passed + 1 }

unfoldable pub file_all : List TestResult → Tables
unfolding status_of error_line
file_all [] = record {
  passed = 0;
  errored = 0;
  skipped = 0;
  failures = [];
  errors = [];
  skips = [];
}
file_all (r ∷ rs) = filed (status_of r) r (file_all rs)

pub record ReportData : Type 0 where
  pub total : ℕ
  pub passed : ℕ
  pub failed : ℕ
  pub errored : ℕ
  pub skipped : ℕ
  pub failures : List FailureRow
  pub errors : List ErrorRow
  pub skips : List ErrorRow

unfoldable pub write_report : List TestResult → ReportData
unfolding file_all sort
write_report results =
    let t = file_all results in
    record {
      total = length results;
      passed = t.passed;
      failed = length t.failures;
      errored = t.errored;
      skipped = t.skipped;
      failures = by_name (λ (r : FailureRow). r.result.name) t.failures;
      errors = by_name (λ (r : ErrorRow). r.name) t.errors;
      skips = by_name (λ (r : ErrorRow). r.name) t.skips;
    }
