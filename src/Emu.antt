-- ===== src/Emu.antt =====
-- emu/emu.go: what one emulator run means. The process and its files are arguments.
pub mod Verdict
pub mod Figures
pub mod Names
pub mod Costs
pub mod HexText
use stateless_executor.Prelude.{
  ℕ, ◌+◌, ◌-◌, ◌*◌, ◌^◌, ◌/◌, ◌%◌, Bool, true, false, List, [], ◌∷◌, Option, none, some, length,
  get_or, ltb, leb, ◌==◌, not, ◌&&◌, ◌||◌, if◌then◌else◌,
}
use stateless_executor.Prelude.Errors.{Error, ok, wrap, message}
use stateless_executor.Prelude.Text.{
  Text, codes, cut_prefix, cut_at, first_field, split_byte, trim_space,
}
use stateless_executor.Prelude.Parse.{decimal_digit, parse_uint}
use stateless_executor.Prelude.Endian.{Bytes}

abbrev pub default_zisk_max_steps : ℕ
default_zisk_max_steps = 68719476735

abbrev pub stateless_output_size : ℕ
stateless_output_size = 43

pub record CostReport : Type 0 where
  pub base : ℕ
  pub main : ℕ
  pub opcodes : ℕ
  pub precompiles : ℕ
  pub memory : ℕ
  pub total : ℕ
  pub instructions : ℕ
  pub cycles : ℕ
  pub steps : ℕ

abbrev pub no_costs : CostReport
no_costs = record {
  base = 0;
  main = 0;
  opcodes = 0;
  precompiles = 0;
  memory = 0;
  total = 0;
  instructions = 0;
  cycles = 0;
  steps = 0;
}

pub record Opts : Type 0 where
  pub elf : Text
  pub bin : Text
  pub max_steps : ℕ
  pub require_costs : Bool

unfoldable pub effective_max_steps : Opts → ℕ
effective_max_steps o = if ltb 0 o.max_steps then o.max_steps else default_zisk_max_steps

-- strings.ReplaceAll(s, ",", "")
unfoldable pub without_commas : Text → Text
without_commas [] = []
without_commas (c ∷ s) = let rest = without_commas s in if c == b',' then rest else c ∷ rest

unfoldable pub parse_cost_line : Text → Text → Option ℕ
unfolding without_commas
parse_cost_line line label = elim (cut_prefix line label) [
  | none ↦ none
  | some rest ↦ elim (first_field rest) [
    | none ↦ none
    | some field ↦ elim (parse_uint decimal_digit 10 (without_commas field)) [
      | ok n ↦ some n
      | _ ↦ none
    ]
  ]
]

-- The labels of the table, in the order in which ParseCostReport tries them.
pub data Label : Type 0 where
  base main opcodes precompiles memory instructions cycles steps total : Label

abbrev pub label_text : Label → Text
label_text Label.base = codes "BASE"
label_text Label.main = codes "MAIN"
label_text Label.opcodes = codes "OPCODES"
label_text Label.precompiles = codes "PRECOMPILES"
label_text Label.memory = codes "MEMORY"
label_text Label.instructions = codes "INSTRUCTIONS"
label_text Label.cycles = codes "CYCLES"
label_text Label.steps = codes "STEPS"
label_text Label.total = codes "TOTAL"

abbrev pub labels : List Label
labels =
    Label.base ∷ Label.main ∷ Label.opcodes ∷ Label.precompiles ∷ Label.memory ∷ Label.instructions
    ∷ Label.cycles ∷ Label.steps ∷ Label.total ∷ []

-- The chain of else-ifs: the first label that the line parses under.
unfoldable pub first_label : List Label → Text → Option (Label × ℕ)
unfolding parse_cost_line
first_label [] line = none
first_label (l ∷ ls) line =
    let rest = first_label ls line in
    elim (parse_cost_line line (label_text l)) [ none ↦ rest | some v ↦ some (l, v) ]

abbrev pub set_cost : CostReport → Label → ℕ → CostReport
set_cost r Label.base v = record r { base = v }
set_cost r Label.main v = record r { main = v }
set_cost r Label.opcodes v = record r { opcodes = v }
set_cost r Label.precompiles v = record r { precompiles = v }
set_cost r Label.memory v = record r { memory = v }
set_cost r Label.instructions v = record r { instructions = v }
set_cost r Label.cycles v = record r { cycles = v }
set_cost r Label.steps v = record r { steps = v }
set_cost r Label.total v = record r { total = v }

-- Only BASE and INSTRUCTIONS show that there was a cost table.
abbrev pub shows_table : Label → Bool
shows_table Label.base = true
shows_table Label.instructions = true
shows_table _ = false

-- One round of the scanner's loop.
unfoldable pub read_line : CostReport × Bool → Text → CostReport × Bool
unfolding first_label
read_line (r, found) line = elim (first_label labels (trim_space line)) [
  | none ↦ (r, found)
  | some (l, v) ↦ (set_cost r l v, found || shows_table l)
]

-- The size from which a line overflows the scanner's buffer and ends the scan.
abbrev pub max_line : ℕ
max_line = 4 * 1024 * 1024

unfoldable pub read_lines : CostReport × Bool → List Text → CostReport × Bool
unfolding read_line
read_lines acc [] = acc
read_lines acc (line ∷ lines) =
    let rest = read_lines (read_line acc line) lines in
    if leb max_line (length line) then acc else rest

unfoldable pub parse_cost_report : Text → CostReport × Bool
unfolding read_lines
parse_cost_report output = read_lines (no_costs, false) (split_byte 10 output)

abbrev pub exec_failed_prefix : Text
exec_failed_prefix = codes "error: execution failed: "

unfoldable pub parse_exec_error : Text → Text
parse_exec_error output = elim (cut_at output exec_failed_prefix) [
  | none ↦ []
  | some (_, rest) ↦ elim (first_field rest) [ none ↦ [] | some f ↦ f ]
]

unfoldable pub all_zero : Bytes → Bool
all_zero [] = true
all_zero (c ∷ b) = let rest = all_zero b in if c == 0 then rest else false

-- hex.EncodeToString
abbrev pub hex_char : ℕ → ℕ
hex_char d = if ltb d 10 then d + b'0' else d - 10 + b'a'

unfoldable pub encode_to_string : Bytes → Text
encode_to_string [] = []
encode_to_string (b ∷ bs) = hex_char (b / 16) ∷ hex_char (b % 16) ∷ encode_to_string bs

pub record Result : Type 0 where
  pub costs : CostReport
  pub output_hex : Text
  pub raw_out : Text
  pub exec_err : Text
  pub step_limit : Bool
  pub short_output : Bool

-- What a run leaves: the combined output, the process's error, and the output file if it is read.
pub record Finished : Type 0 where
  pub combined : Text
  pub exec_error : Option Error
  pub output_file : Option Bytes

abbrev pub is_short : Option Bytes → Bool
is_short none = true
is_short (some out) = ltb (length out) stateless_output_size || all_zero out

abbrev pub hex_of : Option Bytes → Text
hex_of none = []
hex_of (some out) = encode_to_string out

-- `Run`, from the process's end on: the result, and the error that goes with it.
unfoldable pub run : Opts → Finished → Result × Option Error
unfolding effective_max_steps
run o done =
    let raw_out = trim_space done.combined in
    let (costs, found_costs) = parse_cost_report raw_out in
    let capped = leb (effective_max_steps o) costs.steps in
    let r : Result = record {
      costs = costs;
      output_hex = hex_of done.output_file;
      raw_out = raw_out;
      exec_err = parse_exec_error raw_out;
      step_limit = capped;
      short_output = is_short done.output_file;
    } in
    if capped
    then (r, some (message "step limit reached" (costs.steps ∷ effective_max_steps o ∷ [])))
    else elim done.exec_error [
      | some e ↦ (r, some (wrap "zkvm" e))
      | none ↦
          if o.require_costs && not found_costs
          then (r, some (message "no cost report in emulator output" []))
          else (r, none)
    ]

abbrev pub empty_result : Text → Result
empty_result raw_out = record {
  costs = no_costs;
  output_hex = [];
  raw_out = raw_out;
  exec_err = [];
  step_limit = false;
  short_output = false;
}

-- `runHost`, from the process's end on. A read error of the output file is `read_error`.
unfoldable pub run_host : Error → Finished → Result × Option Error
run_host read_error done =
    let raw_out = trim_space done.combined in
    elim done.exec_error [
      | some e ↦ (empty_result raw_out, some (wrap "runner" e))
      | none ↦ elim done.output_file [
        | none ↦ (empty_result raw_out, some (wrap "read output" read_error))
        | some out ↦
            if ltb (length out) stateless_output_size
            then (
              empty_result raw_out,
              some (message "output too short" (length out ∷ stateless_output_size ∷ [])),
            )
            else (
              record (empty_result raw_out) {
                output_hex = encode_to_string out;
                exec_err = if get_or out 32 0 == 0 then codes "ExecutionFailed" else [];
                costs = (parse_cost_report raw_out).0;
              },
              none,
            )
      ]
    ]
