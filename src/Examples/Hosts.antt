-- ===== src/Examples/Hosts.antt =====
-- The pool, the runner, the emulator and the result buffer at concrete answers.
use stateless_executor.Prelude.{
  ◌||◌, ℕ, ltb, ◌≡◌, ◌↔◌, ◌≤◌, ◌<◌, Bool, true, false, not, ◌&&◌, List, [], ◌∷◌, foldl, none, drop,
  replicate, length, get_or,
}
use stateless_executor.Prelude.Errors.{ok}
use stateless_executor.Prelude.Text.{Text, codes, text_eq, split_byte}
use stateless_executor.Store
use stateless_executor.Store.{no_result, empty, add, all}
use stateless_executor.Store.History.{all-add}
use stateless_executor.Pool.Heads.{Event, act, start, IsOrderly, start-IsOrderly}
use stateless_executor.Runner
use stateless_executor.Runner.{GuestSpec, Process, Outcome}
use stateless_executor.Runner.Verdict.{run_valid_iff}
use stateless_executor.Emu
use stateless_executor.Emu.{
  Opts, Finished, Label, effective_max_steps, parse_cost_report, read_lines, read_line, first_label,
  parse_cost_line, without_commas, encode_to_string,
}
use stateless_executor.Emu.Verdict.{reported, run_clean_iff}
use stateless_executor.Emu.Figures.{cost_of, last_figure, gives}
use stateless_executor.Emu.Costs.{delivered, parse_cost_report-figures}

abbrev stored : List Store.Result
stored = record no_result { block = 7 } ∷ record no_result { block = 8 } ∷ []

all-add_example : all (foldl add empty stored) ≡ drop 0 stored
all-add_example = all-add stored

abbrev node_a : Text
node_a = codes "http://a"

abbrev node_b : Text
node_b = codes "http://b"

start-IsOrderly_example : IsOrderly (
    foldl act
      (start (node_a ∷ node_b ∷ []))
      (Event.ticked (λ url. ok 5) ∷ Event.ticked (λ url. ok 7) ∷ Event.received ∷ []))
start-IsOrderly_example =
    start-IsOrderly (node_a ∷ node_b ∷ [])
      (Event.ticked (λ url. ok 5) ∷ Event.ticked (λ url. ok 7) ∷ Event.received ∷ [])

-- Only node b passes, and only from the third attempt on.
abbrev arrivals : ℕ → List Text
arrivals k = node_a ∷ node_b ∷ []

abbrev late : ℕ → Text → Bool
late k u = not (ltb k 3) && text_eq u node_b

abbrev spec : GuestSpec
spec = record { name = codes "zesu"; path = codes "/bin/zesu" }

abbrev process : Process
process = record { exit = none; stdout = replicate 43 1; stderr = []; duration_ms = 12 }

run_valid_iff_example :
    ((Runner.run spec process 9).result.valid ≡ true)
    ↔ ((process.exit ≡ none) × (43 ≤ length process.stdout) × (get_or process.stdout 32 0 ≡ 1))
run_valid_iff_example = run_valid_iff spec process 9

abbrev opts : Opts
opts = record { elf = []; bin = []; max_steps = 1000; require_costs = true }

abbrev done : Finished
done = record { combined = codes "STEPS 1,024"; exec_error = none; output_file = none }

run_clean_iff_example : ((Emu.run opts done).1 ≡ none) ↔ (
    ((reported done).0.steps < effective_max_steps opts)
    × (done.exec_error ≡ none)
    × ((true && not (reported done).1) ≡ false))
run_clean_iff_example = run_clean_iff opts done

parse_cost_report-figures_example :
    (cost_of Label.steps (parse_cost_report done.combined).0
      ≡ last_figure (codes "STEPS") 0 (delivered (split_byte 10 done.combined)))
    × ((parse_cost_report done.combined).1 ≡ (
        gives (codes "BASE") (delivered (split_byte 10 done.combined))
        || gives (codes "INSTRUCTIONS") (delivered (split_byte 10 done.combined))))
parse_cost_report-figures_example = parse_cost_report-figures Label.steps done.combined
