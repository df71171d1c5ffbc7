-- ===== src/Emu/Verdict.antt =====
-- When Run of emu/emu.go reports an error, and which.
use stateless_executor.Prelude.{
  ◌≤◌, ◌<◌, ◌≡◌, ◌↔◌, Bool, true, false, not, ◌&&◌, none, some, [], ◌∷◌, arith,
}
use stateless_executor.Prelude.Errors.{message}
use stateless_executor.Prelude.Text.{trim_space}
use stateless_executor.Emu.{CostReport, Opts, Finished, run, effective_max_steps, parse_cost_report}

-- The cost report that a run prints, and whether it has one.
abbrev pub reported : Finished → CostReport × Bool
reported done = parse_cost_report (trim_space done.combined)

-- A run is returned without an error exactly if it printed fewer steps than the cap, the process
-- ended without an error, and a cost report was found wherever one is required.
pub run_clean_iff :
    (o : Opts) (done : Finished)
    → ((run o done).1 ≡ none) ↔ (
        ((reported done).0.steps < effective_max_steps o)
        × (done.exec_error ≡ none)
        × ((o.require_costs && not (reported done).1) ≡ false))
unfolding run
run_clean_iff o done = ground arith

-- A run that reached the cap is reported as such, whatever error the process ended with, and with
-- its costs.
pub run_capped :
    (o : Opts) (done : Finished)
    → effective_max_steps o ≤ (reported done).0.steps
    → ((run o done).0.step_limit ≡ true)
      × ((run o done).0.costs ≡ (reported done).0)
      × ((run o done).1
          ≡ some
              (message "step limit reached" ((reported done).0.steps ∷ effective_max_steps o ∷ [])))
unfolding run
run_capped o done h = ground arith
