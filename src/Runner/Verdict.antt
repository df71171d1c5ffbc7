-- ===== src/Runner/Verdict.antt =====
-- What a guest run means: Run of runner/runner.go on every way that the process can end.
use stateless_executor.Prelude.{ℕ, ◌≤◌, ◌≡◌, ◌≢◌, ◌↔◌, true, none, length, get_or, arith}
use stateless_executor.Runner.{GuestSpec, Process, Outcome, run}

-- The block is reported valid exactly if the process exits without an error and writes at least 43
-- bytes, of which byte 32 is 1.
pub run_valid_iff :
    (spec : GuestSpec) (process : Process) (block_num : ℕ)
    → ((run spec process block_num).result.valid ≡ true)
      ↔ ((process.exit ≡ none) × (43 ≤ length process.stdout) × (get_or process.stdout 32 0 ≡ 1))
unfolding run
run_valid_iff spec process block_num = ground arith

-- The counter's label follows the report: verified for a valid block, failed for an invalid one that
-- the guest judged, and errored exactly where an error is returned.
pub run_counted :
    (spec : GuestSpec) (process : Process) (block_num : ℕ)
    → (((run spec process block_num).counted ≡ Outcome.verified)
        ↔ ((run spec process block_num).result.valid ≡ true))
      × (((run spec process block_num).counted ≡ Outcome.errored)
          ↔ ((run spec process block_num).error ≢ none))
unfolding run
run_counted spec process block_num = ground arith
