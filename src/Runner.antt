-- ===== src/Runner.antt =====
-- runner/runner.go: the guest list of GUEST_BINARIES, and what one guest run means.
pub mod Verdict
use stateless_executor.Prelude.{
  ℕ, ◌+◌, ◌-◌, Bool, true, false, List, [], ◌∷◌, ◌++◌, Option, none, some, length, get_or, ltb,
  ◌==◌, if◌then◌else◌,
}
use stateless_executor.Prelude.Errors.{Error, Result, ok, err, panic, wrap, message, ◌>>=◌}
use stateless_executor.Prelude.Text.{Text, codes, text_eq, trim_space, split_byte, cut_at}
use stateless_executor.Prelude.Endian.{Bytes}
use stateless_executor.Store
use stateless_executor.Store.{no_result}

abbrev pub stateless_output_size : ℕ
stateless_output_size = 43

pub record GuestSpec : Type 0 where
  pub name : Text
  pub path : Text

-- One entry behind its TrimSpace: none for an empty one, an error where it has no colon.
unfoldable pub parse_entry : Text → Option (Result GuestSpec)
parse_entry [] = none
parse_entry (c ∷ entry) = elim (cut_at (c ∷ entry) (b':' ∷ [])) [
  | none ↦ some (err (message "invalid GUEST_BINARIES entry" (c ∷ entry)))
  | some (name, path) ↦ some (ok (record { name = name; path = path }))
]

unfoldable pub parse_entries : List Text → Result (List GuestSpec)
unfolding parse_entry
parse_entries [] = ok []
parse_entries (e ∷ entries) =
    let rest = parse_entries entries in
    elim (parse_entry (trim_space e)) [
      | none ↦ rest
      | some spec ↦ do s ← spec; specs ← rest; ok (s ∷ specs)
    ]

abbrev pub none_empty : List GuestSpec → Result (List GuestSpec)
none_empty [] = err (message "GUEST_BINARIES is empty" [])
none_empty (s ∷ specs) = ok (s ∷ specs)

unfoldable pub parse_guest_specs : Text → Result (List GuestSpec)
unfolding parse_entries
parse_guest_specs s = do specs ← parse_entries (split_byte b',' s); none_empty specs

-- How a guest process ended: its error, if any, what it wrote, and how long it took.
pub record Process : Type 0 where
  pub exit : Option Error
  pub stdout : Bytes
  pub stderr : Text
  pub duration_ms : ℕ

-- The label of the counter stateless_block_verified_total.
pub data Outcome : Type 0 where
  verified failed errored : Outcome

-- The returned store.Result and error, and the counter's label.
pub record Report : Type 0 where
  pub result : Store.Result
  pub error : Option Error
  pub counted : Outcome

abbrev pub errored_report : Text → Error → Report
errored_report log_output e = record {
  result = record no_result { log = log_output };
  error = some e;
  counted = errored;
}

-- out[32] == 0x01, behind the check of the length.
abbrev pub is_valid : Bytes → Bool
is_valid out = get_or out 32 0 == 1

unfoldable pub run : GuestSpec → Process → ℕ → Report
run spec process block_num =
    let log_output = trim_space process.stderr in
    elim process.exit [
      | some e ↦ errored_report log_output (wrap "runner" e)
      | none ↦
          if ltb (length process.stdout) stateless_output_size
          then errored_report log_output
              (message "runner: output too short" (length process.stdout ∷ []))
          else record {
            result = record no_result {
              block = block_num;
              guest = spec.name;
              valid = is_valid process.stdout;
              log = log_output;
              duration_ms = process.duration_ms;
            };
            error = none;
            counted = if is_valid process.stdout then verified else failed;
          }
    ]
