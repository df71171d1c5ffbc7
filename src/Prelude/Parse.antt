-- ===== src/Prelude/Parse.antt =====
-- strconv.ParseUint(s, base, 64) for bases 10 and 16: at least one digit, digits only, below 2^64.
use stateless_executor.Prelude.Tests.{leb, ltb, if◌then◌else◌}
use stateless_executor.Prelude.Text.{Text}
use stateless_executor.Prelude.Errors.{Result, ok, err, external}
use Prim.Native.Nat.{ℕ, ◌+◌, ◌-◌, ◌*◌, ◌^◌}
use mathlib.Core.Bool.{◌&&◌}
use mathlib.Core.Option.{Option, none, some}
use mathlib.Core.List.{[], ◌∷◌}

abbrev pub decimal_digit : ℕ → Option ℕ
decimal_digit c = if leb b'0' c && leb c b'9' then some (c - b'0') else none

unfoldable pub digits_value : (ℕ → Option ℕ) → ℕ → ℕ → Text → Option ℕ
digits_value digit base acc [] = some acc
digits_value digit base acc (c ∷ s) = elim (digit c) [
  | none ↦ none
  | some d ↦ digits_value digit base (acc * base + d) s
]

unfoldable pub parse_uint : (ℕ → Option ℕ) → ℕ → Text → Result ℕ
unfolding digits_value
parse_uint digit base [] = err (external 10)
parse_uint digit base (c ∷ s) = elim (digits_value digit base 0 (c ∷ s)) [
  | none ↦ err (external 10)
  | some n ↦ if ltb n (2 ^ 64) then ok n else err (external 11)
]
