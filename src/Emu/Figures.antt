-- ===== src/Emu/Figures.antt =====
-- A description of the cost table that emu/emu.go reads: the names, the figure that a line gives under
-- a name, and the last of them.
use stateless_executor.Prelude.{
  ℕ, ◌≡◌, Bool, true, false, ◌||◌, ◌==◌, not, List, [], ◌∷◌, Option, none, some, length, drop,
  arith, if◌then◌else◌,
}
use stateless_executor.Prelude.Errors.{ok}
use stateless_executor.Prelude.Text.{Text, codes, has_prefix, first_field, trim_space}
use stateless_executor.Prelude.Parse.{decimal_digit, parse_uint}
use stateless_executor.Prelude.Sort.{pick_all}
use stateless_executor.Emu.{CostReport, Label, no_costs, set_cost}

-- The names of the table.
abbrev pub name_of : Label → Text
name_of Label.base = codes "BASE"
name_of Label.main = codes "MAIN"
name_of Label.opcodes = codes "OPCODES"
name_of Label.precompiles = codes "PRECOMPILES"
name_of Label.memory = codes "MEMORY"
name_of Label.instructions = codes "INSTRUCTIONS"
name_of Label.cycles = codes "CYCLES"
name_of Label.steps = codes "STEPS"
name_of Label.total = codes "TOTAL"

-- A decimal number below 2^64, without regard to commas.
abbrev pub number : Option Text → Option ℕ
number none = none
number (some word) =
    elim (parse_uint decimal_digit 10 (pick_all (λ (c : ℕ). not (c == b',')) word)) [
      | ok n ↦ some n
      | _ ↦ none
    ]

-- The figure that a line gives under a name: the number that the line has as the first word behind
-- the name, if it starts with the name.
unfoldable pub figure : Text → Text → Option ℕ
figure name line =
    if has_prefix (trim_space line) name
    then number (first_field (drop (length name) (trim_space line)))
    else none

abbrev pub value_or : Option ℕ → ℕ → ℕ
value_or none d = d
value_or (some v) d = v

abbrev pub is_some : Option ℕ → Bool
is_some none = false
is_some (some v) = true

-- The last figure under a name, or a default, and whether there is one.
unfoldable pub last_figure : Text → ℕ → List Text → ℕ
last_figure name d [] = d
last_figure name d (l ∷ ls) = last_figure name (value_or (figure name l) d) ls

unfoldable pub gives : Text → List Text → Bool
gives name [] = false
gives name (l ∷ ls) = is_some (figure name l) || gives name ls

-- A figure of a report, by its label.
abbrev pub cost_of : Label → CostReport → ℕ
cost_of Label.base r = r.base
cost_of Label.main r = r.main
cost_of Label.opcodes r = r.opcodes
cost_of Label.precompiles r = r.precompiles
cost_of Label.memory r = r.memory
cost_of Label.instructions r = r.instructions
cost_of Label.cycles r = r.cycles
cost_of Label.steps r = r.steps
cost_of Label.total r = r.total

abbrev pub position : Label → ℕ
position Label.base = 0
position Label.main = 1
position Label.opcodes = 2
position Label.precompiles = 3
position Label.memory = 4
position Label.instructions = 5
position Label.cycles = 6
position Label.steps = 7
position Label.total = 8

pub cost_of-set_cost :
    (l k : Label) (r : CostReport) (v : ℕ)
    → cost_of l (set_cost r k v) ≡ (if position k == position l then v else cost_of l r)
cost_of-set_cost l k r v = ground arith

pub no_cost : (l : Label) → cost_of l no_costs ≡ 0
no_cost l = ground arith
