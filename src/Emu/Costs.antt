-- ===== src/Emu/Costs.antt =====
-- ParseCostReport of emu/emu.go against a description of the table by its lines.
use stateless_executor.Prelude.{
  ℕ, ◌≡◌, refl, sym, ap, ◌∙◌, Bool, true, false, ◌||◌, ◌==◌, List, [], ◌∷◌, none, some, length, leb,
  arith, Bool-cases, Option-cases, inl, inr, if◌then◌else◌, All,
}
use stateless_executor.Prelude.Text.{Text, codes, trim_space, split_byte}
use stateless_executor.Emu.{
  CostReport, Label, labels, no_costs, first_label, shows_table, read_line, read_lines, max_line,
  parse_cost_report,
}
use stateless_executor.Emu.Figures.{
  name_of, figure, value_or, is_some, last_figure, gives, cost_of, position, cost_of-set_cost,
  no_cost,
}
use stateless_executor.Emu.Names.{first_label-some, first_label-none, figure-first}

-- The lines that the scanner delivers: those before the first that overflows its buffer.
unfoldable pub delivered : List Text → List Text
delivered [] = []
delivered (l ∷ ls) = let rest = delivered ls in if leb max_line (length l) then [] else l ∷ rest

all_labels : (P : Label → Type 0) → All P labels → (l : Label) → P l
all_labels P (a, (b, (c, (d, (e, (f, (g, (h, (i, _))))))))) Label.base = a
all_labels P (a, (b, (c, (d, (e, (f, (g, (h, (i, _))))))))) Label.main = b
all_labels P (a, (b, (c, (d, (e, (f, (g, (h, (i, _))))))))) Label.opcodes = c
all_labels P (a, (b, (c, (d, (e, (f, (g, (h, (i, _))))))))) Label.precompiles = d
all_labels P (a, (b, (c, (d, (e, (f, (g, (h, (i, _))))))))) Label.memory = e
all_labels P (a, (b, (c, (d, (e, (f, (g, (h, (i, _))))))))) Label.instructions = f
all_labels P (a, (b, (c, (d, (e, (f, (g, (h, (i, _))))))))) Label.cycles = g
all_labels P (a, (b, (c, (d, (e, (f, (g, (h, (i, _))))))))) Label.steps = h
all_labels P (a, (b, (c, (d, (e, (f, (g, (h, (i, _))))))))) Label.total = i

||_assoc : (a b c : Bool) → ((a || b) || c) ≡ (a || (b || c))
||_assoc true b c = refl
||_assoc false b c = refl

||_false : (b : Bool) → (b || false) ≡ b
||_false true = refl
||_false false = refl

-- Two tests over a list, each by its head.
||_swap : (a b c d : Bool) → ((a || b) || (c || d)) ≡ ((a || c) || (b || d))
||_swap a b c d = ground arith

value_or-if : (b : Bool) (v d : ℕ) → value_or (if b then some v else none) d ≡ (if b then v else d)
value_or-if true v d = refl
value_or-if false v d = refl

shows_table-position :
    (k : Label) (v : ℕ)
    → shows_table k ≡ (
        is_some (if position k == 0 then some v else none)
        || is_some (if position k == 5 then some v else none))
shows_table-position k v = ground arith

-- A line shows a table by a figure under one of two names.
abbrev pub shows : Text → Bool
shows line = is_some (figure (codes "BASE") line) || is_some (figure (codes "INSTRUCTIONS") line)

read_line-figure :
    (l : Label) (line : Text) (r : CostReport) (found : Bool)
    → (cost_of l (read_line (r, found) line).0 ≡ value_or (figure (name_of l) line) (cost_of l r))
      × ((read_line (r, found) line).1 ≡ (found || shows line))
unfolding read_line
read_line-figure l line r found = elim (Option-cases (first_label labels (trim_space line))) [
  | inl e ↦
      let all = first_label-none labels line e in
      let none_of : Label → Type 0 = λ (n : Label). figure (name_of n) line ≡ none in
      rw
        (
          read_line,
          e,
          all_labels none_of all l,
          all_labels none_of all Label.base,
          all_labels none_of all Label.instructions,
        )
        (refl, sym (||_false found))
  | inr ((k, v), e) ↦
      let h = first_label-some labels line e in
      let base = figure-first k Label.base line h in
      let insns = figure-first k Label.instructions line h in
      rw (read_line, e, figure-first k l line h, base, insns)
        (
          cost_of-set_cost l k r v ∙ sym (value_or-if (position k == position l) v (cost_of l r)),
          ap (λ (b : Bool). found || b) (shows_table-position k v),
        )
]

-- Some line shows a table.
table_in : List Text → Bool
table_in lines = gives (codes "BASE") lines || gives (codes "INSTRUCTIONS") lines

table_in-cons : (line : Text) (ls : List Text) → table_in (line ∷ ls) ≡ (shows line || table_in ls)
unfolding table_in gives
table_in-cons line ls =
    ||_swap (is_some (figure (codes "BASE") line)) (gives (codes "BASE") ls)
      (is_some (figure (codes "INSTRUCTIONS") line)) (gives (codes "INSTRUCTIONS") ls)

module _ (l : Label) where
  read_lines-figures :
      (lines : List Text) (r : CostReport) (found : Bool)
      → (cost_of l (read_lines (r, found) lines).0
          ≡ last_figure (name_of l) (cost_of l r) (delivered lines))
        × ((read_lines (r, found) lines).1 ≡ (found || table_in (delivered lines)))
  unfolding read_lines delivered last_figure table_in gives
  read_lines-figures [] r found = (refl, sym (||_false found))
  read_lines-figures (line ∷ lines) r found = elim (Bool-cases (leb max_line (length line))) [
    | inl overflows ↦ rw overflows (refl, sym (||_false found))
    | inr fits ↦
        let (cost, shown) = read_line-figure l line r found in
        let acc = read_line (r, found) line in
        let (costs, table) = read_lines-figures lines acc.0 acc.1 in
        rw fits (
          costs ∙ ap (λ (d : ℕ). last_figure (name_of l) d (delivered lines)) cost,
          table
              ∙ ap (λ (b : Bool). b || table_in (delivered lines)) shown
              ∙ ||_assoc found (shows line) (table_in (delivered lines))
              ∙ ap (λ (b : Bool). found || b) (sym (table_in-cons line (delivered lines))),
        )
  ]

  -- Of the lines before the first that has 4 MiB or more: each cost is the last figure that a line
  -- gives under its name, or 0, and a table is found exactly if some line gives a BASE or an
  -- INSTRUCTIONS figure. What stands behind a line of that size is not read.
  pub parse_cost_report-figures :
      (output : Text)
      → (cost_of l (parse_cost_report output).0
          ≡ last_figure (name_of l) 0 (delivered (split_byte 10 output)))
        × ((parse_cost_report output).1 ≡ (
            gives (codes "BASE") (delivered (split_byte 10 output))
            || gives (codes "INSTRUCTIONS") (delivered (split_byte 10 output))))
  unfolding parse_cost_report table_in
  parse_cost_report-figures output =
      let (costs, table) = read_lines-figures (split_byte 10 output) no_costs false in
      (
        costs
            ∙ ap (λ (d : ℕ). last_figure (name_of l) d (delivered (split_byte 10 output)))
                (no_cost l),
        table,
      )
