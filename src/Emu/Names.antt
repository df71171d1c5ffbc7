-- ===== src/Emu/Names.antt =====
-- The chain of names that ParseCostReport of emu/emu.go tries on a line: a line gives figures under one
-- name at most, so the order of the chain does not matter.
use stateless_executor.Prelude.{
  ℕ, ◌+◌, ◌*◌, ◌≡◌, refl, sym, ap, ◌∙◌, true, ◌==◌, not, List, [], ◌∷◌, Option, none, some, length,
  drop, arith, Bool-cases, Option-cases, inl, inr, if◌then◌else◌, All,
}
use stateless_executor.Prelude.Text.{Text, codes, has_prefix, first_field, trim_space}
use stateless_executor.Prelude.Sort.{pick_all}
use stateless_executor.Emu.{Label, label_text, without_commas, parse_cost_line, first_label}
use stateless_executor.Emu.Figures.{name_of, figure, position}

-- A figure of the code is one of the description.
without_commas-pick_all : (w : Text) → without_commas w ≡ pick_all (λ (c : ℕ). not (c == b',')) w
unfolding without_commas pick_all
without_commas-pick_all [] = refl
without_commas-pick_all (c ∷ w) =
    let rest = without_commas-pick_all w in
    elim (Bool-cases (c == b',')) [
      | inl comma ↦ rw comma rest
      | inr other ↦ rw other (ap (λ s. c ∷ s) rest)
    ]

parse_cost_line-figure :
    (line name : Text) → parse_cost_line (trim_space line) name ≡ figure name line
unfolding parse_cost_line figure
parse_cost_line-figure line name = elim (Bool-cases (has_prefix (trim_space line) name)) [
  | inr other ↦ rw (parse_cost_line, figure, other) refl
  | inl starts ↦ elim (Option-cases (first_field (drop (length name) (trim_space line)))) [
    | inl e ↦ rw (parse_cost_line, figure, starts, e) refl
    | inr (w, e) ↦ rw (parse_cost_line, figure, starts, e, without_commas-pick_all w) refl
  ]
]

label_text-name_of : (l : Label) → label_text l ≡ name_of l
label_text-name_of l = ground arith

-- No two names start with the same two letters.
abbrev key : Text → ℕ
key [] = 0
key (a ∷ []) = 0
key (a ∷ b ∷ s) = a * 1000 + b

abbrev position_at : ℕ → ℕ
position_at k =
    if k == 66065
    then 0
    else if k == 77065
    then 1
    else if k == 79080
    then 2
    else if k == 80082
    then 3
    else if k == 77069
    then 4
    else if k == 73078
    then 5
    else if k == 67089
    then 6
    else if k == 83084
    then 7
    else 8

key-prefix :
    (line p : Text) (a b : ℕ) → has_prefix line (a ∷ b ∷ p) ≡ true → key line ≡ a * 1000 + b
key-prefix [] p a b h = cc
key-prefix (c ∷ []) p a b h = ground arith
key-prefix (c ∷ d ∷ s) p a b h = ground arith

figure-prefix :
    (name line : Text) {v : ℕ}
    → figure name line ≡ some v
    → has_prefix (trim_space line) name ≡ true
unfolding figure
figure-prefix name line h = elim (Bool-cases (has_prefix (trim_space line) name)) [
  | inl starts ↦ starts
  | inr other ↦ cc
]

name-position :
    (l : Label) (line : Text)
    → has_prefix line (name_of l) ≡ true
    → position_at (key line) ≡ position l
name-position Label.base line h = ap position_at (key-prefix line (codes "SE") 66 65 h)
name-position Label.main line h = ap position_at (key-prefix line (codes "IN") 77 65 h)
name-position Label.opcodes line h = ap position_at (key-prefix line (codes "CODES") 79 80 h)
name-position Label.precompiles line h =
    ap position_at (key-prefix line (codes "ECOMPILES") 80 82 h)
name-position Label.memory line h = ap position_at (key-prefix line (codes "MORY") 77 69 h)
name-position Label.instructions line h =
    ap position_at (key-prefix line (codes "STRUCTIONS") 73 78 h)
name-position Label.cycles line h = ap position_at (key-prefix line (codes "CLES") 67 89 h)
name-position Label.steps line h = ap position_at (key-prefix line (codes "EPS") 83 84 h)
name-position Label.total line h = ap position_at (key-prefix line (codes "TAL") 84 79 h)

figure-position :
    (l : Label) (line : Text) {v : ℕ}
    → figure (name_of l) line ≡ some v
    → position_at (key (trim_space line)) ≡ position l
figure-position l line h = name-position l (trim_space line) (figure-prefix (name_of l) line h)

label-figure :
    (l : Label) (line : Text)
    → parse_cost_line (trim_space line) (label_text l) ≡ figure (name_of l) line
label-figure l line =
    ap (parse_cost_line (trim_space line)) (label_text-name_of l)
    ∙ parse_cost_line-figure line (name_of l)

-- The chain of else-ifs tries every name until one gives a figure.
first_label-front :
    (l : Label) (ls : List Label) (line : Text) {k : Label} {v w : ℕ}
    → parse_cost_line (trim_space line) (label_text l) ≡ some w
    → first_label (l ∷ ls) (trim_space line) ≡ some (k, v)
    → ◌≡◌ {A = Label × ℕ} (l, w) (k, v)
unfolding first_label
first_label-front l ls line {k} {v} {w} e h =
    let tried : first_label (l ∷ ls) (trim_space line) ≡ some (l, w) = rw (first_label, e) refl in
    ap (value_of (l, w)) (sym tried ∙ h)
  where
    value_of : Label × ℕ → Option (Label × ℕ) → Label × ℕ
    value_of d none = d
    value_of d (some x) = x

pub first_label-some :
    (ls : List Label) (line : Text) {k : Label} {v : ℕ}
    → first_label ls (trim_space line) ≡ some (k, v)
    → figure (name_of k) line ≡ some v
unfolding first_label
first_label-some [] line h = cc
first_label-some (l ∷ ls) line {k} {v} h =
    elim (Option-cases (parse_cost_line (trim_space line) (label_text l))) [
      | inl e ↦ first_label-some ls line (cc)
      | inr (w, e) ↦
          let same : ◌≡◌ {A = Label × ℕ} (l, w) (k, v) = first_label-front l ls line e h in
          let same_label : l ≡ k = ap (λ (x : Label × ℕ). x.0) same in
          let same_value : w ≡ v = ap (λ (x : Label × ℕ). x.1) same in
          ap (λ (n : Label). figure (name_of n) line) (sym same_label)
          ∙ sym (label-figure l line)
          ∙ e
          ∙ ap some same_value
    ]

pub first_label-none :
    (ls : List Label) (line : Text)
    → first_label ls (trim_space line) ≡ none
    → All (λ (l : Label). figure (name_of l) line ≡ none) ls
unfolding first_label
first_label-none [] line h = tt
first_label-none (l ∷ ls) line h =
    elim (Option-cases (parse_cost_line (trim_space line) (label_text l))) [
      | inl e ↦ (sym (label-figure l line) ∙ e, first_label-none ls line (cc))
      | inr (w, e) ↦ cc
    ]

of_position : ℕ → Label
of_position n =
    if n == 0
    then Label.base
    else if n == 1
    then Label.main
    else if n == 2
    then Label.opcodes
    else if n == 3
    then Label.precompiles
    else if n == 4
    then Label.memory
    else if n == 5
    then Label.instructions
    else if n == 6
    then Label.cycles
    else if n == 7
    then Label.steps
    else Label.total

of_position-position : (l : Label) → of_position (position l) ≡ l
unfolding of_position
of_position-position l = ground arith

-- A line gives figures under one name only.
figure-same :
    (k l : Label) (line : Text) {v w : ℕ}
    → figure (name_of k) line ≡ some v
    → figure (name_of l) line ≡ some w
    → k ≡ l
figure-same k l line h h' =
    sym (of_position-position k)
    ∙ ap of_position (sym (figure-position k line h) ∙ figure-position l line h')
    ∙ of_position-position l

pub figure-first :
    (k l : Label) (line : Text) {v : ℕ}
    → figure (name_of k) line ≡ some v
    → figure (name_of l) line ≡ (if position k == position l then some v else none)
figure-first k l line {v} h = elim (Option-cases (figure (name_of l) line)) [
  | inr (w, e) ↦
      let same = figure-same k l line h e in
      ap (λ (n : Label). figure (name_of n) line) (sym same) ∙ h ∙ rw same (sym (own l))
  | inl e ↦ elim (Bool-cases (position k == position l)) [
    | inr other ↦ rw other e
    | inl equal ↦
        let pos : position k ≡ position l = ground (arith, equal) in
        let same : k ≡ l =
          sym (of_position-position k) ∙ ap of_position pos ∙ of_position-position l in
        let found : figure (name_of l) line ≡ some v =
          ap (λ (n : Label). figure (name_of n) line) (sym same) ∙ h in
        cc (found, e)
  ]
]
  where
    own : (n : Label) → (if position n == position n then some v else none) ≡ some v
    own n = ground arith
