-- ===== src/Prelude/Text.antt =====
-- Go strings as lists of bytes, with the functions of package strings that the program calls.
use Prim.Native.Nat.{ℕ}
use Prim.Native.Char.{code}
use Prim.Native.String.{String}
use mathlib.Core.Path.{◌≡◌, refl}
use mathlib.Core.Bool.{Bool, true, false, ◌&&◌, ◌||◌}
use mathlib.Core.Option.{Option, none, some}
use mathlib.Core.List.{List, [], ◌∷◌}
use native.Mathlib.Omega.{arith}
use stateless_executor.Prelude.Tests.{leb, ◌==◌, if◌then◌else◌}
use stateless_executor.Prelude.Lists.{length, drop}

abbrev pub Text : Type 0
Text = List ℕ

-- A literal of the source, as its bytes.
abbrev pub codes : String → Text
codes String.[] = []
codes (String.◌∷◌ c s) = code c ∷ codes s

-- s == t
abbrev pub text_eq : Text → Text → Bool
text_eq [] [] = true
text_eq [] (d ∷ t) = false
text_eq (c ∷ s) [] = false
text_eq (c ∷ s) (d ∷ t) = c == d && text_eq s t

pub text_eq_refl : (s : Text) → text_eq s s ≡ true
text_eq_refl [] = refl
text_eq_refl (c ∷ s) = ground (arith, text_eq_refl s)

pub text_eq→eq : (s t : Text) → text_eq s t ≡ true → s ≡ t
text_eq→eq [] [] h = refl
text_eq→eq [] (d ∷ t) h = cc
text_eq→eq (c ∷ s) [] h = cc
text_eq→eq (c ∷ s) (d ∷ t) h = ground (arith, text_eq→eq s t)

-- strings.HasPrefix(s, p), strings.TrimPrefix(s, p) and strings.CutPrefix(s, p)
abbrev pub has_prefix : Text → Text → Bool
has_prefix s [] = true
has_prefix [] (d ∷ p) = false
has_prefix (c ∷ s) (d ∷ p) = c == d && has_prefix s p

abbrev pub cut_prefix : Text → Text → Option Text
cut_prefix s p = if has_prefix s p then some (drop (length p) s) else none

abbrev pub trim_prefix : Text → Text → Text
trim_prefix s p = if has_prefix s p then drop (length p) s else s

-- strings.Contains(s, p), on bytes.
unfoldable pub contains : Text → Text → Bool
contains [] p = has_prefix [] p
contains (c ∷ s) p = has_prefix (c ∷ s) p || contains s p

-- What stands before and behind the first occurrence of p: strings.Index and the slices at it.
unfoldable pub cut_at : Text → Text → Option (Text × Text)
cut_at [] p = if has_prefix [] p then some ([], []) else none
cut_at (c ∷ s) p =
    let rest : Option (Text × Text) = elim (cut_at s p) [
      | none ↦ none
      | some (a, b) ↦ some (c ∷ a, b)
    ] in
    if has_prefix (c ∷ s) p then some ([], drop (length p) (c ∷ s)) else rest

-- The ASCII white space of strings.TrimSpace and strings.Fields.
abbrev pub is_space : ℕ → Bool
is_space c = c == 32 || (leb 9 c && leb c 13)

unfoldable pub trim_left : Text → Text
trim_left [] = []
trim_left (c ∷ s) = if is_space c then trim_left s else c ∷ s

unfoldable pub trim_right : Text → Text
trim_right [] = []
trim_right (c ∷ s) = elim (trim_right s) [
  | [] ↦ if is_space c then [] else c ∷ []
  | (d ∷ t) ↦ c ∷ d ∷ t
]

abbrev pub trim_space : Text → Text
trim_space s = trim_right (trim_left s)

-- strings.Split(s, sep) for a separator of one byte: the field being read, and those behind it.
unfoldable pub split_byte : ℕ → Text → List Text
split_byte sep [] = [] ∷ []
split_byte sep (c ∷ s) = elim (split_byte sep s) [
  | [] ↦ []
  | (f ∷ fs) ↦ if c == sep then [] ∷ f ∷ fs else (c ∷ f) ∷ fs
]

-- The first field of strings.Fields(s), or none.
unfoldable pub take_word : Text → Text
take_word [] = []
take_word (c ∷ s) = let rest = take_word s in if is_space c then [] else c ∷ rest

unfoldable pub first_field : Text → Option Text
first_field s = elim (take_word (trim_left s)) [ [] ↦ none | (c ∷ w) ↦ some (c ∷ w) ]
