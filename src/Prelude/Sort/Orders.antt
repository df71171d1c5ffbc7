-- ===== src/Prelude/Sort/Orders.antt =====
-- The orders that the program sorts by: < of numbers and < of strings, byte by byte.
use Prim.Native.Nat.{ℕ}
use mathlib.Core.Path.{◌≡◌, refl}
use mathlib.Core.Bool.{Bool, true, false, not}
use mathlib.Core.Logic.{inl, inr}
use mathlib.Core.List.{List, [], ◌∷◌, Permᴰ}
use native.Mathlib.Omega.{arith}
use stateless_executor.Prelude.Tests.{if◌then◌else◌, ltb, ◌==◌, Bool-cases}
use stateless_executor.Prelude.Text.{Text, text_eq, text_eq_refl, text_eq→eq}
use stateless_executor.Prelude.Sort.{IsOrder, sort, sort_eq_of_perm}

pub ltb-IsOrder : IsOrder ltb
ltb-IsOrder = record { asym = λ a b h. ground arith; trans = λ a b c h k. ground arith }

ltb-antisym : (a b : ℕ) → ltb a b ≡ false → ltb b a ≡ false → a ≡ b
ltb-antisym a b h k = ground arith

pub sort-ltb-perm : {xs ys : List ℕ} → Permᴰ xs ys → sort ltb xs ≡ sort ltb ys
sort-ltb-perm p = sort_eq_of_perm ltb ltb-IsOrder ltb-antisym p

-- s < t
abbrev pub text_lt : Text → Text → Bool
text_lt [] [] = false
text_lt [] (d ∷ t) = true
text_lt (c ∷ s) [] = false
text_lt (c ∷ s) (d ∷ t) = let rest = text_lt s t in if c == d then rest else ltb c d

pub text_lt-antisym : (s t : Text) → text_lt s t ≡ false → text_lt t s ≡ false → s ≡ t
text_lt-antisym [] [] h k = refl
text_lt-antisym [] (d ∷ t) h k = cc
text_lt-antisym (c ∷ s) [] h k = cc
text_lt-antisym (c ∷ s) (d ∷ t) h k = ground (arith, text_lt-antisym s t)

text_lt-asym : (s t : Text) → text_lt s t ≡ true → text_lt t s ≡ false
text_lt-asym [] [] h = refl
text_lt-asym [] (d ∷ t) h = refl
text_lt-asym (c ∷ s) [] h = cc
text_lt-asym (c ∷ s) (d ∷ t) h = ground (arith, text_lt-asym s t)

text_lt_trans : (s t u : Text) → text_lt t s ≡ false → text_lt u t ≡ false → text_lt u s ≡ false
text_lt_trans [] [] u h k = k
text_lt_trans [] (d ∷ t) [] h k = cc
text_lt_trans [] (d ∷ t) (e ∷ u) h k = refl
text_lt_trans (c ∷ s) [] u h k = cc
text_lt_trans (c ∷ s) (d ∷ t) [] h k = cc
text_lt_trans (c ∷ s) (d ∷ t) (e ∷ u) h k = ground (arith, text_lt_trans s t u)

pub text_lt-IsOrder : IsOrder text_lt
text_lt-IsOrder = record { asym = text_lt-asym; trans = text_lt_trans }

-- sort.Strings gives one result for every order of its input.
pub sort-text_lt-perm : {xs ys : List Text} → Permᴰ xs ys → sort text_lt xs ≡ sort text_lt ys
sort-text_lt-perm p = sort_eq_of_perm text_lt text_lt-IsOrder text_lt-antisym p

-- By a text first, and where that is the same by something else.
abbrev pub text_then : Text → Text → Bool → Bool
text_then s t rest = if not (text_eq s t) then text_lt s t else rest

text_eq-false : (s t : Text) → text_eq s t ≡ false → text_eq t s ≡ false
text_eq-false s t h = elim (Bool-cases (text_eq t s)) [
  | inr other ↦ other
  | inl same ↦ let e = text_eq→eq t s same in let r = text_eq_refl s in cc (e, r, h)
]

text_then-asym :
    (s t : Text) (p q : Bool)
    → (p ≡ true → q ≡ false)
    → text_then s t p ≡ true
    → text_then t s q ≡ false
text_then-asym s t p q rest h = elim (Bool-cases (text_eq s t)) [
  | inl same ↦
      let e = text_eq→eq s t same in
      let r = text_eq_refl s in
      let p-true : p ≡ true = cc (same, h) in let q-false = rest p-true in cc (e, r, q-false)
  | inr differ ↦
      let back = text_eq-false s t differ in
      let lt : text_lt s t ≡ true = cc (differ, h) in let ge = text_lt-asym s t lt in cc (back, ge)
]

text_lt_irrefl : (s : Text) → text_lt s s ≡ false
text_lt_irrefl s = elim (Bool-cases (text_lt s s)) [ inr ge ↦ ge | inl lt ↦ text_lt-asym s s lt ]

text_then-ge : (s t : Text) (p : Bool) → text_then s t p ≡ false → text_lt s t ≡ false
text_then-ge s t p h = elim (Bool-cases (text_eq s t)) [
  | inl same ↦ let e = text_eq→eq s t same in let r = text_lt_irrefl s in cc (e, r)
  | inr differ ↦ cc (differ, h)
]

text_then-same : (s t : Text) (p : Bool) → s ≡ t → text_then s t p ≡ false → p ≡ false
text_then-same s t p e h = let r = text_eq_refl s in cc (e, r, h)

text_then_trans :
    (s t u : Text) (p q r : Bool)
    → (p ≡ false → q ≡ false → r ≡ false)
    → text_then t s p ≡ false
    → text_then u t q ≡ false
    → text_then u s r ≡ false
text_then_trans s t u p q r rest h k =
    let ts = text_then-ge t s p h in
    let ut = text_then-ge u t q k in
    let us = text_lt_trans s t u ts ut in
    elim (Bool-cases (text_eq u s)) [
      | inr differ ↦ cc (differ, us)
      | inl same ↦
          let e = text_eq→eq u s same in
          let st : text_lt s t ≡ false = cc (e, ut) in
          let e' = text_lt-antisym t s ts st in
          let e'' : u ≡ t = cc (e, e') in
          let done = rest (text_then-same t s p e' h) (text_then-same u t q e'' k) in
          cc (same, done)
    ]

-- A strict weak order behind a text is one.
pub text_then-IsOrder {ℓ} :
    {A : Type ℓ} (key : A → Text) (less : A → A → Bool)
    → IsOrder less
    → IsOrder (λ a b. text_then (key a) (key b) (less a b))
text_then-IsOrder key less o = record {
  asym = λ a b. text_then-asym (key a) (key b) (less a b) (less b a) (o.asym a b);
  trans = λ a b c.
      text_then_trans (key a) (key b) (key c) (less b a) (less c b) (less c a) (o.trans a b c);
}
