-- ===== src/Prelude/Errors.antt =====
-- Go's (value, error) returns. An error keeps its message and what it wraps, `errors.Is` included;
-- a panic is an outcome of its own.
use Prim.Native.Nat.{ℕ}
use Prim.Native.String.{String}
use mathlib.Core.Path.{◌≡◌, refl, ap, ◌∙◌}
use mathlib.Core.List.{List}

pub data Error : Type 0 where
  -- The sentinel of fixture/encode.go, compared by errors.Is.
  missing_stateless_input_bytes : Error
  -- A fresh message of fmt.Errorf, with the numbers that it prints.
  message : String → List ℕ → Error
  -- fmt.Errorf("label: %w") and fmt.Errorf("label[i]: %w").
  wrap : String → Error → Error
  wrap_at : String → ℕ → Error → Error
  -- An error value of the standard library or of another package, told apart by a code.
  external : ℕ → Error

pub data Result {ℓ} (A : Type ℓ) : Type ℓ where
  ok : A → Result A
  err : Error → Result A
  panic : Result A

infixl 5 ◌>>=◌ ◌>>◌
abbrev pub ◌>>=◌ {ℓ κ} : {A : Type ℓ} {B : Type κ} → Result A → (A → Result B) → Result B
panic >>= rest = panic
err e >>= rest = err e
ok mid >>= rest = rest mid

abbrev pub ◌>>◌ {ℓ} : {B : Type ℓ} → Result (Unit {0}) → Result B → Result B
call >> next = call >>= λ _. next

-- if err != nil { return fmt.Errorf("label: %w", err) }
abbrev pub wrapping {ℓ} : {A : Type ℓ} → String → Result A → Result A
wrapping s (ok a) = ok a
wrapping s (err e) = err (wrap s e)
wrapping s panic = panic

abbrev pub wrapping_at {ℓ} : {A : Type ℓ} → String → ℕ → Result A → Result A
wrapping_at s i (ok a) = ok a
wrapping_at s i (err e) = err (wrap_at s i e)
wrapping_at s i panic = panic

-- What a call whose caller succeeds has returned.
module _ {ℓ κ} {A : Type ℓ} {B : Type κ} where
  pub >>=-eq-ok :
      (call : Result A) (rest : A → Result B) {out : B}
      → (call >>= rest) ≡ ok out
      → (mid : A) × (call ≡ ok mid) × (rest mid ≡ ok out)
  >>=-eq-ok (ok mid) rest same = (mid, refl, same)
  >>=-eq-ok (err e) rest same = cc
  >>=-eq-ok panic rest same = cc

  -- A call that succeeds, before a rest that does.
  pub >>=-ok :
      (call : Result A) (rest : A → Result B) {mid : A}
      → call ≡ ok mid
      → (out : B) × (rest mid ≡ ok out)
      → (out : B) × ((call >>= rest) ≡ ok out)
  >>=-ok call rest made (out, same) = (out, ap (λ (c : Result A). c >>= rest) made ∙ same)

pub wrapping-eq-ok {ℓ} :
    {A : Type ℓ} (s : String) (m : Result A) {a : A} → wrapping s m ≡ ok a → m ≡ ok a
wrapping-eq-ok s (ok a) h = h
wrapping-eq-ok s (err e) h = cc
wrapping-eq-ok s panic h = cc

pub wrapping_at-eq-ok {ℓ} :
    {A : Type ℓ} (s : String) (i : ℕ) (m : Result A) {a : A} → wrapping_at s i m ≡ ok a → m ≡ ok a
wrapping_at-eq-ok s i (ok a) h = h
wrapping_at-eq-ok s i (err e) h = cc
wrapping_at-eq-ok s i panic h = cc
