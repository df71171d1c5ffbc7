-- ===== src/Fixture/Ssz/Uint256.antt =====
-- fixture/encode_ssz.go, sszUint256: 32 bytes, lowest first, or a panic.
use stateless_executor.Prelude.{
  ℕ, zero, suc, ◌+◌, ◌-◌, ◌/◌, ◌%◌, ◌^◌, ◌≤◌, ◌<◌, ◌≡◌, refl, sym, ap, ap₂, ◌∙◌, true, [], ◌∷◌,
  ◌++◌, length, set, drop, replicate, ltb, length-append, length-set, length-replicate, arith,
  append_assoc, lt→ltb, le→ltb, if◌then◌else◌,
}
use stateless_executor.Prelude.Errors.{Result, ok, panic}
use stateless_executor.Prelude.Endian.{Bytes, le_bytes}
use stateless_executor.Prelude.Int.{ℤ, pos, negsuc}
use stateless_executor.Fixture.Ssz.{digits256, big_bytes, reverse_into, ssz_uint256}
use mathlib.Core.List.{reverse, reverse-append, reverse-reverse}
use native.Mathlib.Nat.{pow-suc}
use native.Mathlib.Decide.{dec_lt}

le_bytes-zero : (n : ℕ) → le_bytes n 0 ≡ replicate n 0
unfolding le_bytes
le_bytes-zero zero = refl
le_bytes-zero (suc n) = ap (λ (t : Bytes). 0 ∷ t) (le_bytes-zero n)

digits256-zero : (fuel : ℕ) → digits256 fuel 0 ≡ []
unfolding digits256
digits256-zero zero = refl
digits256-zero (suc fuel) = refl

digits256-step : (fuel v : ℕ) → 0 < v → digits256 (suc fuel) v ≡ v % 256 ∷ digits256 fuel (v / 256)
unfolding digits256
digits256-step fuel v h = ground arith

pad_zero : (n : ℕ) → (0 ≤ n) × (replicate (n - 0) 0 ≡ le_bytes n 0)
pad_zero n = (omega arith, ap (λ (k : ℕ). replicate k 0) (omega arith) ∙ sym (le_bytes-zero n))

-- The digits and the zeros behind them are the fixed-width form.
digits256-pad :
    (n fuel v : ℕ)
    → v ≤ fuel
    → v < 256 ^ n
    → (length (digits256 fuel v) ≤ n)
      × (digits256 fuel v ++ replicate (n - length (digits256 fuel v)) 0 ≡ le_bytes n v)
unfolding le_bytes
digits256-pad n zero v h k = let e : v ≡ 0 = omega arith in rw (e, digits256-zero) (pad_zero n)
digits256-pad zero (suc fuel) v h k =
    let e : v ≡ 0 = omega arith in rw (e, digits256-zero) (pad_zero 0)
digits256-pad (suc n) (suc fuel) v h k = elim (dec_lt 0 v) [
  | no e ↦ let e' : v ≡ 0 = omega arith in rw (e', digits256-zero) (pad_zero (suc n))
  | yes e ↦
      let (shorter, same) =
        digits256-pad n fuel (v / 256) (omega arith) (omega (arith, pow-suc 256 n)) in
      rw (digits256-step fuel v e) (
        omega arith,
        ap (λ (t : Bytes). v % 256 ∷ t)
            (ap (λ (i : ℕ). digits256 fuel (v / 256) ++ replicate i 0) (omega arith) ∙ same),
      )
]

pow_pos : (n : ℕ) → 0 < 256 ^ n
pow_pos zero = omega arith
pow_pos (suc n) = omega (arith, pow-suc 256 n, pow_pos n)

-- Too large a number has more digits than the width.
digits256-long : (n fuel v : ℕ) → v ≤ fuel → 256 ^ n ≤ v → n < length (digits256 fuel v)
digits256-long n zero v h k = absurd (omega (arith, pow_pos n))
digits256-long zero (suc fuel) v h k = rw (digits256-step fuel v k) (omega arith)
digits256-long (suc n) (suc fuel) v h k =
    let positive : 0 < v = omega (arith, pow_pos (suc n)) in
    rw (digits256-step fuel v positive)
      (omega (arith, digits256-long n fuel (v / 256) (omega arith) (omega (arith, pow-suc 256 n))))

length-reverse : (bs : Bytes) → length (reverse bs) ≡ length bs
length-reverse [] = refl
length-reverse (b ∷ bs) =
    rw (reverse-append (b ∷ []) bs)
      (omega (arith, length-append (reverse bs) (b ∷ []), length-reverse bs))

drop-set : (xs : Bytes) (i x : ℕ) → i < length xs → drop i (set xs i x) ≡ x ∷ drop (suc i) xs
drop-set [] i x h = absurd (omega arith)
drop-set (y ∷ xs) zero x h = refl
drop-set (y ∷ xs) (suc i) x h = drop-set xs i x (omega arith)

reverse_into_step :
    (n i x : ℕ) (nb b : Bytes)
    → ltb (n - 1 - i) (length b) ≡ true
    → reverse_into n i (x ∷ nb) b ≡ reverse_into n (i + 1) nb (set b (n - 1 - i) x)
unfolding reverse_into
reverse_into_step n i x nb b h = rw (h, reverse_into)

-- The loop that is left with `nb` writes it backwards over the first bytes of `b`.
reverse_into-ok :
    (n i : ℕ) (nb b : Bytes)
    → n ≡ i + length nb
    → length nb ≤ length b
    → reverse_into n i nb b ≡ ok (reverse nb ++ drop (length nb) b)
unfolding reverse_into
reverse_into-ok n i [] b h k = refl
reverse_into-ok n i (x ∷ nb) b h k =
    let e : n - 1 - i ≡ length nb = omega arith in
    let inside : ltb (n - 1 - i) (length b) ≡ true = lt→ltb (n - 1 - i) (length b) (omega arith) in
    reverse_into_step n i x nb b inside
    ∙ rw e (
        reverse_into-ok n (i + 1) nb (set b (length nb) x) (omega arith)
          (omega (arith, length-set b (length nb) x))
        ∙ ap ok (
            ap (λ (t : Bytes). reverse nb ++ t) (drop-set b (length nb) x (omega arith))
            ∙ sym (append_assoc (reverse nb) (x ∷ []) (drop (suc (length nb)) b))
            ∙ ap (λ (t : Bytes). t ++ drop (suc (length nb)) b) (sym (reverse-append (x ∷ []) nb))))

drop-replicate : (k n : ℕ) → drop {A = ℕ} k (replicate n 0) ≡ replicate (n - k) 0
drop-replicate zero n = ap (λ (i : ℕ). replicate i 0) (omega arith)
drop-replicate (suc k) zero =
    let e : 0 ≡ 0 - suc k = omega arith in ap (λ (i : ℕ). replicate {A = ℕ} i 0) e
drop-replicate (suc k) (suc n) = drop-replicate k n ∙ ap (λ (i : ℕ). replicate i 0) (omega arith)

length-big_bytes : (n : ℕ) → length (big_bytes n) ≡ length (digits256 n n)
unfolding big_bytes
length-big_bytes n = length-reverse (digits256 n n)

reverse-big_bytes : (n : ℕ) → reverse (big_bytes n) ≡ digits256 n n
unfolding big_bytes
reverse-big_bytes n = reverse-reverse (digits256 n n)

written :
    (n width : ℕ)
    → n < 256 ^ width
    → reverse_into (length (big_bytes n)) 0 (big_bytes n) (replicate width 0)
      ≡ ok (le_bytes width n)
written n width h =
    let (shorter, same) = digits256-pad width n n (omega arith) h in
    let size = length-big_bytes n in
    reverse_into-ok (length (big_bytes n)) 0 (big_bytes n) (replicate width 0) (omega arith)
      (omega (arith, length-replicate {0} {A = ℕ} width 0))
    ∙ ap ok (
        ap₂ ◌++◌ (reverse-big_bytes n) (
          ap (λ (k : ℕ). drop k (replicate width 0)) size
          ∙ drop-replicate (length (digits256 n n)) width)
        ∙ same)

ssz_uint256-positive :
    (n : ℕ)
    → 0 < n
    → ssz_uint256 (pos n) ≡ reverse_into (length (big_bytes n)) 0 (big_bytes n) (replicate 32 0)
unfolding ssz_uint256
ssz_uint256-positive n h = rw (lt→ltb 0 n h, ssz_uint256)

reverse_into-panic : (nb b : Bytes) → length b < length nb → reverse_into (length nb) 0 nb b ≡ panic
unfolding reverse_into
reverse_into-panic [] b h = absurd (omega arith)
reverse_into-panic (x ∷ nb) b h = ground arith

-- Total on every integer: a number below 2^256 takes 32 bytes, lowest first, a negative one is
-- written as zeros, and a larger one panics.
pub ssz_uint256-cases :
    ((n : ℕ) → n < 256 ^ 32 → ssz_uint256 (pos n) ≡ ok (le_bytes 32 n))
    × ((n : ℕ) → 256 ^ 32 ≤ n → ssz_uint256 (pos n) ≡ panic)
    × ((n : ℕ) → ssz_uint256 (negsuc n) ≡ ok (le_bytes 32 0))
unfolding ssz_uint256
ssz_uint256-cases = (fits, too_large, λ n. ap ok (sym (le_bytes-zero 32)))
  where
    fits : (n : ℕ) → n < 256 ^ 32 → ssz_uint256 (pos n) ≡ ok (le_bytes 32 n)
    fits zero h = ap ok (sym (le_bytes-zero 32))
    fits (suc n) h = ssz_uint256-positive (suc n) (omega arith) ∙ written (suc n) 32 h

    too_large : (n : ℕ) → 256 ^ 32 ≤ n → ssz_uint256 (pos n) ≡ panic
    too_large zero h = absurd (omega arith)
    too_large (suc n) h =
        ssz_uint256-positive (suc n) (omega arith)
        ∙ reverse_into-panic (big_bytes (suc n)) (replicate 32 0) (
            omega
              (arith, length-big_bytes (suc n), digits256-long 32 (suc n) (suc n) (omega arith) h))

-- What the encoding of an integer in 32 bytes, lowest first, is.
abbrev pub uint256_or_panic : ℤ → Result Bytes
uint256_or_panic (pos n) = if ltb n (256 ^ 32) then ok (le_bytes 32 n) else panic
uint256_or_panic (negsuc n) = ok (le_bytes 32 0)

-- A number below 2^256 takes 32 bytes, lowest first, a negative one is written as 32 zeros, and a
-- larger one panics.
pub ssz_uint256-eq : (z : ℤ) → ssz_uint256 z ≡ uint256_or_panic z
ssz_uint256-eq (negsuc n) = ssz_uint256-cases.2 n
ssz_uint256-eq (pos n) = elim (dec_lt n (256 ^ 32)) [
  | yes h ↦ rw (lt→ltb n (256 ^ 32) h) (ssz_uint256-cases.0 n h)
  | no h ↦
      let h' : 256 ^ 32 ≤ n = omega arith in rw (le→ltb n (256 ^ 32) h') (ssz_uint256-cases.1 n h')
]
