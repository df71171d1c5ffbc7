-- ===== src/Prelude/Endian.antt =====
-- encoding/binary: fixed-width integers in little- and big-endian order, and reading them back.
use Prim.Native.Nat.{ℕ, zero, suc, ◌+◌, ◌*◌, ◌/◌, ◌%◌, ◌^◌, ◌<◌}
use mathlib.Core.Path.{◌≡◌, refl, ap, ◌∙◌}
use mathlib.Core.List.{List, [], ◌∷◌, reverse, reverse-reverse, reverse-append}
use native.Mathlib.Omega.{arith}
use native.Mathlib.Nat.{pow-suc}
use stateless_executor.Prelude.Lists.{length, length-append, All}

abbrev pub Bytes : Type 0
Bytes = List ℕ

abbrev pub IsByte : ℕ → Type 0
IsByte b = b < 256

abbrev pub IsU64 : ℕ → Type 0
IsU64 v = v < 2 ^ 64

-- The n low bytes of v, lowest first.
unfoldable pub le_bytes : ℕ → ℕ → Bytes
le_bytes zero v = []
le_bytes (suc n) v = v % 256 ∷ le_bytes n (v / 256)

unfoldable pub le_value : Bytes → ℕ
le_value [] = 0
le_value (b ∷ bs) = b + 256 * le_value bs

-- binary.BigEndian, as in PutUint16 and PutUint64.
unfoldable pub be_bytes : ℕ → ℕ → Bytes
unfolding le_bytes
be_bytes n v = reverse (le_bytes n v)

unfoldable pub be_value : Bytes → ℕ
unfolding le_value
be_value bs = le_value (reverse bs)

pub length-le_bytes : (n v : ℕ) → length (le_bytes n v) ≡ n
unfolding le_bytes
length-le_bytes zero v = refl
length-le_bytes (suc n) v = ap suc (length-le_bytes n (v / 256))

pub le_bytes-IsByte : (n v : ℕ) → All IsByte (le_bytes n v)
unfolding le_bytes
le_bytes-IsByte zero v = tt
le_bytes-IsByte (suc n) v = (omega arith, le_bytes-IsByte n (v / 256))

below_shift : (n v : ℕ) → v < 256 ^ suc n → v / 256 < 256 ^ n
below_shift n v h = omega (arith, pow-suc 256 n)

-- What was written is read back, if it fits the width.
pub le_value-le_bytes : (n v : ℕ) → v < 256 ^ n → le_value (le_bytes n v) ≡ v
unfolding le_bytes le_value
le_value-le_bytes zero v h = omega arith
le_value-le_bytes (suc n) v h = omega (arith, le_value-le_bytes n (v / 256) (below_shift n v h))

pub be_value-be_bytes : (n v : ℕ) → v < 256 ^ n → be_value (be_bytes n v) ≡ v
unfolding be_bytes be_value
be_value-be_bytes n v h = rw reverse-reverse (le_value-le_bytes n v h)

length-reverse : (bs : Bytes) → length (reverse bs) ≡ length bs
length-reverse [] = refl
length-reverse (b ∷ bs) =
    rw (reverse-append (b ∷ []) bs, length-append (reverse bs) (b ∷ []))
      (omega (arith, length-reverse bs))

pub length-be_bytes : (n v : ℕ) → length (be_bytes n v) ≡ n
unfolding be_bytes
length-be_bytes n v = length-reverse (le_bytes n v) ∙ length-le_bytes n v
