-- ===== src/Fixture/Ssz/Schema.antt =====
-- The schema id of fixture/encode_ssz.go: the fork in the high byte, the revision in the low one.
use stateless_executor.Prelude.{
  ℕ, zero, suc, ◌+◌, ◌*◌, ◌<◌, ◌≡◌, refl, Bool, true, ◌&&◌, ◌==◌, arith, ==_iff,
}
use stateless_executor.Fixture.Ssz.{schema_id_for}

-- A test at every number below a bound.
holds_below : ℕ → (ℕ → Bool) → Bool
holds_below zero p = true
holds_below (suc n) p = p n && holds_below n p

holds_below→holds : (n : ℕ) (p : ℕ → Bool) (i : ℕ) → holds_below n p ≡ true → i < n → p i ≡ true
unfolding holds_below
holds_below→holds zero p i h lt = absurd (omega arith)
holds_below→holds (suc n) p i h lt = ground (arith, holds_below→holds n p i)

every_fork : holds_below 256 (λ f. schema_id_for f == f * 256 + 1) ≡ true
unfolding holds_below schema_id_for
every_fork = refl

-- The schema id of a fork below 256 is the fork times 256 plus the revision 1.
pub schema_id_for-eq : (fork : ℕ) → fork < 256 → schema_id_for fork ≡ fork * 256 + 1
schema_id_for-eq fork h = (==_iff _ _).0 (holds_below→holds 256 _ fork every_fork h)
