-- ===== src/Pool/Robin.antt =====
-- Pick of pool/pool.go takes the nodes in turn.
use stateless_executor.Prelude.{
  ℕ, zero, suc, ◌+◌, ◌-◌, ◌%◌, ◌^◌, ◌<◌, ◌≡◌, refl, List, [], ◌∷◌, length, get_or, arith, ap,
}
use stateless_executor.Prelude.Text.{Text}
use stateless_executor.Pool.{Pool, fresh, next, pick}

-- The pool after some calls of Pick.
unfoldable pub picked : ℕ → Pool → Pool
picked zero p = p
picked (suc k) p = picked k (pick p).1

module _ (n : Text) (ns : List Text) where
  -- The pool on these nodes, with its counter at a value.
  abbrev turned : ℕ → Pool
  turned r = record (fresh (n ∷ ns)) { robin = r }

  pick-turned :
      (r : ℕ)
      → r + 1 < 2 ^ 64
      → pick (turned r) ≡ (get_or (n ∷ ns) (r % length (n ∷ ns)) [], turned (r + 1))
  unfolding pick next
  pick-turned r h =
      let up : (r + 1) % 2 ^ 64 ≡ r + 1 = omega arith in
      let down : (r + 1 + 2 ^ 64 - 1) % 2 ^ 64 ≡ r = omega arith in rw (up, down) refl

  picked-turned : (k r : ℕ) → k + r < 2 ^ 64 → picked k (turned r) ≡ turned (k + r)
  unfolding picked
  picked-turned zero r h = ap turned (omega arith)
  picked-turned (suc k) r h =
      rw (pick-turned r (omega arith), picked-turned k (r + 1) (omega arith))
        (ap turned (omega arith))

  -- As long as the counter has not wrapped around, the call of Pick after k others returns the node
  -- at k modulo their number.
  pub pick-picked :
      (k : ℕ)
      → k + 1 < 2 ^ 64
      → (pick (picked k (fresh (n ∷ ns)))).0 ≡ get_or (n ∷ ns) (k % length (n ∷ ns)) []
  pick-picked k h =
      let at : k + 0 ≡ k = omega arith in
      rw (picked-turned k 0 (omega arith), at, pick-turned k h) refl
