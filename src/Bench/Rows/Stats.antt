-- ===== src/Bench/Rows/Stats.antt =====
-- computeStats of bench/main.go: the order of the values does not matter, and the four figures bound
-- them.
use stateless_executor.Prelude.{
  ℕ, zero, suc, ◌-◌, ◌*◌, ◌/◌, ◌%◌, ◌^◌, ◌≤◌, ◌<◌, ◌≡◌, ◌≢◌, ◌∙◌, refl, ap, sym, List, [], ◌∷◌,
  length, get_or, All, arith, ltb, false,
}
use stateless_executor.Prelude.Sort.{
  All-perm, length-perm, sort, sort-perm, IsSorted, sort-IsSorted,
}
use stateless_executor.Prelude.Sort.Orders.{ltb-IsOrder, sort-ltb-perm}
use stateless_executor.Bench.Rows.{sum, stats_of, compute_stats}
use native.Mathlib.Nat.{div-zero, le-div_iff_mul-le, div-le_of_le-mul, mul_comm, suc-mul}
use mathlib.Core.List.{Permᴰ}
use mathlib.Core.List.Permᴰ

All-get_or {κ} :
    (P : ℕ → Type κ) (xs : List ℕ) (k : ℕ) → All P xs → k < length xs → P (get_or xs k 0)
All-get_or P [] k h small = absurd (omega arith)
All-get_or P (x ∷ xs) zero (h, hs) small = h
All-get_or P (x ∷ xs) (suc k) (h, hs) small = All-get_or P xs k hs (omega arith)

All-from_get_or {κ} :
    (P : ℕ → Type κ) (xs : List ℕ) → ((k : ℕ) → k < length xs → P (get_or xs k 0)) → All P xs
All-from_get_or P [] h = tt
All-from_get_or P (x ∷ xs) h =
    (h 0 (omega arith), All-from_get_or P xs (λ k small. h (suc k) (omega arith)))

get_or_mono :
    (xs : List ℕ) (i j : ℕ)
    → IsSorted ltb xs
    → i ≤ j
    → j < length xs
    → get_or xs i 0 ≤ get_or xs j 0
get_or_mono [] i j s h small = absurd (omega arith)
get_or_mono (x ∷ xs) zero zero s h small = omega arith
get_or_mono (x ∷ xs) (suc i) zero s h small = absurd (omega arith)
get_or_mono (x ∷ xs) zero (suc j) (above, s) h small =
    let later = All-get_or (λ y. ltb y x ≡ false) xs j above (omega arith) in ground (arith, later)
get_or_mono (x ∷ xs) (suc i) (suc j) (above, s) h small =
    get_or_mono xs i j s (omega arith) (omega arith)

sum-perm : {xs ys : List ℕ} → Permᴰ xs ys → sum xs ≡ sum ys
unfolding sum
sum-perm Permᴰ.nil = refl
sum-perm (Permᴰ.cons e p) = omega (arith, e, sum-perm p)
sum-perm (Permᴰ.swap e e') = omega (arith, e, e')
sum-perm (Permᴰ.trans p q) = sum-perm p ∙ sum-perm q

sum-bounds :
    (lo hi : ℕ) (xs : List ℕ)
    → All (λ v. (lo ≤ v) × (v ≤ hi)) xs
    → (length xs * lo ≤ sum xs) × (sum xs ≤ length xs * hi)
unfolding sum
sum-bounds lo hi [] h = (omega arith, omega arith)
sum-bounds lo hi (x ∷ xs) ((low, high), h) =
    let (below, above) = sum-bounds lo hi xs h in
    (
      rw (suc-mul (length xs) lo) (omega (arith, below, low)),
      rw (suc-mul (length xs) hi) (omega (arith, above, high)),
    )

compute_stats-eq : (xs : List ℕ) → compute_stats xs ≡ stats_of (sort ltb xs)
unfolding compute_stats sort sum
compute_stats-eq [] = let zeros = div-zero 0 in cc zeros
compute_stats-eq (x ∷ xs) = refl

-- The statistics are of the values, whatever the order in which they come.
pub compute_stats-perm : {xs ys : List ℕ} → Permᴰ xs ys → compute_stats xs ≡ compute_stats ys
compute_stats-perm {xs} {ys} p =
    compute_stats-eq xs ∙ ap stats_of (sort-ltb-perm p) ∙ sym (compute_stats-eq ys)

-- Between these bounds, the average is one too.
average-bounds :
    (lo hi : ℕ) (xs : List ℕ)
    → 0 < length xs
    → All (λ v. (lo ≤ v) × (v ≤ hi)) xs
    → sum xs < 2 ^ 64
    → (lo ≤ sum xs % 2 ^ 64 / length xs) × (sum xs % 2 ^ 64 / length xs ≤ hi)
average-bounds lo hi xs some_values h fits =
    let (below, above) = sum-bounds lo hi xs h in
    let kept : sum xs % 2 ^ 64 ≡ sum xs = omega (arith, fits) in
    (
      rw kept ((le-div_iff_mul-le some_values).1 (omega (arith, mul_comm lo (length xs), below))),
      rw kept (div-le_of_le-mul (length xs) above),
    )

some_length : (xs : List ℕ) → xs ≢ [] → 0 < length xs
some_length [] h = absurd (h refl)
some_length (x ∷ xs) h = omega arith

-- For at least one value, and a sum that does not overflow a uint64: the minimum and the maximum
-- bound every value, the median and the average.
pub compute_stats-bounds :
    (vals : List ℕ)
    → vals ≢ []
    → sum vals < 2 ^ 64
    → All (λ v. ((compute_stats vals).min_cost ≤ v) × (v ≤ (compute_stats vals).max_cost)) vals
      × ((compute_stats vals).min_cost ≤ (compute_stats vals).p50)
      × ((compute_stats vals).p50 ≤ (compute_stats vals).max_cost)
      × ((compute_stats vals).min_cost ≤ (compute_stats vals).avg)
      × ((compute_stats vals).avg ≤ (compute_stats vals).max_cost)
compute_stats-bounds vals some_values fits =
    let s = sort ltb vals in
    let sorted = sort-IsSorted ltb ltb-IsOrder vals in
    let perm = sort-perm ltb vals in
    let size : 0 < length s = omega (arith, length-perm perm, some_length vals some_values) in
    let inside : All (λ v. (get_or s 0 0 ≤ v) × (v ≤ get_or s (length s - 1) 0)) s =
      All-from_get_or _ s (λ k small. (
        get_or_mono s 0 k sorted (omega arith) small,
        get_or_mono s k (length s - 1) sorted (omega (arith, small)) (omega (arith, size)),
      )) in
    let (above, below) =
      average-bounds (get_or s 0 0) (get_or s (length s - 1) 0) s size inside
        (omega (arith, sum-perm perm, fits)) in
    rw (compute_stats-eq vals) (
      All-perm _ (Permᴰ.symm perm) inside,
      get_or_mono s 0 (length s / 2) sorted (omega arith) (omega (arith, size)),
      get_or_mono s (length s / 2) (length s - 1) sorted (omega (arith, size))
          (omega (arith, size)),
      above,
      below,
    )
