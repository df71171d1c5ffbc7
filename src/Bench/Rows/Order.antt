-- ===== src/Bench/Rows/Order.antt =====
-- sortResults of bench/main.go: the order of the rows, and that ties keep the order of discovery.
use stateless_executor.Prelude.{
  ℕ, ◌≡◌, refl, sym, Bool, true, false, ◌&&◌, ◌||◌, List, All, arith, ltb, ◌==◌, Bool-cases, inl,
  inr,
}
use stateless_executor.Prelude.Text.{Text, text_eq, text_eq_refl, text_eq→eq}
use stateless_executor.Prelude.Sort.{
  sort, sort-perm, IsSorted, IsOrder, sort-IsSorted, sort_cong, pick_all, pick_all-sort,
}
use stateless_executor.Prelude.Sort.Orders.{ltb-IsOrder, text_then, text_then-IsOrder}
use stateless_executor.Fixture.Format.{Format}
use stateless_executor.Bench.Run.{BlockResult}
use stateless_executor.Bench.Rows.{row_less, is_zkevm, SliceStable, sort_results}
use mathlib.Core.Path.{subst}
use mathlib.Core.List.{Permᴰ}

-- By block number.
abbrev pub by_number : BlockResult → BlockResult → Bool
by_number a b = ltb a.block_num b.block_num

-- By suite, then label, then block number.
abbrev pub by_label : BlockResult → BlockResult → Bool
by_label a b = text_then a.suite b.suite (text_then a.label b.label (ltb a.block_num b.block_num))

by_number-IsOrder : IsOrder by_number
by_number-IsOrder = record {
  asym = λ a b. ltb-IsOrder.asym a.block_num b.block_num;
  trans = λ a b c. ltb-IsOrder.trans a.block_num b.block_num c.block_num;
}

by_label-IsOrder : IsOrder by_label
by_label-IsOrder =
    text_then-IsOrder (λ (r : BlockResult). r.suite)
      (λ a b. text_then a.label b.label (ltb a.block_num b.block_num))
      (text_then-IsOrder (λ (r : BlockResult). r.label) by_number by_number-IsOrder)

abbrev pub IsKind : Format → BlockResult → Type 0
IsKind k r = r.kind ≡ k

-- What the rows of one kind are sorted by.
abbrev pub order_of : Format → BlockResult → BlockResult → Bool
order_of Format.corpus = by_number
order_of Format.zkevm = by_label
order_of Format.unknown = by_number

row_less-of :
    (k : Format) (a b : BlockResult) → IsKind k a → IsKind k b → row_less a b ≡ order_of k a b
unfolding row_less
row_less-of Format.corpus a b h h' = rw (h, h') refl
row_less-of Format.zkevm a b h h' = rw h refl
row_less-of Format.unknown a b h h' = rw (h, h') refl

order_of-IsOrder : (k : Format) → IsOrder (order_of k)
order_of-IsOrder Format.corpus = by_number-IsOrder
order_of-IsOrder Format.zkevm = by_label-IsOrder
order_of-IsOrder Format.unknown = by_number-IsOrder

-- On the rows that P describes, one comparison agrees with another, a strict weak order.
pub record Orders (P : BlockResult → Type 0) (less order : BlockResult → BlockResult → Bool)
    : Type 0 where
  pub agrees : (a b : BlockResult) → P a → P b → less a b ≡ order a b
  pub is_order : IsOrder order

-- What the documentation of sort.SliceStable says: it rearranges the slice, and where the comparison
-- orders its elements, the slice is then sorted, and equal elements keep their order.
pub record IsStable (slice_stable : SliceStable) : Type 1 where
  pub perm :
      (less : BlockResult → BlockResult → Bool) (rs : List BlockResult)
      → Permᴰ rs (slice_stable less rs)
  pub sorted :
      (P : BlockResult → Type 0) (less order : BlockResult → BlockResult → Bool)
      (rs : List BlockResult)
      → Orders P less order
      → All P rs
      → IsSorted order (slice_stable less rs)
  pub stable :
      (P : BlockResult → Type 0) (less order : BlockResult → BlockResult → Bool)
      (rs : List BlockResult) (p : BlockResult → Bool)
      → Orders P less order
      → All P rs
      → ((a b : BlockResult) → p a ≡ true → p b ≡ true → less a b ≡ false)
      → pick_all p (slice_stable less rs) ≡ pick_all p rs

-- The insertion sort is one such sort.
pub insertion-IsStable : IsStable (λ less rs. sort less rs)
insertion-IsStable = record {
  perm = λ less rs. sort-perm less rs;
  sorted = λ P less order rs o all.
      subst (IsSorted order) (sym (sort_cong P less order o.agrees rs all))
        (sort-IsSorted order o.is_order rs);
  stable = λ P less order rs p o all alike. pick_all-sort less p alike rs;
}

row_less-Orders : (k : Format) → Orders (IsKind k) row_less (order_of k)
row_less-Orders k = record { agrees = row_less-of k; is_order = order_of-IsOrder k }

-- Given the documented behaviour of sort.SliceStable: rows of one kind come out sorted, corpus rows by
-- block number, and zkevm rows by suite, label and block number, and they are the rows that went in.
pub sort_results-IsSorted :
    (slice_stable : SliceStable) (k : Format) (rs : List BlockResult)
    → IsStable slice_stable
    → All (IsKind k) rs
    → IsSorted (order_of k) (sort_results slice_stable rs) × Permᴰ rs (sort_results slice_stable rs)
unfolding sort_results
sort_results-IsSorted slice_stable k rs s kinds =
    (s.sorted (IsKind k) row_less (order_of k) rs (row_less-Orders k) kinds, s.perm row_less rs)

-- A row of this suite, label and block number.
abbrev pub is_row : Text → Text → ℕ → BlockResult → Bool
is_row suite label n r = text_eq r.suite suite && (text_eq r.label label && (r.block_num == n))

all_three : (x y z : Bool) → (x && (y && z)) ≡ true → (x ≡ true) × (y ≡ true) × (z ≡ true)
all_three x y z h = ground arith

same_text : (s t u : Text) → text_eq s u ≡ true → text_eq t u ≡ true → text_eq s t ≡ true
same_text s t u h k =
    let e = text_eq→eq s u h in let e' = text_eq→eq t u k in let r = text_eq_refl u in cc (e, e', r)

is_row-alike :
    (suite label : Text) (n : ℕ) (a b : BlockResult)
    → is_row suite label n a ≡ true
    → is_row suite label n b ≡ true
    → row_less a b ≡ false
unfolding row_less
is_row-alike suite label n a b h k =
    let (suite_a, label_a, num_a) = all_three _ _ (a.block_num == n) h in
    let (suite_b, label_b, num_b) = all_three _ _ (b.block_num == n) k in
    let suites = same_text a.suite b.suite suite suite_a suite_b in
    let labels = same_text a.label b.label label label_a label_b in
    let numbers : ltb a.block_num b.block_num ≡ false = ground (arith, num_a, num_b) in
    elim (Bool-cases (is_zkevm a.kind || is_zkevm b.kind)) [
      | inl z ↦ cc (z, suites, labels, numbers)
      | inr c ↦ cc (c, numbers)
    ]

-- Given the documented behaviour of sort.SliceStable, and rows of one kind: those of one suite, label
-- and block number come out in the order in which they went in.
pub pick_all-sort_results :
    (slice_stable : SliceStable) (k : Format) (suite label : Text) (n : ℕ) (rs : List BlockResult)
    → IsStable slice_stable
    → All (IsKind k) rs
    → pick_all (is_row suite label n) (sort_results slice_stable rs)
      ≡ pick_all (is_row suite label n) rs
unfolding sort_results
pick_all-sort_results slice_stable k suite label n rs s kinds =
    s.stable (IsKind k) row_less (order_of k) rs (is_row suite label n) (row_less-Orders k) kinds
      (is_row-alike suite label n)
