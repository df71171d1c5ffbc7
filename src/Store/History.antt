-- ===== src/Store/History.antt =====
-- The ring buffer of store/store.go against the history of what was added to it.
use stateless_executor.Prelude.{
  ℕ, zero, suc, ◌+◌, ◌-◌, ◌%◌, ◌≤◌, ◌<◌, ◌≡◌, ◌≢◌, refl, sym, ap, ap₂, ◌∙◌, List, [], ◌∷◌, ◌++◌,
  foldl, length, get_or, drop, min, length-append, length-set, length-replicate, get_or-set_self,
  get_or-set_ne, arith, append_assoc, append-nil,
}
use stateless_executor.Store.{
  Result, no_result, capacity, RingBuffer, empty, add, index_at, all_from, all,
}
use native.Mathlib.Decide.{ℕ_discrete}

-- A buffer that holds the end of a history.
pub record Holds (r : RingBuffer) (rs : List Result) : Type 0 where
  pub size : length r.items ≡ capacity
  pub head_at : r.head ≡ length rs % capacity
  pub counted : r.count ≡ min (length rs) capacity
  pub kept :
      (n : ℕ)
      → length rs ≤ n + r.count
      → n < length rs
      → get_or r.items (n % capacity) no_result ≡ get_or rs n no_result

get_or-append_left :
    (xs ys : List Result) (n : ℕ)
    → n < length xs
    → get_or (xs ++ ys) n no_result ≡ get_or xs n no_result
get_or-append_left [] ys n h = absurd (omega arith)
get_or-append_left (x ∷ xs) ys zero h = refl
get_or-append_left (x ∷ xs) ys (suc n) h = get_or-append_left xs ys n (omega arith)

get_or-append_right :
    (xs : List Result) (y : Result) (n : ℕ)
    → n ≡ length xs
    → get_or (xs ++ (y ∷ [])) n no_result ≡ y
get_or-append_right [] y zero h = refl
get_or-append_right [] y (suc n) h = absurd (omega arith)
get_or-append_right (x ∷ xs) y zero h = absurd (omega arith)
get_or-append_right (x ∷ xs) y (suc n) h = get_or-append_right xs y n (omega arith)

drop-get_or :
    (xs : List Result) (n : ℕ) → n < length xs → drop n xs ≡ get_or xs n no_result ∷ drop (suc n) xs
drop-get_or [] n h = absurd (omega arith)
drop-get_or (x ∷ xs) zero h = refl
drop-get_or (x ∷ xs) (suc n) h = drop-get_or xs n (omega arith)

drop_all : (xs : List Result) (n : ℕ) → length xs ≤ n → drop n xs ≡ []
drop_all [] zero h = refl
drop_all [] (suc n) h = refl
drop_all (x ∷ xs) zero h = absurd (omega arith)
drop_all (x ∷ xs) (suc n) h = drop_all xs n (omega arith)

empty-Holds : Holds empty []
unfolding empty
empty-Holds = record {
  size = length-replicate capacity no_result;
  head_at = refl;
  counted = refl;
  kept = λ n h k. absurd (omega arith);
}

module _ {r : RingBuffer} {rs : List Result} (x : Result) (v : Holds r rs) where
  -- The count moves up to the capacity and stays there.
  count-add : (add r x).count ≡ min (length rs + 1) capacity
  unfolding add
  count-add = ground (arith, v.counted)

  add-kept :
      (n : ℕ)
      → length (rs ++ (x ∷ [])) ≤ n + (add r x).count
      → n < length (rs ++ (x ∷ []))
      → get_or (add r x).items (n % capacity) no_result ≡ get_or (rs ++ (x ∷ [])) n no_result
  unfolding add
  add-kept n h k =
      let size = length-append rs (x ∷ []) in
      elim (ℕ_discrete n (length rs)) [
        | yes e ↦
            let at : n % capacity ≡ r.head = omega (arith, v.head_at, e) in
            rw at (get_or-set_self r.items r.head x no_result (omega (arith, v.size, v.head_at)))
            ∙ sym (get_or-append_right rs x n e)
        | no ne ↦
            get_or-set_ne r.items r.head (n % capacity) x no_result
              (older n (omega (arith, size, ne)) (omega (arith, h, size, count-add)))
            ∙ v.kept n (omega (arith, h, size, count-add, v.counted)) (omega (arith, size, ne))
            ∙ sym (get_or-append_left rs (x ∷ []) n (omega (arith, size, ne)))
      ]
    where
      older : (n : ℕ) → n < length rs → length rs < n + capacity → r.head ≢ n % capacity
      older n a b = omega (arith, v.head_at)

  -- Adding a result keeps the buffer at the end of the longer history.
  add-Holds : Holds (add r x) (rs ++ (x ∷ []))
  unfolding add
  add-Holds = record {
    size = length-set r.items r.head x ∙ v.size;
    head_at = omega (arith, v.head_at, length-append rs (x ∷ []));
    counted = ground (arith, v.counted, length-append rs (x ∷ []));
    kept = add-kept;
  }

add_all-Holds :
    (xs rs : List Result) {r : RingBuffer} → Holds r rs → Holds (foldl add r xs) (rs ++ xs)
add_all-Holds [] rs v = rw append-nil v
add_all-Holds (x ∷ xs) rs v = rw append_assoc at (add_all-Holds xs (rs ++ (x ∷ [])) (add-Holds x v))

all_from-drop :
    (n i : ℕ) {r : RingBuffer} {rs : List Result}
    → Holds r rs
    → i + n ≡ r.count
    → all_from r i n ≡ drop (length rs - r.count + i) rs
unfolding all_from
all_from-drop zero i {r} {rs} v h =
    sym (drop_all rs (length rs - r.count + i) (omega (arith, v.counted)))
all_from-drop (suc n) i {r} {rs} v h =
    let m = length rs - r.count + i in
    let at : index_at r i ≡ m % capacity = omega (arith, v.head_at, v.counted) in
    let next : length rs - r.count + (i + 1) ≡ suc m = omega arith in
    let here : get_or r.items (index_at r i) no_result ≡ get_or rs m no_result =
      rw at (v.kept m (omega (arith, v.counted)) (omega (arith, v.counted))) in
    ap₂ ◌∷◌ here (all_from-drop n (i + 1) v (omega arith) ∙ ap (λ (k : ℕ). drop k rs) next)
    ∙ sym (drop-get_or rs m (omega (arith, v.counted)))

-- After any calls of Add on an empty buffer, All returns the last 1000 results, oldest first.
pub all-add : (rs : List Result) → all (foldl add empty rs) ≡ drop (length rs - capacity) rs
unfolding all
all-add rs =
    let v = add_all-Holds rs [] empty-Holds in
    all_from-drop (foldl add empty rs).count 0 v (omega arith)
    ∙ ap (λ (k : ℕ). drop k rs) (omega (arith, v.counted))
