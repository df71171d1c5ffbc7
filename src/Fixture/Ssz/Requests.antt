-- ===== src/Fixture/Ssz/Requests.antt =====
-- fixture/encode_ssz.go, encodeSszExecutionRequests.
use stateless_executor.Prelude.{
  ℕ, zero, suc, ◌+◌, ◌-◌, ◌*◌, ◌^◌, ◌≤◌, ◌<◌, ◌≡◌, refl, sym, ap, ◌∙◌, List, [], ◌∷◌, ◌++◌, length,
  set, replicate, length-append, length-replicate, arith, append_assoc, append-nil,
}
use stateless_executor.Prelude.Errors.{ok, >>=-eq-ok}
use stateless_executor.Prelude.Endian.{Bytes, length-le_bytes}
use stateless_executor.Fixture.Ssz.{
  u32, concat, file_requests, list_offsets, encode_ssz_execution_requests,
}
use stateless_executor.Fixture.Ssz.Sections.{sections, sections-concat}
use stateless_executor.Fixture.Ssz.Decode.{total, length-concat}

-- A request in the Engine API form for each section that is not empty, from type t on.
unfoldable pub requests_from : ℕ → List Bytes → List Bytes
requests_from t [] = []
requests_from t ([] ∷ ls) = requests_from (t + 1) ls
requests_from t ((b ∷ bs) ∷ ls) = (t ∷ b ∷ bs) ∷ requests_from (t + 1) ls

unfoldable pub read_requests : Bytes → List Bytes
unfolding requests_from
read_requests bs = requests_from 0 (sections bs)

-- Types ascend, lie below 5, and every request holds data.
abbrev pub IsAscending : ℕ → List Bytes → Type 0
IsAscending next [] = Unit
IsAscending next ([] ∷ rs) = ⊥
IsAscending next ((t ∷ []) ∷ rs) = ⊥
IsAscending next ((t ∷ d ∷ ds) ∷ rs) = (next ≤ t) × (t < 5) × IsAscending (t + 1) rs

set-append :
    (front xs : List Bytes) (i j : ℕ) (v : Bytes)
    → i ≡ length front + j
    → set (front ++ xs) i v ≡ front ++ set xs j v
set-append [] xs i j v h = ap (λ (n : ℕ). set xs n v) (omega arith)
set-append (x ∷ front) xs zero j v h = absurd (omega arith)
set-append (x ∷ front) xs (suc i) j v h =
    ap (λ (t : List Bytes). x ∷ t) (set-append front xs i j v (omega arith))

abbrev empties : ℕ → List Bytes
empties n = replicate n []

set-empties :
    (n i : ℕ) (v : Bytes) → i < n → set (empties n) i v ≡ empties i ++ (v ∷ empties (n - 1 - i))
set-empties zero i v h = absurd (omega arith)
set-empties (suc n) zero v h = ap (λ (k : ℕ). v ∷ empties k) (omega arith)
set-empties (suc n) (suc i) v h =
    ap (λ (t : List Bytes). [] ∷ t)
      (set-empties n i v (omega arith) ∙ ap (λ (k : ℕ). empties i ++ (v ∷ empties k)) (omega arith))

requests_from-empties :
    (n t t' : ℕ) (ls : List Bytes)
    → t' ≡ t + n
    → requests_from t (empties n ++ ls) ≡ requests_from t' ls
unfolding requests_from
requests_from-empties zero t t' ls h = ap (λ (k : ℕ). requests_from k ls) (omega arith)
requests_from-empties (suc n) t t' ls h = requests_from-empties n (t + 1) t' ls (omega arith)

requests_from-nil : (t : ℕ) → requests_from t [] ≡ []
unfolding requests_from
requests_from-nil t = refl

requests_from-cons :
    (t d : ℕ) (ds : Bytes) (ls : List Bytes)
    → requests_from t ((d ∷ ds) ∷ ls) ≡ (t ∷ d ∷ ds) ∷ requests_from (t + 1) ls
unfolding requests_from
requests_from-cons t d ds ls = refl

-- What the loop makes of its lists, when the first `next` of them are `front` and none is filled
-- behind.
record Filed (next : ℕ) (front rs out : List Bytes) : Type 0 where
  filled : List Bytes
  shape : out ≡ front ++ filled
  count : length filled + next ≡ 5
  back : requests_from next filled ≡ rs

-- One round that does not fail.
filed_step :
    (next t d : ℕ) (ds : Bytes) (rs lists : List Bytes) {out : List Bytes}
    → file_requests next lists ((t ∷ d ∷ ds) ∷ rs) ≡ ok out
    → (next ≤ t) × (t < 5) × (file_requests (t + 1) (set lists t (d ∷ ds)) rs ≡ ok out)
unfolding file_requests
filed_step next t d ds rs lists e = ground arith

file_requests-Filed :
    (rs : List Bytes) (next : ℕ) (front out : List Bytes)
    → length front ≡ next
    → next ≤ 5
    → file_requests next (front ++ empties (5 - next)) rs ≡ ok out
    → Filed next front rs out × IsAscending next rs
unfolding file_requests
file_requests-Filed [] next front out h k e = (
  record {
    filled = empties (5 - next);
    shape = ground arith;
    count = omega (arith, length-replicate {0} {A = Bytes} (5 - next) []);
    back =
        ap (requests_from next) (sym (append-nil (empties (5 - next))))
        ∙ requests_from-empties (5 - next) next (next + (5 - next)) [] refl
        ∙ requests_from-nil (next + (5 - next));
  },
  tt,
)
file_requests-Filed ([] ∷ rs) next front out h k e = cc
file_requests-Filed ((t ∷ []) ∷ rs) next front out h k e = cc
file_requests-Filed ((t ∷ d ∷ ds) ∷ rs) next front out h k e =
    let (low, high, e') = filed_step next t d ds rs (front ++ empties (5 - next)) e in
    let front' = front ++ (empties (t - next) ++ ((d ∷ ds) ∷ [])) in
    let data' : Bytes = d ∷ ds in
    let moved : set (front ++ empties (5 - next)) t data' ≡ front' ++ empties (5 - (t + 1)) =
      set-append front (empties (5 - next)) t (t - next) data' (omega arith)
      ∙ ap (λ (x : List Bytes). front ++ x)
          (set-empties (5 - next) (t - next) data' (omega arith)
            ∙ ap (λ (k : ℕ). empties (t - next) ++ (data' ∷ empties k)) (omega arith))
      ∙ ap (λ (x : List Bytes). front ++ x)
          (sym (append_assoc (empties (t - next)) (data' ∷ []) (empties (5 - (t + 1)))))
      ∙ sym (append_assoc front (empties (t - next) ++ (data' ∷ [])) (empties (5 - (t + 1)))) in
    let size : length front' ≡ t + 1 = omega (
      arith,
      length-append front (empties (t - next) ++ (data' ∷ [])),
      length-append (empties (t - next)) (data' ∷ []),
      length-replicate {0} {A = Bytes} (t - next) [],
    ) in
    let (f, asc) = file_requests-Filed rs (t + 1) front' out size (omega arith) (rw moved at e') in
    let fill = empties (t - next) ++ (data' ∷ f.filled) in
    (
      record {
        filled = fill;
        shape =
            f.shape
            ∙ append_assoc front (empties (t - next) ++ (data' ∷ [])) f.filled
            ∙ ap (λ (x : List Bytes). front ++ x)
                (append_assoc (empties (t - next)) (data' ∷ []) f.filled);
        count = omega (
          arith,
          f.count,
          length-append (empties (t - next)) (data' ∷ f.filled),
          length-replicate {0} {A = Bytes} (t - next) [],
        );
        back =
            requests_from-empties (t - next) next t (data' ∷ f.filled) (omega arith)
            ∙ requests_from-cons t d ds f.filled
            ∙ ap (λ (x : List Bytes). (t ∷ d ∷ ds) ∷ x) f.back;
      },
      (low, high, asc),
    )

-- What the loop files has five sections.
sections_of_list :
    (ls : List Bytes)
    → length ls ≡ 5
    → 20 + total ls < 2 ^ 32
    → sections (concat (list_offsets 20 ls ++ ls)) ≡ ls
sections_of_list (l0 ∷ l1 ∷ l2 ∷ l3 ∷ l4 ∷ []) n h = sections-concat l0 l1 l2 l3 l4 h
sections_of_list (l0 ∷ l1 ∷ l2 ∷ l3 ∷ l4 ∷ l5 ∷ ls) n h = absurd (omega arith)
sections_of_list (l0 ∷ l1 ∷ l2 ∷ l3 ∷ []) n h = absurd (omega arith)
sections_of_list (l0 ∷ l1 ∷ l2 ∷ []) n h = absurd (omega arith)
sections_of_list (l0 ∷ l1 ∷ []) n h = absurd (omega arith)
sections_of_list (l0 ∷ []) n h = absurd (omega arith)
sections_of_list [] n h = absurd (omega arith)

total-list_offsets : (off : ℕ) (ls : List Bytes) → total (list_offsets off ls) ≡ 4 * length ls
unfolding list_offsets
total-list_offsets off [] = refl
total-list_offsets off (l ∷ ls) =
    omega (arith, length-le_bytes 4 (u32 off), total-list_offsets (off + length l) ls)

total-append : (xs ys : List Bytes) → total (xs ++ ys) ≡ total xs + total ys
total-append [] ys = omega arith
total-append (x ∷ xs) ys = omega (arith, total-append xs ys)

-- Execution requests that are encoded, in less than 4 GiB, have ascending types below 5 and data,
-- and a reader of the container gets them back.
pub read_requests-encode :
    (rs : List Bytes) (bs : Bytes)
    → encode_ssz_execution_requests rs ≡ ok bs
    → length bs < 2 ^ 32
    → IsAscending 0 rs × (read_requests bs ≡ rs)
unfolding encode_ssz_execution_requests read_requests
read_requests-encode rs bs e h =
    let (ls, done, same) = >>=-eq-ok (file_requests 0 (empties 5) rs) _ e in
    let (f, asc) = file_requests-Filed rs 0 [] ls refl (omega arith) done in
    let count : length ls ≡ 5 = ap length f.shape ∙ omega (arith, f.count) in
    let written : bs ≡ concat (list_offsets 20 ls ++ ls) = cc same in
    let size : 20 + total ls < 2 ^ 32 = omega (
      arith,
      ap length written,
      length-concat (list_offsets 20 ls ++ ls),
      total-append (list_offsets 20 ls) ls,
      total-list_offsets 20 ls,
    ) in
    (
      asc,
      ap (λ (b : Bytes). requests_from 0 (sections b)) written
          ∙ ap (requests_from 0) (sections_of_list ls count size)
          ∙ ap (requests_from 0) f.shape
          ∙ f.back,
    )

accepts :
    (rs : List Bytes) (next : ℕ) (lists : List Bytes)
    → IsAscending next rs
    → (ls : List Bytes) × (file_requests next lists rs ≡ ok ls)
unfolding file_requests
accepts [] next lists h = (lists, refl)
accepts ([] ∷ rs) next lists h = absurd h
accepts ((t ∷ []) ∷ rs) next lists h = absurd h
accepts ((t ∷ d ∷ ds) ∷ rs) next lists (low, high, asc) =
    let (ls, e) = accepts rs (t + 1) (set lists t (d ∷ ds)) asc in (ls, ground arith)

-- Requests that hold data and whose types ascend below 5 are encoded without an error.
pub encode_ssz_execution_requests-ok :
    (rs : List Bytes) → IsAscending 0 rs → (bs : Bytes) × (encode_ssz_execution_requests rs ≡ ok bs)
unfolding encode_ssz_execution_requests
encode_ssz_execution_requests-ok rs h =
    let (ls, e) = accepts rs 0 (empties 5) h in (concat (list_offsets 20 ls ++ ls), rw e)
