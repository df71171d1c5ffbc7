-- ===== src/Fixture/Ssz/Decode.antt =====
-- How a reader of the guest input takes it apart: integers and sections by their offsets, and the
-- offset table of a list of byte lists.
use stateless_executor.Prelude.{
  get_or, take-append-drop, ℕ, zero, suc, ◌+◌, ◌-◌, ◌/◌, ◌^◌, ◌<◌, ◌≡◌, refl, sym, ap, ◌∙◌, List,
  [], ◌∷◌, ◌++◌, length, take, drop, length-append, take-append, drop-append_add, arith,
}
use stateless_executor.Prelude.Endian.{Bytes, le_value, length-le_bytes, le_value-le_bytes}
use stateless_executor.Fixture.Ssz.{u32_le, u64_le, concat}

-- bs[from:to]
abbrev pub slice : ℕ → ℕ → Bytes → Bytes
slice from to bs = take (to - from) (drop from bs)

abbrev pub read_u32 : ℕ → Bytes → ℕ
read_u32 at bs = le_value (take 4 (drop at bs))

abbrev pub read_u64 : ℕ → Bytes → ℕ
read_u64 at bs = le_value (take 8 (drop at bs))

-- How many bytes some writes make.
abbrev pub total : List Bytes → ℕ
total [] = 0
total (w ∷ ws) = length w + total ws

pub length-concat : (ws : List Bytes) → length (concat ws) ≡ total ws
length-concat [] = refl
length-concat (w ∷ ws) = omega (arith, length-append w (concat ws), length-concat ws)

-- Dropping what the first writes made leaves the others.
pub drop-concat :
    (at : ℕ) (front back : List Bytes)
    → at ≡ total front
    → drop at (concat (front ++ back)) ≡ concat back
drop-concat at [] back h = ap (λ (n : ℕ). drop n (concat back)) h
drop-concat at (w ∷ front) back h =
    drop-append_add at (total front) w (concat (front ++ back)) h
    ∙ drop-concat (total front) front back refl

-- The same, with a write named by its index k among all of them.
pub drop-writes :
    (k : ℕ) (ws : List Bytes) (at : ℕ)
    → at ≡ total (take k ws)
    → drop at (concat ws) ≡ concat (drop k ws)
drop-writes k ws at h =
    ap (λ (t : List Bytes). drop at (concat t)) (sym (take-append-drop k ws))
    ∙ drop-concat at (take k ws) (drop k ws) h

take_front :
    (n : ℕ) (ws : List Bytes) → n ≡ length (get_or ws 0 []) → take n (concat ws) ≡ get_or ws 0 []
take_front n [] h = ap (λ (m : ℕ). take m []) h
take_front n (w ∷ ws) h = take-append n w (concat ws) h

get_or-drop : (k : ℕ) (ws : List Bytes) → get_or (drop k ws) 0 [] ≡ get_or ws k []
get_or-drop zero [] = refl
get_or-drop zero (w ∷ ws) = refl
get_or-drop (suc k) [] = refl
get_or-drop (suc k) (w ∷ ws) = get_or-drop k ws

total-take-suc :
    (k : ℕ) (ws : List Bytes)
    → total (take (suc k) ws) ≡ total (take k ws) + length (get_or ws k [])
total-take-suc zero [] = refl
total-take-suc zero (w ∷ ws) = omega arith
total-take-suc (suc k) [] = refl
total-take-suc (suc k) (w ∷ ws) = omega (arith, total-take-suc k ws)

pub take-writes :
    (k : ℕ) (ws : List Bytes) (at n : ℕ)
    → at ≡ total (take k ws)
    → n ≡ length (get_or ws k [])
    → take n (drop at (concat ws)) ≡ get_or ws k []
take-writes k ws at n h m =
    ap (λ (t : Bytes). take n t) (drop-writes k ws at h)
    ∙ take_front n (drop k ws) (m ∙ ap length (sym (get_or-drop k ws)))
    ∙ get_or-drop k ws

pub slice-writes :
    (k : ℕ) (ws : List Bytes) (from to : ℕ)
    → from ≡ total (take k ws)
    → to ≡ from + length (get_or ws k [])
    → slice from to (concat ws) ≡ get_or ws k []
slice-writes k ws from to h m = take-writes k ws from (to - from) h (omega arith)

pub read_u32-writes :
    (k : ℕ) (ws : List Bytes) (at v : ℕ)
    → at ≡ total (take k ws)
    → get_or ws k [] ≡ u32_le v
    → v < 2 ^ 32
    → read_u32 at (concat ws) ≡ v
read_u32-writes k ws at v h e fits =
    ap le_value (take-writes k ws at 4 h (sym (ap length e ∙ length-le_bytes 4 v)) ∙ e)
    ∙ le_value-le_bytes 4 v fits

pub read_u64-writes :
    (k : ℕ) (ws : List Bytes) (at v : ℕ)
    → at ≡ total (take k ws)
    → get_or ws k [] ≡ u64_le v
    → v < 2 ^ 64
    → read_u64 at (concat ws) ≡ v
read_u64-writes k ws at v h e fits =
    ap le_value (take-writes k ws at 8 h (sym (ap length e ∙ length-le_bytes 8 v)) ∙ e)
    ∙ le_value-le_bytes 8 v fits

-- The items of an encoded list: n offsets are left at `at`, and the items end at `end`.
unfoldable pub read_items : ℕ → ℕ → Bytes → List Bytes
read_items zero at bs = []
read_items (suc zero) at bs = drop (read_u32 at bs) bs ∷ []
read_items (suc (suc n)) at bs =
    slice (read_u32 at bs) (read_u32 (at + 4) bs) bs ∷ read_items (suc n) (at + 4) bs

-- SSZ: no bytes are the empty list; else the first offset tells how many there are.
unfoldable pub decode_byte_list_list : Bytes → List Bytes
unfolding read_items
decode_byte_list_list [] = []
decode_byte_list_list (b ∷ bs) = read_items (read_u32 0 (b ∷ bs) / 4) 0 (b ∷ bs)
