-- ===== src/Prelude/Sort.antt =====
-- sort.Slice, sort.SliceStable and sort.Strings: a stable sort by a comparison, and the byte order of
-- strings. For a comparison that is a strict weak order every stable sort gives this result.
pub mod Orders
use Prim.Native.Nat.{ℕ}
use mathlib.Core.Path.{◌≡◌, refl, sym, ap, ap₂, ◌∙◌}
use mathlib.Core.Logic.{inl, inr}
use mathlib.Core.Bool.{Bool, true, false}
use mathlib.Core.List.{List, [], ◌∷◌, ◌++◌, map, Permᴰ}
use native.Mathlib.Omega.{arith}
use mathlib.Core.List.Permᴰ
use stateless_executor.Prelude.Tests.{if◌then◌else◌, Bool-cases}
use stateless_executor.Prelude.Lists.{All, length}

All-map {ℓ κ μ} :
    {A : Type ℓ} {P : A → Type κ} {Q : A → Type μ}
    → ((a : A) → P a → Q a)
    → (xs : List A) → All P xs
    → All Q xs
All-map f [] h = tt
All-map f (x ∷ xs) (h, hs) = (f x h, All-map f xs hs)

pub All-perm {ℓ κ} :
    {A : Type ℓ} (P : A → Type κ) {xs ys : List A} → Permᴰ xs ys → All P xs → All P ys
All-perm P Permᴰ.nil h = h
All-perm P (Permᴰ.cons e perm) (h, hs) = (rw e at h, All-perm P perm hs)
All-perm P (Permᴰ.swap e e') (h, (h', hs)) = (rw e' at h', (rw e at h, hs))
All-perm P (Permᴰ.trans p q) h = All-perm P q (All-perm P p h)

pub length-perm {ℓ} : {A : Type ℓ} {xs ys : List A} → Permᴰ xs ys → length xs ≡ length ys
length-perm Permᴰ.nil = refl
length-perm (Permᴰ.cons e perm) = omega (arith, length-perm perm)
length-perm (Permᴰ.swap e e') = refl
length-perm (Permᴰ.trans p q) = length-perm p ∙ length-perm q

pub map-perm {ℓ κ} :
    {A : Type ℓ} {B : Type κ} (f : A → B) {xs ys : List A}
    → Permᴰ xs ys
    → Permᴰ (map f xs) (map f ys)
map-perm f Permᴰ.nil = Permᴰ.nil
map-perm f (Permᴰ.cons e p) = Permᴰ.cons (ap f e) (map-perm f p)
map-perm f (Permᴰ.swap e e') = Permᴰ.swap (ap f e) (ap f e')
map-perm f (Permᴰ.trans p q) = Permᴰ.trans (map-perm f p) (map-perm f q)

pub map-append {ℓ κ} :
    {A : Type ℓ} {B : Type κ} (f : A → B) (xs ys : List A) → map f (xs ++ ys) ≡ map f xs ++ map f ys
map-append f [] ys = refl
map-append f (x ∷ xs) ys = ap (λ l. f x ∷ l) (map-append f xs ys)

pub append-perm {ℓ} :
    {A : Type ℓ} (zs : List A) {xs ys : List A} → Permᴰ xs ys → Permᴰ (zs ++ xs) (zs ++ ys)
append-perm [] p = p
append-perm (z ∷ zs) p = Permᴰ.cons refl (append-perm zs p)

pub perm-append {ℓ} :
    {A : Type ℓ} (zs : List A) {xs ys : List A} → Permᴰ xs ys → Permᴰ (xs ++ zs) (ys ++ zs)
perm-append zs Permᴰ.nil = Permᴰ.refl zs
perm-append zs (Permᴰ.cons e p) = Permᴰ.cons e (perm-append zs p)
perm-append zs (Permᴰ.swap {a} {b} {a'} {b'} {l} e e') = Permᴰ.swap e e'
perm-append zs (Permᴰ.trans p q) = Permᴰ.trans (perm-append zs p) (perm-append zs q)

pub snoc-perm {ℓ} : {A : Type ℓ} (x : A) (xs : List A) → Permᴰ (xs ++ (x ∷ [])) (x ∷ xs)
snoc-perm x [] = Permᴰ.refl (x ∷ [])
snoc-perm x (y ∷ xs) = Permᴰ.trans (Permᴰ.cons refl (snoc-perm x xs)) (Permᴰ.swap refl refl)

module _ {ℓ} {A : Type ℓ} (less : A → A → Bool) where
  -- x comes before what it is not greater than: it stood earlier in the list.
  unfoldable pub insert : A → List A → List A
  insert x [] = x ∷ []
  insert x (y ∷ ys) = let rest = insert x ys in if less y x then y ∷ rest else x ∷ y ∷ ys

  unfoldable pub sort : List A → List A
  unfolding insert
  sort [] = []
  sort (x ∷ xs) = insert x (sort xs)

  -- Nothing is less than what stands before it.
  abbrev pub IsSorted : List A → Type ℓ
  IsSorted [] = Unit
  IsSorted (x ∷ xs) = All (λ y. less y x ≡ false) xs × IsSorted xs

  pub insert-perm : (x : A) (ys : List A) → Permᴰ (x ∷ ys) (insert x ys)
  unfolding insert
  insert-perm x [] = Permᴰ.cons refl Permᴰ.nil
  insert-perm x (y ∷ ys) = elim (Bool-cases (less y x)) [
    | inl after ↦ rw after (Permᴰ.trans (Permᴰ.swap refl refl) (Permᴰ.cons refl (insert-perm x ys)))
    | inr before ↦ rw before (Permᴰ.refl (x ∷ y ∷ ys))
  ]

  pub sort-perm : (xs : List A) → Permᴰ xs (sort xs)
  unfolding sort
  sort-perm [] = Permᴰ.nil
  sort-perm (x ∷ xs) = Permᴰ.trans (Permᴰ.cons refl (sort-perm xs)) (insert-perm x (sort xs))

  -- A strict weak order: what the documentation of package sort asks of a comparison.
  pub record IsOrder : Type ℓ where
    pub asym : (a b : A) → less a b ≡ true → less b a ≡ false
    pub trans : (a b c : A) → less b a ≡ false → less c b ≡ false → less c a ≡ false

  All-insert {κ} : (P : A → Type κ) (x : A) (ys : List A) → P x → All P ys → All P (insert x ys)
  unfolding insert
  All-insert P x [] h hs = (h, tt)
  All-insert P x (y ∷ ys) h (h', hs) = elim (Bool-cases (less y x)) [
    | inl after ↦ rw after (h', All-insert P x ys h hs)
    | inr before ↦ rw before (h, (h', hs))
  ]

  module _ (o : IsOrder) where
    insert-IsSorted : (x : A) (ys : List A) → IsSorted ys → IsSorted (insert x ys)
    unfolding insert
    insert-IsSorted x [] h = (tt, tt)
    insert-IsSorted x (y ∷ ys) (above, h) = elim (Bool-cases (less y x)) [
      | inl after ↦
          rw after (
            All-insert (λ z. less z y ≡ false) x ys (o.asym y x after) above,
            insert-IsSorted x ys h,
          )
      | inr before ↦
          rw before ((before, All-map (λ z later. o.trans x y z before later) ys above), (above, h))
    ]

    -- The result is sorted.
    pub sort-IsSorted : (xs : List A) → IsSorted (sort xs)
    unfolding sort
    sort-IsSorted [] = tt
    sort-IsSorted (x ∷ xs) = insert-IsSorted x (sort xs) (sort-IsSorted xs)

    module _ (antisym : (a b : A) → less a b ≡ false → less b a ≡ false → a ≡ b) where
      fronts :
          (x y : A) (zs : List A)
          → (if less y x then y ∷ x ∷ zs else x ∷ y ∷ zs)
            ≡ (if less x y then x ∷ y ∷ zs else y ∷ x ∷ zs)
      fronts x y zs = elim (Bool-cases (less y x)) [
        | inl yx ↦ rw (yx, o.asym y x yx) refl
        | inr yx ↦ elim (Bool-cases (less x y)) [
          | inl xy ↦ rw (yx, xy) refl
          | inr xy ↦ let same = antisym x y xy yx in rw (yx, xy) (cc same)
        ]
      ]

      before : (x y z : A) → less z x ≡ false → less z y ≡ true → less x y ≡ true
      before x y z zx zy = elim (Bool-cases (less x y)) [
        | inl xy ↦ xy
        | inr xy ↦ let zy' = o.trans y x z xy zx in cc (zy, zy')
      ]

      insert_comm : (x y : A) (zs : List A) → insert x (insert y zs) ≡ insert y (insert x zs)
      unfolding insert
      insert_comm x y [] = fronts x y []
      insert_comm x y (z ∷ zs) = elim (Bool-cases (less z y)) [
        | inl zy ↦ elim (Bool-cases (less z x)) [
          | inl zx ↦ rw (zy, zx, zy) (ap (λ l. z ∷ l) (insert_comm x y zs))
          | inr zx ↦ let xy = before x y z zx zy in rw (zy, zx, xy, zy) refl
        ]
        | inr zy ↦ elim (Bool-cases (less z x)) [
          | inl zx ↦ let yx = before y x z zy zx in rw (zy, zx, yx, zy) refl
          | inr zx ↦ rw (zy, zx, zy) (fronts x y (z ∷ zs))
        ]
      ]

      -- Where equal ranks are equal values, the order of the input does not matter.
      pub sort_eq_of_perm : {xs ys : List A} → Permᴰ xs ys → sort xs ≡ sort ys
      unfolding sort
      sort_eq_of_perm Permᴰ.nil = refl
      sort_eq_of_perm (Permᴰ.cons e perm) = ap₂ insert e (sort_eq_of_perm perm)
      sort_eq_of_perm (Permᴰ.swap {a} {b} {a'} {b'} {l} e e') =
          insert_comm a b (sort l) ∙ cc (e, e')
      sort_eq_of_perm (Permᴰ.trans p q) = sort_eq_of_perm p ∙ sort_eq_of_perm q

-- The elements that a test picks.
unfoldable pub pick_all {ℓ} : {A : Type ℓ} → (A → Bool) → List A → List A
pick_all p [] = []
pick_all p (x ∷ xs) = let rest = pick_all p xs in if p x then x ∷ rest else rest

module _ {ℓ} {A : Type ℓ} (less : A → A → Bool) (p : A → Bool)
    (alike : (a b : A) → p a ≡ true → p b ≡ true → less a b ≡ false) where
  pick_all-insert : (x : A) (ys : List A) → pick_all p (insert less x ys) ≡ pick_all p (x ∷ ys)
  unfolding insert pick_all
  pick_all-insert x [] = refl
  pick_all-insert x (y ∷ ys) = elim (Bool-cases (less y x)) [
    | inr before ↦ rw before refl
    | inl after ↦ elim (Bool-cases (p y)) [
      | inr py ↦ rw (after, py) (pick_all-insert x ys)
      | inl py ↦ elim (Bool-cases (p x)) [
        | inl px ↦ let same = alike y x py px in cc (after, same)
        | inr px ↦ rw (after, py, px) (ap (λ l. y ∷ l) (pick_all-insert x ys ∙ rw px refl))
      ]
    ]
  ]

  -- A sort is stable: elements of one rank keep their order.
  pub pick_all-sort : (xs : List A) → pick_all p (sort less xs) ≡ pick_all p xs
  unfolding sort pick_all
  pick_all-sort [] = refl
  pick_all-sort (x ∷ xs) =
      pick_all-insert x (sort less xs)
      ∙ ap (λ (l : List A). if p x then x ∷ l else l) (pick_all-sort xs)

-- Two comparisons that agree on the elements of a list sort it alike.
module _ {ℓ κ} {A : Type ℓ} (P : A → Type κ) (less less' : A → A → Bool)
    (agree : (a b : A) → P a → P b → less a b ≡ less' a b) where
  insert_cong : (x : A) (ys : List A) → P x → All P ys → insert less x ys ≡ insert less' x ys
  unfolding insert
  insert_cong x [] h hs = refl
  insert_cong x (y ∷ ys) h (h', hs) =
      let same = agree y x h' h in let rest = insert_cong x ys h hs in cc (same, rest)

  pub sort_cong : (xs : List A) → All P xs → sort less xs ≡ sort less' xs
  unfolding sort
  sort_cong [] h = refl
  sort_cong (x ∷ xs) (h, hs) =
      insert_cong x (sort less xs) h (All-perm P (sort-perm less xs) hs)
      ∙ ap (insert less' x) (sort_cong xs hs)
