-- ===== src/Bench/Run/Schedule.antt =====
-- runAll of bench/run.go: the results come in the order of discovery, however the workers finish.
use stateless_executor.Prelude.{
  ℕ, zero, suc, ◌+◌, ◌<◌, ◌≡◌, ◌⊎◌, inl, inr, ◌∙◌, refl, ap, ap₂, sym, List, [], ◌∷◌, ◌++◌, length,
  foldl, map, set, get_or, replicate, arith, length-set, length-replicate, get_or-set_self,
  get_or-set_ne, length-map,
}
use stateless_executor.Prelude.Errors.{Result, ok, panic, ◌>>=◌}
use stateless_executor.Prelude.Text.{Text}
use stateless_executor.Fixture.Format.{Format}
use stateless_executor.Bench.Work.{FileJob, WorkUnit}
use stateless_executor.Bench.Run.{
  BlockResult, EmuRunner, finish, joined, scheduled, run_all, file_results,
}
use native.Mathlib.Decide.{ℕ_discrete}

-- An index stands in a schedule.
abbrev pub Among : ℕ → List ℕ → Type 0
Among i [] = ⊥
Among i (k ∷ ks) = (i ≡ k) ⊎ Among i ks

module _ (work : ℕ → Result (List BlockResult)) where
  abbrev Slots : Type 0
  Slots = List (Result (List BlockResult))

  length-finish : (ks : List ℕ) (acc : Slots) → length (foldl (finish work) acc ks) ≡ length acc
  unfolding finish
  length-finish [] acc = refl
  length-finish (k ∷ ks) acc = length-finish ks (set acc k (work k)) ∙ length-set acc k (work k)

  -- A slot that is filled, or will be, holds its worker's results in the end.
  get_or-finish :
      (ks : List ℕ) (acc : Slots) (i : ℕ)
      → i < length acc
      → Among i ks ⊎ (get_or acc i panic ≡ work i)
      → get_or (foldl (finish work) acc ks) i panic ≡ work i
  unfolding finish
  get_or-finish [] acc i h (inl m) = absurd m
  get_or-finish [] acc i h (inr e) = e
  get_or-finish (k ∷ ks) acc i h filled =
      get_or-finish ks (set acc k (work k)) i (omega (arith, length-set acc k (work k), h))
        (after filled)
    where
      after :
          Among i (k ∷ ks) ⊎ (get_or acc i panic ≡ work i)
          → Among i ks ⊎ (get_or (set acc k (work k)) i panic ≡ work i)
      after f = elim (ℕ_discrete k i) [
        | yes same ↦ inr (rw same (get_or-set_self acc i (work i) panic h))
        | no differ ↦ elim f [
          | inl (inl e) ↦ absurd (differ (sym e))
          | inl (inr m) ↦ inl m
          | inr e ↦ inr (get_or-set_ne acc k i (work k) panic differ ∙ e)
        ]
      ]

  -- The workers' results in order.
  abbrev pub in_order : ℕ → ℕ → Slots
  in_order i zero = []
  in_order i (suc n) = work i ∷ in_order (i + 1) n

  slots-in_order :
      (slots : Slots) (i : ℕ)
      → ((j : ℕ) → j < length slots → get_or slots j panic ≡ work (i + j))
      → slots ≡ in_order i (length slots)
  slots-in_order [] i h = refl
  slots-in_order (s ∷ slots) i h =
      ap₂ ◌∷◌ (h 0 (omega arith) ∙ ap work (omega arith))
        (slots-in_order slots (i + 1) (λ j k. h (suc j) (omega arith) ∙ ap work (omega arith)))

  scheduled-in_order :
      (n : ℕ) (schedule : List ℕ)
      → ((i : ℕ) → i < n → Among i schedule)
      → scheduled work n schedule ≡ joined (in_order 0 n)
  scheduled-in_order n schedule covers =
      let start : Slots = replicate n (ok []) in
      let blank : length start ≡ n = length-replicate n (ok []) in
      let size = length-finish schedule start ∙ blank in
      ap joined (
        slots-in_order (foldl (finish work) start schedule) 0 (λ j h.
          get_or-finish schedule start j (omega (arith, size, blank, h))
            (inl (covers j (omega (arith, size, h))))
          ∙ ap work (omega arith))
        ∙ ap (in_order 0) size)

get_or-map {ℓ κ} :
    {A : Type ℓ} {B : Type κ} (f : A → B) (xs : List A) (i : ℕ) (d : A) (d' : B)
    → i < length xs
    → get_or (map f xs) i d' ≡ f (get_or xs i d)
get_or-map f [] i d d' h = absurd (omega arith)
get_or-map f (x ∷ xs) zero d d' h = refl
get_or-map f (x ∷ xs) (suc i) d d' h = get_or-map f xs i d d' (omega arith)

-- A program without workers: a file is run, and then those behind it.
unfoldable pub one_after_other :
    (FileJob → Result (List BlockResult)) → List FileJob → Result (List BlockResult)
one_after_other f [] = ok []
one_after_other f (j ∷ jobs) = do rs ← f j; rest ← one_after_other f jobs; ok (rs ++ rest)

joined-one_after_other :
    (f : FileJob → Result (List BlockResult)) (jobs : List FileJob)
    → joined (map f jobs) ≡ one_after_other f jobs
unfolding joined one_after_other
joined-one_after_other f [] = refl
joined-one_after_other f (j ∷ jobs) =
    ap (λ r. f j >>= λ out. r >>= λ rest. ok (out ++ rest)) (joined-one_after_other f jobs)

-- Whatever the order in which the workers finish, as long as each file's worker does: the results are
-- those of a program that runs the files one after the other, in the order in which they were
-- discovered.
pub run_all-in_order :
    (expand : FileJob → Result (List WorkUnit)) (jobs : List FileJob) (run : EmuRunner)
    (target : Text) (clock : Text → ℕ) (schedule : List ℕ)
    → ((i : ℕ) → i < length jobs → Among i schedule)
    → run_all expand jobs run target clock schedule
      ≡ one_after_other (λ j. file_results (expand j) run target clock) jobs
unfolding run_all
run_all-in_order expand jobs run target clock schedule covers =
    let no_job : FileJob = record { path = []; kind = Format.unknown; suite = []; bytes = 0 } in
    let f : FileJob → Result (List BlockResult) = λ j. file_results (expand j) run target clock in
    let work : ℕ → Result (List BlockResult) = λ i. f (get_or jobs i no_job) in
    let size = length-map f jobs in
    let order =
      slots-in_order work (map f jobs) 0 (λ j h.
        get_or-map f jobs j no_job panic (omega (arith, size, h)) ∙ ap work (omega arith)) in
    scheduled-in_order work (length jobs) schedule covers
    ∙ sym (ap joined (order ∙ ap (in_order work 0) size))
    ∙ joined-one_after_other f jobs
