-- ===== src/Bench/Rows/Tally.antt =====
-- The populations that bench/main.go sorts the results of a run into.
use stateless_executor.Prelude.{
  ◌+◌, ◌≡◌, ◌∙◌, sym, refl, Bool, true, false, List, [], ◌∷◌, ◌++◌, length, arith, All, ◌==◌,
  Bool-cases, inl, inr, ◌≢◌, append-nil, append_assoc, if◌then◌else◌,
}
use stateless_executor.Prelude.Sort.{pick_all}
use stateless_executor.Bench.{VerdictKind}
use stateless_executor.Bench.Run.{BlockResult}
use stateless_executor.Bench.Rows.{Tallied, no_tally, tallied, tally, partition_by_gas}
use mathlib.Core.List.{Permᴰ}
use mathlib.Core.List.Permᴰ

-- The verdicts, each as a test.
abbrev pub has_verdict : VerdictKind → VerdictKind → Bool
has_verdict VerdictKind.pass VerdictKind.pass = true
has_verdict VerdictKind.fail VerdictKind.fail = true
has_verdict VerdictKind.skip VerdictKind.skip = true
has_verdict VerdictKind.unverified VerdictKind.unverified = true
has_verdict VerdictKind.error VerdictKind.error = true
has_verdict _ _ = false

-- The results of one verdict, and those that were measured, in their order.
abbrev pub of_verdict : VerdictKind → List BlockResult → List BlockResult
of_verdict k rs = pick_all (λ (r : BlockResult). has_verdict k r.verdict.kind) rs

abbrev pub is_measured : VerdictKind → Bool
is_measured VerdictKind.skip = false
is_measured VerdictKind.error = false
is_measured _ = true

abbrev pub of_measured : List BlockResult → List BlockResult
of_measured rs = pick_all (λ (r : BlockResult). is_measured r.verdict.kind) rs

-- What a tally holds behind what it held.
abbrev Holds : Tallied → Tallied → List BlockResult → Type 0
Holds t t' rs =
    (t'.good ≡ t.good ++ of_measured rs)
    × (t'.validation_failures ≡ t.validation_failures ++ of_verdict VerdictKind.fail rs)
    × (t'.skipped_units ≡ t.skipped_units + length (of_verdict VerdictKind.skip rs))
    × (t'.unverified ≡ t.unverified + length (of_verdict VerdictKind.unverified rs))

module _ (t t' : Tallied) (r : BlockResult) (rs : List BlockResult) where
  -- A result of verdict k, in front of others.
  abbrev HoldsMore : VerdictKind → Type 0
  HoldsMore k =
      (t'.good ≡ t.good ++ (if is_measured k then r ∷ of_measured rs else of_measured rs))
      × (t'.validation_failures
          ≡ t.validation_failures
            ++ (if has_verdict VerdictKind.fail k
                then r ∷ of_verdict VerdictKind.fail rs
                else of_verdict VerdictKind.fail rs))
      × (t'.skipped_units
          ≡ t.skipped_units
            + length (
                if has_verdict VerdictKind.skip k
                then r ∷ of_verdict VerdictKind.skip rs
                else of_verdict VerdictKind.skip rs))
      × (t'.unverified
          ≡ t.unverified
            + length (
                if has_verdict VerdictKind.unverified k
                then r ∷ of_verdict VerdictKind.unverified rs
                else of_verdict VerdictKind.unverified rs))

  tallied-HoldsMore : (k : VerdictKind) → Holds (tallied t r k) t' rs → HoldsMore k
  tallied-HoldsMore VerdictKind.pass (good, fails, skips, unverifieds) =
      (good ∙ append_assoc t.good (r ∷ []) (of_measured rs), fails, skips, unverifieds)
  tallied-HoldsMore VerdictKind.fail (good, fails, skips, unverifieds) = (
    good ∙ append_assoc t.good (r ∷ []) (of_measured rs),
    fails ∙ append_assoc t.validation_failures (r ∷ []) (of_verdict VerdictKind.fail rs),
    skips,
    unverifieds,
  )
  tallied-HoldsMore VerdictKind.skip (good, fails, skips, unverifieds) =
      (good, fails, omega (arith, skips), unverifieds)
  tallied-HoldsMore VerdictKind.unverified (good, fails, skips, unverifieds) = (
    good ∙ append_assoc t.good (r ∷ []) (of_measured rs),
    fails,
    skips,
    omega (arith, unverifieds),
  )
  tallied-HoldsMore VerdictKind.error h = h

tally-Holds : (rs : List BlockResult) (t : Tallied) → Holds t (tally t rs) rs
unfolding tally pick_all
tally-Holds [] t =
    (sym (append-nil t.good), sym (append-nil t.validation_failures), omega arith, omega arith)
tally-Holds (r ∷ rs) t =
    tallied-HoldsMore t (tally t (r ∷ rs)) r rs r.verdict.kind
      (tally-Holds rs (tallied t r r.verdict.kind))

-- The measured population holds the results that passed, failed or could not be verified, and no
-- others, in the order of the run; the failures are those that failed, in that order; and the skips
-- and the unverified units are counted as often as they occur.
pub tally-counts :
    (rs : List BlockResult)
    → ((tally no_tally rs).good ≡ of_measured rs)
      × ((tally no_tally rs).validation_failures ≡ of_verdict VerdictKind.fail rs)
      × ((tally no_tally rs).skipped_units ≡ length (of_verdict VerdictKind.skip rs))
      × ((tally no_tally rs).unverified ≡ length (of_verdict VerdictKind.unverified rs))
tally-counts rs =
    let (good, fails, skips, unverifieds) = tally-Holds rs no_tally in
    (good, fails, omega (arith, skips), omega (arith, unverifieds))

-- The split by gas loses no unit: the two parts together are a rearrangement of the units, every unit
-- of the first used gas and none of the second did.
pub partition_by_gas-perm :
    (good : List BlockResult)
    → Permᴰ good ((partition_by_gas good).0 ++ (partition_by_gas good).1)
      × All (λ (r : BlockResult). r.info.gas_used ≢ 0) (partition_by_gas good).0
      × All (λ (r : BlockResult). r.info.gas_used ≡ 0) (partition_by_gas good).1
unfolding partition_by_gas
partition_by_gas-perm [] = (Permᴰ.nil, tt, tt)
partition_by_gas-perm (r ∷ good) =
    let (perm, worked, empty) = partition_by_gas-perm good in
    elim (Bool-cases (r.info.gas_used == 0)) [
      | inl none_used ↦ rw none_used (
        Permᴰ.trans (Permᴰ.cons refl perm)
            (Permᴰ.symm (Permᴰ.middle r (partition_by_gas good).0 (partition_by_gas good).1)),
        worked,
        (ground (arith, none_used), empty),
      )
      | inr used ↦ rw used (Permᴰ.cons refl perm, (ground (arith, used), worked), empty)
    ]
