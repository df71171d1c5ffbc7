-- ===== src/Bench/Run/Counters.antt =====
-- The progress counters of bench/run.go while the workers interleave.
use stateless_executor.Prelude.{ℕ, suc, ◌+◌, ◌≤◌, ◌≡◌, List, [], ◌∷◌, foldl, arith}
use stateless_executor.Bench.Run.{Progress, Tick, tick, started}

-- The workers' state that the counters do not show: the files not expanded yet, and the units that
-- were expanded and not printed yet.
pub record Pending : Type 0 where
  pub files : ℕ
  pub units : ℕ

-- A step that the workers can take.
pub data Step : Pending → Tick → Pending → Type 0 where
  skip :
      {f u : ℕ}
      → Step
          (record { files = suc f; units = u })
          Tick.skipped_file
          (record { files = f; units = u })
  grow :
      {f u : ℕ} (n : ℕ)
      → Step
          (record { files = suc f; units = u })
          (Tick.expanded n)
          (record { files = f; units = u + n })
  print :
      {f u : ℕ}
      → Step (record { files = f; units = suc u }) Tick.printed (record { files = f; units = u })

pub data Steps : Pending → List Tick → Pending → Type 0 where
  stop : {s : Pending} → Steps s [] s
  next :
      {s s' s'' : Pending} {t : Tick} {ts : List Tick}
      → Step s t s'
      → Steps s' ts s''
      → Steps s (t ∷ ts) s''

-- The total is what is done and what is pending.
abbrev pub IsExact : Progress → Pending → Type 0
IsExact p s = p.total ≡ p.done + s.files + s.units

tick-IsExact :
    {s s' : Pending} {t : Tick} (p : Progress) → Step s t s' → IsExact p s → IsExact (tick p t) s'
unfolding tick
tick-IsExact p skip h = omega (arith, h)
tick-IsExact p (grow n) h = omega (arith, h)
tick-IsExact p print h = omega (arith, h)

ticks-IsExact :
    {s s' : Pending} {ts : List Tick} (p : Progress)
    → Steps s ts s'
    → IsExact p s
    → IsExact (foldl tick p ts) s'
ticks-IsExact p stop h = h
ticks-IsExact {ts = t ∷ ts} p (next step steps) h =
    ticks-IsExact (tick p t) steps (tick-IsExact p step h)

-- However the workers interleave, the number of units that are done never exceeds the total that is
-- printed with it, and they are equal exactly when nothing is left to do.
pub ticks-bounded :
    (files : ℕ) {s : Pending} {ts : List Tick}
    → Steps (record { files = files; units = 0 }) ts s
    → ((foldl tick (started files) ts).done ≤ (foldl tick (started files) ts).total)
      × ((foldl tick (started files) ts).done + s.files + s.units
          ≡ (foldl tick (started files) ts).total)
ticks-bounded files {s} {ts} steps =
    let exact = ticks-IsExact (started files) steps (omega arith) in
    (omega (arith, exact), omega (arith, exact))
