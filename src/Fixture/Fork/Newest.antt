-- ===== src/Fixture/Fork/Newest.antt =====
-- activeProtocolFork of fixture/encode_ssz.go picks the newest active fork.
use stateless_executor.Prelude.{
  ℕ, ◌≤◌, ◌≡◌, ◌⊎◌, inl, inr, refl, sym, List, [], ◌∷◌, Option, none, some, leb, arith, Bool-cases,
  leb→le, le→leb,
}
use stateless_executor.Fixture.Types.{FixtureChainConfig}
use stateless_executor.Fixture.Fork.{fork_amsterdam, fork_table, first_active, active_protocol_fork}
use mathlib.Core.Path.{subst}

-- Fork idx is scheduled by a row, at a time that is reached.
abbrev pub IsActive : ℕ → List (ℕ × Option ℕ) → ℕ → Type 0
IsActive ts [] idx = ⊥
IsActive ts ((i, none) ∷ rows) idx = IsActive ts rows idx
IsActive ts ((i, some t) ∷ rows) idx = ((i ≡ idx) × (t ≤ ts)) ⊎ IsActive ts rows idx

-- Indices fall from row to row.
abbrev IsNewestFirst : ℕ → List (ℕ × Option ℕ) → Type 0
IsNewestFirst bound [] = Unit
IsNewestFirst bound ((i, o) ∷ rows) = (i ≤ bound) × IsNewestFirst i rows

active-le :
    (ts bound : ℕ) (rows : List (ℕ × Option ℕ)) (idx : ℕ)
    → IsNewestFirst bound rows
    → IsActive ts rows idx
    → idx ≤ bound
active-le ts bound [] idx n a = absurd a
active-le ts bound ((i, none) ∷ rows) idx n a = omega (arith, active-le ts i rows idx n.1 a)
active-le ts bound ((i, some t) ∷ rows) idx n (inl a) = omega arith
active-le ts bound ((i, some t) ∷ rows) idx n (inr a) = omega (arith, active-le ts i rows idx n.1 a)

-- The row that is found is active, and none that is active is newer.
first_active-newest :
    (ts bound : ℕ) (rows : List (ℕ × Option ℕ)) (idx : ℕ)
    → IsNewestFirst bound rows
    → IsActive ts rows idx
    → IsActive ts rows (first_active ts rows) × (idx ≤ first_active ts rows)
unfolding first_active
first_active-newest ts bound [] idx n a = absurd a
first_active-newest ts bound ((i, none) ∷ rows) idx n a = first_active-newest ts i rows idx n.1 a
first_active-newest ts bound ((i, some t) ∷ rows) idx n (inl (e, h)) =
    rw (le→leb t ts h) (inl (refl, h), omega (arith, e))
first_active-newest ts bound ((i, some t) ∷ rows) idx n (inr a) = elim (Bool-cases (leb t ts)) [
  | inl reached ↦ rw reached (inl (refl, leb→le t ts reached), active-le ts i rows idx n.1 a)
  | inr early ↦
      let (found, most) = first_active-newest ts i rows idx n.1 a in rw early (inr found, most)
]

-- What is found is a row that is active, or the fallback.
first_active-cases :
    (ts : ℕ) (rows : List (ℕ × Option ℕ))
    → (first_active ts rows ≡ fork_amsterdam) ⊎ IsActive ts rows (first_active ts rows)
unfolding first_active
first_active-cases ts [] = inl refl
first_active-cases ts ((i, none) ∷ rows) = first_active-cases ts rows
first_active-cases ts ((i, some t) ∷ rows) = elim (Bool-cases (leb t ts)) [
  | inl reached ↦ rw reached (inr (inl (refl, leb→le t ts reached)))
  | inr early ↦ rw early (weaken (first_active-cases ts rows))
]
  where
    weaken :
        (first_active ts rows ≡ fork_amsterdam) ⊎ IsActive ts rows (first_active ts rows)
        → (first_active ts rows ≡ fork_amsterdam)
          ⊎ (((i ≡ first_active ts rows) × (t ≤ ts)) ⊎ IsActive ts rows (first_active ts rows))
    weaken (inl e) = inl e
    weaken (inr a) = inr (inr a)

-- The forks of the protocol, with the numbers that stateless_ssz.py gives them, oldest first.
pub data Fork : Type 0 where
  shanghai cancun prague osaka bpo1 bpo2 amsterdam : Fork

abbrev pub number : Fork → ℕ
number Fork.shanghai = 15
number Fork.cancun = 16
number Fork.prague = 17
number Fork.osaka = 18
number Fork.bpo1 = 19
number Fork.bpo2 = 20
number Fork.amsterdam = 21

-- The time that a chain config sets for a fork.
abbrev pub time_of : FixtureChainConfig → Fork → Option ℕ
time_of cc Fork.shanghai = cc.shanghai_time
time_of cc Fork.cancun = cc.cancun_time
time_of cc Fork.prague = cc.prague_time
time_of cc Fork.osaka = cc.osaka_time
time_of cc Fork.bpo1 = cc.bpo1_time
time_of cc Fork.bpo2 = cc.bpo2_time
time_of cc Fork.amsterdam = cc.amsterdam_time

-- A time is set, and not after ts.
abbrev pub IsReached : ℕ → Option ℕ → Type 0
IsReached ts none = ⊥
IsReached ts (some t) = t ≤ ts

-- A row of a table.
abbrev IsRow : List (ℕ × Option ℕ) → ℕ → Option ℕ → Type 0
IsRow [] idx o = ⊥
IsRow ((i, t) ∷ rows) idx o = ((idx ≡ i) × (o ≡ t)) ⊎ IsRow rows idx o

module _ (ts : ℕ) where
  row-IsActive :
      (rows : List (ℕ × Option ℕ)) (idx : ℕ) (o : Option ℕ)
      → IsRow rows idx o
      → IsReached ts o
      → IsActive ts rows idx
  row-IsActive [] idx o row h = absurd row
  row-IsActive ((i, none) ∷ rows) idx none (inl (e, q)) h = absurd h
  row-IsActive ((i, none) ∷ rows) idx (some t) (inl (e, q)) h = cc
  row-IsActive ((i, none) ∷ rows) idx o (inr row) h = row-IsActive rows idx o row h
  row-IsActive ((i, some t) ∷ rows) idx none (inl (e, q)) h = absurd h
  row-IsActive ((i, some t) ∷ rows) idx (some t') (inl (e, q)) h = inl (sym e, ground (arith, q, h))
  row-IsActive ((i, some t) ∷ rows) idx o (inr row) h = inr (row-IsActive rows idx o row h)

  active-IsRow :
      (rows : List (ℕ × Option ℕ)) (idx : ℕ)
      → IsActive ts rows idx
      → (o : Option ℕ) × IsRow rows idx o × IsReached ts o
  active-IsRow [] idx a = absurd a
  active-IsRow ((i, none) ∷ rows) idx a =
      let (o, row, h) = active-IsRow rows idx a in (o, inr row, h)
  active-IsRow ((i, some t) ∷ rows) idx (inl (e, h)) = (some t, inl (sym e, refl), h)
  active-IsRow ((i, some t) ∷ rows) idx (inr a) =
      let (o, row, h) = active-IsRow rows idx a in (o, inr row, h)

module _ (cc : FixtureChainConfig) where
  -- The table of the code has the forks and their times, and no more.
  fork_table-IsRow : (f : Fork) → IsRow (fork_table cc) (number f) (time_of cc f)
  fork_table-IsRow Fork.amsterdam = inl (refl, refl)
  fork_table-IsRow Fork.bpo2 = inr (inl (refl, refl))
  fork_table-IsRow Fork.bpo1 = inr (inr (inl (refl, refl)))
  fork_table-IsRow Fork.osaka = inr (inr (inr (inl (refl, refl))))
  fork_table-IsRow Fork.prague = inr (inr (inr (inr (inl (refl, refl)))))
  fork_table-IsRow Fork.cancun = inr (inr (inr (inr (inr (inl (refl, refl))))))
  fork_table-IsRow Fork.shanghai = inr (inr (inr (inr (inr (inr (inl (refl, refl)))))))

  row-Fork :
      (idx : ℕ) (o : Option ℕ)
      → IsRow (fork_table cc) idx o
      → (f : Fork) × (idx ≡ number f) × (o ≡ time_of cc f)
  row-Fork idx o (inl (e, q)) = (Fork.amsterdam, e, q)
  row-Fork idx o (inr (inl (e, q))) = (Fork.bpo2, e, q)
  row-Fork idx o (inr (inr (inl (e, q)))) = (Fork.bpo1, e, q)
  row-Fork idx o (inr (inr (inr (inl (e, q))))) = (Fork.osaka, e, q)
  row-Fork idx o (inr (inr (inr (inr (inl (e, q)))))) = (Fork.prague, e, q)
  row-Fork idx o (inr (inr (inr (inr (inr (inl (e, q))))))) = (Fork.cancun, e, q)
  row-Fork idx o (inr (inr (inr (inr (inr (inr (inl (e, q)))))))) = (Fork.shanghai, e, q)
  row-Fork idx o (inr (inr (inr (inr (inr (inr (inr h))))))) = absurd h

  active-Fork :
      (ts idx : ℕ)
      → IsActive ts (fork_table cc) idx
      → (f : Fork) × (idx ≡ number f) × IsReached ts (time_of cc f)
  active-Fork ts idx a =
      let (o, row, h) = active-IsRow ts (fork_table cc) idx a in
      let (f, e, q) = row-Fork idx o row in (f, e, subst (IsReached ts) q h)

-- If some fork of the chain config has a time that is reached, what is found is the number of such a
-- fork, and no such fork has a higher one; if none has, it is that of Amsterdam.
pub active_protocol_fork-newest :
    (cc : FixtureChainConfig) (ts : ℕ)
    → ((f : Fork)
        → IsReached ts (time_of cc f)
        → (f' : Fork) × (active_protocol_fork (some cc) ts ≡ number f')
          × IsReached ts (time_of cc f')
          × (number f ≤ number f'))
      × (((f : Fork) → ¬ IsReached ts (time_of cc f))
          → active_protocol_fork (some cc) ts ≡ number Fork.amsterdam)
unfolding active_protocol_fork
active_protocol_fork-newest cfg ts = (
  λ f h.
      let a =
        row-IsActive ts (fork_table cfg) (number f) (time_of cfg f) (fork_table-IsRow cfg f) h in
      let (found, most) = first_active-newest ts 0x15 (fork_table cfg) (number f) (omega arith) a in
      let (f', same, h') = active-Fork cfg ts _ found in (f', same, h', omega (arith, most, same)),
  λ none_yet. elim (first_active-cases ts (fork_table cfg)) [
    | inl e ↦ e
    | inr a ↦ let (f, _, h) = active-Fork cfg ts _ a in absurd (none_yet f h)
  ],
)

-- The fork that is found for a chain config is Amsterdam or one that is active.
pub active_protocol_fork-cases :
    (cc : FixtureChainConfig) (ts : ℕ)
    → (active_protocol_fork (some cc) ts ≡ fork_amsterdam)
      ⊎ IsActive ts (fork_table cc) (active_protocol_fork (some cc) ts)
unfolding active_protocol_fork
active_protocol_fork-cases cfg ts = first_active-cases ts (fork_table cfg)
