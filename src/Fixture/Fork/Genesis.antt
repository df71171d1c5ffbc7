-- ===== src/Fixture/Fork/Genesis.antt =====
-- The genesis schedule of fixture/genesis.go against the fork table of fixture/encode_ssz.go.
use stateless_executor.Prelude.{
  ℕ, ◌≤◌, ◌≡◌, ◌≢◌, refl, sym, ap, ◌∙◌, List, [], ◌∷◌, ◌++◌, Option, none, some, foldl, leb, ◌==◌,
  if◌then◌else◌, arith,
}
use stateless_executor.Prelude.Errors.{ok}
use stateless_executor.Prelude.Text.{Text}
use stateless_executor.Prelude.Endian.{Bytes}
use stateless_executor.Fixture.Types.{FixtureChainConfig}
use stateless_executor.Fixture.Geth.{Json}
use stateless_executor.Fixture.Fork.{
  fork_cancun, fork_prague, fork_osaka, fork_bpo1, fork_bpo2, fork_amsterdam, first_active,
  active_protocol_fork, GenesisFork, GenesisChainConfig, newest_active, active_genesis_fork,
  config_field, field_uint64, with_fork, fork_defs, genesis_of, parse_forks, parse_genesis,
}
use mathlib.Core.List.{reverse, reverse-append}

-- A fork that is reached takes the place of an older one.
abbrev pub step : ℕ → ℕ → GenesisFork → ℕ
step ts d f = if leb f.activation_time ts then f.enum_val else d

newest_or : ℕ → ℕ → List GenesisFork → ℕ
newest_or ts d [] = d
newest_or ts d (f ∷ fs) =
    let rest = newest_or ts d fs in if leb f.activation_time ts then f.enum_val else rest

newest_or-zero : (ts : ℕ) (fs : List GenesisFork) → newest_active ts fs ≡ newest_or ts 0 fs
unfolding newest_active newest_or
newest_or-zero ts [] = refl
newest_or-zero ts (f ∷ fs) = rw (newest_or-zero ts fs)

newest_or-snoc :
    (ts d : ℕ) (fs : List GenesisFork) (f : GenesisFork)
    → newest_or ts d (fs ++ (f ∷ [])) ≡ newest_or ts (step ts d f) fs
unfolding newest_or
newest_or-snoc ts d [] f = refl
newest_or-snoc ts d (g ∷ fs) f = rw (newest_or-snoc ts d fs f)

newest_or-reverse :
    (ts d : ℕ) (fs : List GenesisFork) → newest_or ts d (reverse fs) ≡ foldl (step ts) d fs
newest_or-reverse ts d [] = unfold newest_or in refl
newest_or-reverse ts d (f ∷ fs) =
    ap (newest_or ts d) (reverse-append (f ∷ []) fs)
    ∙ newest_or-snoc ts d (reverse fs) f
    ∙ newest_or-reverse ts (step ts d f) fs

-- Read oldest first, the last fork that is reached wins.
pub active_genesis_fork-foldl :
    (g : GenesisChainConfig) (ts : ℕ) → active_genesis_fork g ts ≡ foldl (step ts) 0 g.active_forks
unfolding active_genesis_fork
active_genesis_fork-foldl g ts =
    newest_or-zero ts (reverse g.active_forks) ∙ newest_or-reverse ts 0 g.active_forks

-- The forks that a genesis with the times of a chain config declares, oldest first.
abbrev pub forks_of : FixtureChainConfig → List GenesisFork
forks_of cc = with_fork fork_cancun cc.cancun_time (
    with_fork fork_prague cc.prague_time (
      with_fork fork_osaka cc.osaka_time (
        with_fork fork_bpo1 cc.bpo1_time
          (with_fork fork_bpo2 cc.bpo2_time (with_fork fork_amsterdam cc.amsterdam_time [])))))

abbrev step_time : ℕ → ℕ → ℕ → Option ℕ → ℕ
step_time ts d idx none = d
step_time ts d idx (some t) = if leb t ts then idx else d

foldl-with_fork :
    (ts d idx : ℕ) (o : Option ℕ) (fs : List GenesisFork)
    → foldl (step ts) d (with_fork idx o fs) ≡ foldl (step ts) (step_time ts d idx o) fs
foldl-with_fork ts d idx none fs = refl
foldl-with_fork ts d idx (some t) fs = refl

first_active-cons :
    (ts idx : ℕ) (o : Option ℕ) (rows : List (ℕ × Option ℕ))
    → first_active ts ((idx, o) ∷ rows) ≡ step_time ts (first_active ts rows) idx o
unfolding first_active
first_active-cons ts idx none rows = refl
first_active-cons ts idx (some t) rows = refl

abbrev pub or_amsterdam : ℕ → ℕ
or_amsterdam fork = if fork == 0 then fork_amsterdam else fork

or_amsterdam-step_time :
    (ts d idx : ℕ) (o : Option ℕ)
    → idx ≢ 0
    → or_amsterdam (step_time ts d idx o) ≡ step_time ts (or_amsterdam d) idx o
or_amsterdam-step_time ts d idx none h = refl
or_amsterdam-step_time ts d idx (some t) h = ground arith

push :
    (ts d d' idx : ℕ) (o : Option ℕ)
    → idx ≢ 0
    → or_amsterdam d ≡ d'
    → or_amsterdam (step_time ts d idx o) ≡ step_time ts d' idx o
push ts d d' idx o h e =
    or_amsterdam-step_time ts d idx o h ∙ ap (λ (k : ℕ). step_time ts k idx o) e

module _ (cc : FixtureChainConfig) (ts : ℕ) where
  -- The six steps from a fork d on.
  abbrev walk : ℕ → ℕ
  walk d =
      step_time ts
        (step_time ts
          (step_time ts
            (step_time ts
              (step_time ts (step_time ts d fork_cancun cc.cancun_time) fork_prague cc.prague_time)
              fork_osaka cc.osaka_time)
            fork_bpo1 cc.bpo1_time)
          fork_bpo2 cc.bpo2_time)
        fork_amsterdam cc.amsterdam_time

  foldl-walk : (d : ℕ) → foldl (step ts) d (forks_of cc) ≡ walk d
  foldl-walk d =
      foldl-with_fork ts _ fork_cancun cc.cancun_time _
      ∙ foldl-with_fork ts _ fork_prague cc.prague_time _
      ∙ foldl-with_fork ts _ fork_osaka cc.osaka_time _
      ∙ foldl-with_fork ts _ fork_bpo1 cc.bpo1_time _
      ∙ foldl-with_fork ts _ fork_bpo2 cc.bpo2_time _
      ∙ foldl-with_fork ts _ fork_amsterdam cc.amsterdam_time []

  first_active-walk :
      active_protocol_fork (some (record cc { shanghai_time = none })) ts ≡ walk fork_amsterdam
  unfolding active_protocol_fork
  first_active-walk = simp first_active-cons

  or_amsterdam-walk : or_amsterdam (walk 0) ≡ walk fork_amsterdam
  or_amsterdam-walk = push ts _ _ fork_amsterdam cc.amsterdam_time (omega arith) (
      push ts _ _ fork_bpo2 cc.bpo2_time (omega arith) (
        push ts _ _ fork_bpo1 cc.bpo1_time (omega arith) (
          push ts _ _ fork_osaka cc.osaka_time (omega arith) (
            push ts _ _ fork_prague cc.prague_time (omega arith)
              (push ts _ _ fork_cancun cc.cancun_time (omega arith) refl)))))

-- For a genesis that declares the fork times of a chain config, the genesis path, with Amsterdam
-- for 0, picks the fork that the fixture path picks for that config without its Shanghai time.
pub active_genesis_fork-agrees :
    (cc : FixtureChainConfig) (chain_id ts : ℕ)
    → or_amsterdam
        (active_genesis_fork (record { chain_id = chain_id; active_forks = forks_of cc }) ts)
      ≡ active_protocol_fork (some (record cc { shanghai_time = none })) ts
active_genesis_fork-agrees cfg chain_id ts =
    ap or_amsterdam (
      active_genesis_fork-foldl (record { chain_id = chain_id; active_forks = forks_of cfg }) ts
      ∙ foldl-walk cfg ts 0)
    ∙ or_amsterdam-walk cfg ts
    ∙ sym (first_active-walk cfg ts)

-- Forks in the order of their numbers.
abbrev pub IsOldestFirst : ℕ → List GenesisFork → Type 0
IsOldestFirst bound [] = Unit
IsOldestFirst bound (f ∷ fs) = (bound ≤ f.enum_val) × IsOldestFirst f.enum_val fs

foldl_mono :
    (ts ts' bound d d' : ℕ) (fs : List GenesisFork)
    → ts ≤ ts'
    → IsOldestFirst bound fs
    → d ≤ d'
    → d' ≤ bound
    → foldl (step ts) d fs ≤ foldl (step ts') d' fs
foldl_mono ts ts' bound d d' [] later h le le' = le
foldl_mono ts ts' bound d d' (f ∷ fs) later h le le' =
    foldl_mono ts ts' f.enum_val (step ts d f) (step ts' d' f) fs later h.1 (ground arith)
      (ground arith)

IsOldestFirst-weaken :
    (a b : ℕ) (fs : List GenesisFork) → a ≤ b → IsOldestFirst b fs → IsOldestFirst a fs
IsOldestFirst-weaken a b [] h o = tt
IsOldestFirst-weaken a b (f ∷ fs) h o = (omega (arith, o.0), o.1)

-- The table of genesis fields, oldest first.
abbrev IsOrdered : ℕ → List (Text × ℕ) → Type 0
IsOrdered bound [] = Unit
IsOrdered bound ((k, n) ∷ defs) = (bound ≤ n) × IsOrdered n defs

with_fork-IsOldestFirst :
    (bound n : ℕ) (o : Option ℕ) (fs : List GenesisFork)
    → bound ≤ n
    → IsOldestFirst n fs
    → IsOldestFirst bound (with_fork n o fs)
with_fork-IsOldestFirst bound n none fs h k = IsOldestFirst-weaken bound n fs h k
with_fork-IsOldestFirst bound n (some t) fs h k = (h, k)

parse_forks-IsOldestFirst :
    (j : Json) (config : List (Text × Bytes)) (bound : ℕ) (defs : List (Text × ℕ))
    → IsOrdered bound defs
    → IsOldestFirst bound (parse_forks j config defs)
unfolding parse_forks
parse_forks-IsOldestFirst j config bound [] o = tt
parse_forks-IsOldestFirst j config bound ((k, n) ∷ defs) o =
    with_fork-IsOldestFirst bound n (field_uint64 j (config_field k config))
      (parse_forks j config defs) o.0 (parse_forks-IsOldestFirst j config n defs o.1)

genesis_of-forks :
    (chain_id : ℕ) (fs : List GenesisFork) {g : GenesisChainConfig}
    → genesis_of chain_id fs ≡ ok g
    → fs ≡ g.active_forks
genesis_of-forks chain_id [] e = cc
genesis_of-forks chain_id (f ∷ fs) e = ground arith

parse_genesis-forks :
    (j : Json) (config : List (Text × Bytes)) {g : GenesisChainConfig}
    → parse_genesis j config ≡ ok g
    → parse_forks j config fork_defs ≡ g.active_forks
unfolding parse_genesis
parse_genesis-forks j config e = genesis_of-forks _ (parse_forks j config fork_defs) e

parse_genesis-IsOldestFirst :
    (j : Json) (config : List (Text × Bytes)) {g : GenesisChainConfig}
    → parse_genesis j config ≡ ok g
    → IsOldestFirst 0 g.active_forks
parse_genesis-IsOldestFirst j config {g} e =
    let forks = parse_forks j config fork_defs in
    rw (← parse_genesis-forks j config e)
      (parse_forks-IsOldestFirst j config 0 fork_defs (omega arith))

found_mono :
    (j : Json) (config : List (Text × Bytes)) {g : GenesisChainConfig} (ts ts' : ℕ)
    → parse_genesis j config ≡ ok g
    → ts ≤ ts'
    → active_genesis_fork g ts ≤ active_genesis_fork g ts'
found_mono j config {g} ts ts' e h =
    rw (active_genesis_fork-foldl g ts, active_genesis_fork-foldl g ts')
      (foldl_mono ts ts' 0 0 0 g.active_forks h (parse_genesis-IsOldestFirst j config e)
        (omega arith) (omega arith))

or_amsterdam-found : (idx : ℕ) → idx ≢ 0 → or_amsterdam idx ≡ idx
or_amsterdam-found idx h = ground arith

-- Under a genesis that was parsed, once one of its forks is active, a block with a later timestamp is
-- never executed under an older fork; the callers take 0, no fork, for Amsterdam.
pub active_genesis_fork_mono :
    (j : Json) (config : List (Text × Bytes)) {g : GenesisChainConfig} (ts ts' : ℕ)
    → parse_genesis j config ≡ ok g
    → active_genesis_fork g ts ≢ 0
    → ts ≤ ts'
    → or_amsterdam (active_genesis_fork g ts) ≤ or_amsterdam (active_genesis_fork g ts')
active_genesis_fork_mono j config {g} ts ts' e some_fork h =
    let later = found_mono j config ts ts' e h in
    let some_fork' : active_genesis_fork g ts' ≢ 0 = λ q. some_fork (omega (arith, q, later)) in
    let same = or_amsterdam-found (active_genesis_fork g ts) some_fork in
    let same' = or_amsterdam-found (active_genesis_fork g ts') some_fork' in
    omega (arith, later, same, same')
