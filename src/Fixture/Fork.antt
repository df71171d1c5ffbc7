-- ===== src/Fixture/Fork.antt =====
-- fixture/encode_ssz.go and fixture/genesis.go: which fork a block is executed under.
pub mod Newest
pub mod Genesis
use stateless_executor.Prelude.{
  ℕ, ◌+◌, Bool, List, [], ◌∷◌, ◌++◌, Option, none, some, map, if◌then◌else◌, leb, length, ◌==◌,
}
use stateless_executor.Prelude.Errors.{Error, Result, ok, err, panic, message}
use stateless_executor.Prelude.Text.{Text, codes, text_eq}
use stateless_executor.Prelude.Endian.{Bytes}
use stateless_executor.Fixture.Types.{FixtureChainConfig}
use stateless_executor.Fixture.Geth.{Json}
use mathlib.Core.List.{reverse}

abbrev pub fork_shanghai : ℕ
fork_shanghai = 0x0F

abbrev pub fork_cancun : ℕ
fork_cancun = 0x10

abbrev pub fork_prague : ℕ
fork_prague = 0x11

abbrev pub fork_osaka : ℕ
fork_osaka = 0x12

abbrev pub fork_bpo1 : ℕ
fork_bpo1 = 0x13

abbrev pub fork_bpo2 : ℕ
fork_bpo2 = 0x14

abbrev pub fork_amsterdam : ℕ
fork_amsterdam = 0x15

-- The table of `activeProtocolFork`, newest fork first.
abbrev pub fork_table : FixtureChainConfig → List (ℕ × Option ℕ)
fork_table cc =
    (fork_amsterdam, cc.amsterdam_time)
    ∷ (fork_bpo2, cc.bpo2_time)
    ∷ (fork_bpo1, cc.bpo1_time)
    ∷ (fork_osaka, cc.osaka_time)
    ∷ (fork_prague, cc.prague_time)
    ∷ (fork_cancun, cc.cancun_time)
    ∷ (fork_shanghai, cc.shanghai_time)
    ∷ []

-- Its loop: the first row whose time is set and reached.
unfoldable pub first_active : ℕ → List (ℕ × Option ℕ) → ℕ
first_active block_timestamp [] = fork_amsterdam
first_active block_timestamp ((idx, none) ∷ rows) = first_active block_timestamp rows
first_active block_timestamp ((idx, some t) ∷ rows) =
    let rest = first_active block_timestamp rows in if leb t block_timestamp then idx else rest

unfoldable pub active_protocol_fork : Option FixtureChainConfig → ℕ → ℕ
unfolding first_active
active_protocol_fork none block_timestamp = fork_amsterdam
active_protocol_fork (some cc) block_timestamp = first_active block_timestamp (fork_table cc)

pub record GenesisFork : Type 0 where
  pub enum_val : ℕ
  pub activation_time : ℕ

pub record GenesisChainConfig : Type 0 where
  pub chain_id : ℕ
  pub active_forks : List GenesisFork

abbrev pub fork_defs : List (Text × ℕ)
fork_defs =
    (codes "cancunTime", fork_cancun)
    ∷ (codes "pragueTime", fork_prague)
    ∷ (codes "osakaTime", fork_osaka)
    ∷ (codes "bpo1Time", fork_bpo1)
    ∷ (codes "bpo2Time", fork_bpo2)
    ∷ (codes "amsterdamTime", fork_amsterdam)
    ∷ []

-- The value of a key of the genesis `config` object.
unfoldable pub config_field : Text → List (Text × Bytes) → Option Bytes
config_field k [] = none
config_field k ((name, raw) ∷ m) =
    let rest = config_field k m in if text_eq name k then some raw else rest

-- A field as a uint64, if it is there and one.
unfoldable pub field_uint64 : Json → Option Bytes → Option ℕ
field_uint64 j none = none
field_uint64 j (some raw) = elim (j.unmarshal_uint64 raw) [ ok t ↦ some t | _ ↦ none ]

-- append of a fork whose time was read; else `continue`.
abbrev pub with_fork : ℕ → Option ℕ → List GenesisFork → List GenesisFork
with_fork idx none fs = fs
with_fork idx (some t) fs = record { enum_val = idx; activation_time = t } ∷ fs

-- The loop of ParseGenesisFile: a field that is absent or no uint64 is skipped.
unfoldable pub parse_forks : Json → List (Text × Bytes) → List (Text × ℕ) → List GenesisFork
unfolding config_field field_uint64
parse_forks j config [] = []
parse_forks j config ((time_field, enum_val) ∷ defs) =
    with_fork enum_val (field_uint64 j (config_field time_field config)) (parse_forks j config defs)

abbrev pub no_forks : Error
no_forks = message "genesis: no supported fork activation times found" []

abbrev pub genesis_of : ℕ → List GenesisFork → Result GenesisChainConfig
genesis_of chain_id [] = err no_forks
genesis_of chain_id (f ∷ fs) = ok (record { chain_id = chain_id; active_forks = f ∷ fs })

-- if p != nil { x = *p } over a zero x
abbrev pub or_zero : Option ℕ → ℕ
or_zero none = 0
or_zero (some n) = n

-- ParseGenesisFile on the decoded top-level `config` map.
unfoldable pub parse_genesis : Json → List (Text × Bytes) → Result GenesisChainConfig
parse_genesis j config =
    genesis_of (or_zero (field_uint64 j (config_field (codes "chainId") config)))
      (parse_forks j config fork_defs)

unfoldable pub default_mainnet_chain_config : GenesisChainConfig
default_mainnet_chain_config = record {
  chain_id = 1;
  active_forks =
      record { enum_val = fork_cancun; activation_time = 1710338135 }
      ∷ record { enum_val = fork_prague; activation_time = 1746612311 }
      ∷ record { enum_val = fork_osaka; activation_time = 1764798551 }
      ∷ record { enum_val = fork_bpo1; activation_time = 1765290071 }
      ∷ record { enum_val = fork_bpo2; activation_time = 1767747671 }
      ∷ [];
}

unfoldable pub fork_count : GenesisChainConfig → ℕ
fork_count g = length g.active_forks

-- The loop of ActiveProtocolFork over i = len-1, ..., 0: over the reversed list.
unfoldable pub newest_active : ℕ → List GenesisFork → ℕ
newest_active block_timestamp [] = 0
newest_active block_timestamp (f ∷ fs) =
    let rest = newest_active block_timestamp fs in
    if leb f.activation_time block_timestamp then f.enum_val else rest

-- GenesisChainConfig.ActiveProtocolFork
unfoldable pub active_genesis_fork : GenesisChainConfig → ℕ → ℕ
unfolding newest_active
active_genesis_fork g block_timestamp = newest_active block_timestamp (reverse g.active_forks)
