-- ===== src/Examples/Forks.antt =====
-- Fork selection at one chain config.
use stateless_executor.Prelude.{◌≡◌, ◌≢◌, ◌≤◌, refl, some, none, [], ◌∷◌, arith, List}
use stateless_executor.Prelude.Errors.{ok}
use stateless_executor.Prelude.Text.{Text, codes}
use stateless_executor.Prelude.Endian.{Bytes}
use stateless_executor.Fixture.Fork.{
  active_protocol_fork, active_genesis_fork, newest_active, GenesisChainConfig, parse_genesis,
  parse_forks, config_field, field_uint64,
}
use stateless_executor.Fixture.Fork.Newest.{
  Fork, number, time_of, IsReached, active_protocol_fork-newest,
}
use stateless_executor.Fixture.Fork.Genesis.{
  forks_of, or_amsterdam, active_genesis_fork-agrees, active_genesis_fork_mono,
}
use stateless_executor.Examples.{chain_config, json}

active_protocol_fork-newest_example :
    ((f : Fork)
      → IsReached 400 (time_of chain_config f)
      → (f' : Fork) × (active_protocol_fork (some chain_config) 400 ≡ number f')
        × IsReached 400 (time_of chain_config f')
        × (number f ≤ number f'))
    × (((f : Fork) → ¬ IsReached 400 (time_of chain_config f))
        → active_protocol_fork (some chain_config) 400 ≡ number Fork.amsterdam)
active_protocol_fork-newest_example = active_protocol_fork-newest chain_config 400

active_genesis_fork-agrees_example :
    or_amsterdam
      (active_genesis_fork (record { chain_id = 1; active_forks = forks_of chain_config }) 600)
    ≡ active_protocol_fork (some (record chain_config { shanghai_time = none })) 600
active_genesis_fork-agrees_example = active_genesis_fork-agrees chain_config 1 600

-- chainId 1, Cancun at 3 and Osaka at 9.
abbrev config : List (Text × Bytes)
config = (codes "chainId", 1 ∷ []) ∷ (codes "cancunTime", 3 ∷ []) ∷ (codes "osakaTime", 9 ∷ []) ∷ []

abbrev genesis : GenesisChainConfig
genesis = record {
  chain_id = 1;
  active_forks =
      record { enum_val = 0x10; activation_time = 3 }
      ∷ record { enum_val = 0x12; activation_time = 9 }
      ∷ [];
}

parsed : parse_genesis json config ≡ ok genesis
unfolding parse_genesis parse_forks config_field field_uint64
parsed = refl

cancun_found : active_genesis_fork genesis 5 ≢ 0
unfolding active_genesis_fork newest_active
cancun_found e = cc

active_genesis_fork_mono_example :
    or_amsterdam (active_genesis_fork genesis 5) ≤ or_amsterdam (active_genesis_fork genesis 50)
active_genesis_fork_mono_example =
    active_genesis_fork_mono json config 5 50 parsed cancun_found (omega arith)
