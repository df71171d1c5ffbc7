-- ===== src/Fixture/Load.antt =====
-- LoadFile and LoadZkevmFile of fixture/fixture.go, on what reading and decoding a file give. A Go
-- map is its keys, in the order in which a range loop happens to visit them, and what stands at each.
pub mod Order
use stateless_executor.Prelude.{List, [], ◌∷◌, Bool, true, false}
use stateless_executor.Prelude.Errors.{Result, ok, err, panic, ◌>>=◌, wrapping}
use stateless_executor.Prelude.Text.{Text}
use stateless_executor.Prelude.Endian.{Bytes}
use stateless_executor.Prelude.Sort.{sort}
use stateless_executor.Prelude.Sort.Orders.{text_lt}
use stateless_executor.Fixture.Types.{FixtureFile}
use stateless_executor.Fixture.Zkevm.{ZkevmTestCase, EnginePayload, engine_blocks}

pub record RawMap : Type 0 where
  pub keys : List Text
  pub at : Text → Bytes

-- os.ReadFile, and json.Unmarshal at the types that the loaders decode into.
pub record Disk : Type 0 where
  pub read_file : Text → Result Bytes
  pub unmarshal_fixture : Bytes → Result FixtureFile
  pub unmarshal_map : Bytes → Result RawMap
  pub unmarshal_case : Bytes → Result ZkevmTestCase
  pub unmarshal_engine : Bytes → Result (List EnginePayload)

module _ (d : Disk) where
  unfoldable pub load_file : Text → Result FixtureFile
  load_file path = do
    content ← wrapping "read" (d.read_file path)
    wrapping "parse" (d.unmarshal_fixture content)

  abbrev pub with_engine : Bytes → ZkevmTestCase → Result ZkevmTestCase
  with_engine raw tc = elim tc.blocks [
    | [] ↦ wrapping "parse test" (d.unmarshal_engine raw) >>= λ payloads.
        ok (record tc { blocks = engine_blocks payloads })
    | (b ∷ bs) ↦ ok tc
  ]

  -- The loop over the sorted names.
  unfoldable pub load_cases : (Text → Bytes) → List Text → Result (List ZkevmTestCase)
  unfolding engine_blocks
  load_cases at [] = ok []
  load_cases at (name ∷ names) = do
    tc ← wrapping "parse test" (d.unmarshal_case (at name))
    tc' ← with_engine (at name) tc
    out ← load_cases at names
    ok (record tc' { name = name } ∷ out)

  unfoldable pub load_zkevm_map : RawMap → Result (List ZkevmTestCase)
  unfolding load_cases
  load_zkevm_map m = load_cases m.at (sort text_lt m.keys)

  unfoldable pub load_zkevm_file : Text → Result (List ZkevmTestCase)
  unfolding load_zkevm_map
  load_zkevm_file path = do
    content ← wrapping "read" (d.read_file path)
    m ← wrapping "parse" (d.unmarshal_map content)
    load_zkevm_map m
