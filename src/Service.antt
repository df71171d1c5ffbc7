-- ===== src/Service.antt =====
-- main.go: the configuration, one block verified or dumped, and the loop over new heads. The guests
-- of a block run in goroutines of their own: the order in which they finish is an argument.
pub mod Modes
pub mod Exit
pub mod Live
use stateless_executor.Prelude.{
  ℕ, Bool, true, false, List, [], ◌∷◌, ◌++◌, Option, none, some, if◌then◌else◌, foldl,
}
use stateless_executor.Prelude.Errors.{
  Error, Result, ok, err, panic, wrap, message, external, ◌>>=◌, wrapping,
}
use stateless_executor.Prelude.Text.{Text, codes, text_eq, split_byte, trim_space}
use stateless_executor.Prelude.Parse.{parse_uint, decimal_digit}
use stateless_executor.Prelude.Endian.{Bytes}
use stateless_executor.Fixture.Geth.{Geth, Json}
use stateless_executor.Fixture.Fork.{
  GenesisChainConfig, parse_genesis, default_mainnet_chain_config,
}
use stateless_executor.Fixture.Ssz.{zkvm_frame}
use stateless_executor.Store
use stateless_executor.Store.{RingBuffer, add}
use stateless_executor.Pool
use stateless_executor.Pool.{Pool}
use stateless_executor.Runner
use stateless_executor.Runner.{GuestSpec, Process, parse_guest_specs}
use stateless_executor.Pipeline.Types.{Remote, BlockMeta}
use stateless_executor.Pipeline.Engine.{format_uint}
use stateless_executor.Pipeline.Fetch.{EngineConfig, Fetched, fetch}

unfoldable pub trimmed_parts : List Text → List Text
trimmed_parts [] = []
trimmed_parts (p ∷ ps) =
    let s = trim_space p in let rest = trimmed_parts ps in if text_eq s [] then rest else s ∷ rest

-- `splitEnv`, on the value of the variable.
unfoldable pub split_env : Text → List Text
unfolding trimmed_parts
split_env val = if text_eq val [] then [] else trimmed_parts (split_byte b',' val)

unfoldable pub env_or : Text → Text → Text
env_or v def = if text_eq v [] then def else v

-- What `main` does once it is configured.
pub data Mode : Type 0 where
  run_one : ℕ → Mode
  dump_one : ℕ → Text → Mode
  live : Mode

pub record Config : Type 0 where
  pub listen_addr : Text
  pub verbose : Bool
  pub engine : EngineConfig
  pub genesis : GenesisChainConfig
  pub guests : List GuestSpec
  pub pool : Pool
  pub mode : Mode

-- What the start depends on beside the environment: the `config` map of a genesis file, and the
-- probes of the nodes.
pub record Start : Type 0 where
  pub json : Json
  pub read_config : Text → Result (List (Text × Bytes))
  pub arrivals : List Text → ℕ → List Text
  pub probes : ℕ → Text → Bool

unfoldable pub genesis_from : Start → Text → Result GenesisChainConfig
unfolding parse_genesis default_mainnet_chain_config
genesis_from s path =
    if text_eq path []
    then ok default_mainnet_chain_config
    else wrapping "GENESIS_FILE" (s.read_config path >>= parse_genesis s.json)

abbrev pub mode_of : Text → Text → Result Mode
mode_of [] dir =
    if text_eq dir [] then ok Mode.live else err (message "DUMP_DIR requires BLOCK_NUMBER" [])
mode_of (c ∷ block_str) dir = do
  block_num ← wrapping "BLOCK_NUMBER" (parse_uint decimal_digit 10 (c ∷ block_str))
  ok (if text_eq dir [] then Mode.run_one block_num else Mode.dump_one block_num dir)

abbrev pub some_urls : List Text → Result (List Text)
some_urls [] = err (message "EL_RPC_URLS is required" [])
some_urls (u ∷ us) = ok (u ∷ us)

-- `main` up to the choice of the mode; every log.Fatal is an error.
unfoldable pub configure : Start → (Text → Text) → Result Config
unfolding split_env env_or genesis_from Pool.new parse_guest_specs parse_uint
configure s env = do
  urls ← some_urls (split_env (env (codes "EL_RPC_URLS")))
  genesis ← genesis_from s (env (codes "GENESIS_FILE"))
  guests ← wrapping "GUEST_BINARIES" (parse_guest_specs (env (codes "GUEST_BINARIES")))
  p ← wrapping "pool init" (Pool.new (s.arrivals urls) s.probes)
  mode ← mode_of (env (codes "BLOCK_NUMBER")) (env (codes "DUMP_DIR"))
  ok (record {
    listen_addr = env_or (env (codes "LISTEN_ADDR")) (codes ":8080");
    verbose = text_eq (env (codes "VERBOSE")) (codes "true");
    engine = record {
      url = env (codes "ENGINE_RPC_URL");
      jwt_secret_file = env (codes "JWT_SECRET_FILE");
    };
    genesis = genesis;
    guests = guests;
    pool = p;
    mode = mode;
  })

-- What a guest's process does with an input.
abbrev pub Processes : Type 0
Processes = GuestSpec → Bytes → Process

-- The result of `Run`, with the fields that the goroutine sets before it looks at the error.
unfoldable pub labelled : Text → BlockMeta → Runner.Report → Store.Result
labelled el_node meta report = record report.result {
  witness_from = el_node;
  tx_count = meta.tx_count;
  gas_used = meta.gas_used;
}

-- The exit code after one more guest of `runBlock` has finished.
abbrev pub code_after : ℕ → Option Error → Bool → ℕ
code_after code (some e) valid = 1
code_after code none true = code
code_after code none false = 1

unfoldable pub guests_code : Processes → Bytes → ℕ → ℕ → List GuestSpec → ℕ
unfolding Runner.run
guests_code process input n code [] = code
guests_code process input n code (spec ∷ specs) =
    let report = Runner.run spec (process spec input) n in
    guests_code process input n (code_after code report.error report.result.valid) specs

-- The files that `dumpBlock` writes to.
pub record Files : Type 0 where
  pub make_dir : Text → Option Error
  pub join_path : Text → Text → Text
  pub write_file : Text → Bytes → Option Error

-- The exit code of a Go program that panics.
abbrev pub panic_code : ℕ
panic_code = 2

abbrev pub dump_path : Files → Text → ℕ → Text
dump_path files dir n = files.join_path dir (format_uint n 10 ++ codes ".bin")

module _ {g : Geth} (r : Remote g) (e : EngineConfig) (genesis : GenesisChainConfig) where
  abbrev pub run_code : Processes → List GuestSpec → ℕ → Result Bytes → ℕ
  run_code process finished n (ok input) = guests_code process input n 0 finished
  run_code process finished n (err x) = 1
  run_code process finished n panic = panic_code

  -- `runBlock`, where `finished` lists the guests in the order in which they finish.
  unfoldable pub run_block : Pool → Processes → List GuestSpec → ℕ → ℕ
  unfolding fetch guests_code
  run_block p process finished n =
      run_code process finished n (fetch r e (some genesis) p n).0.input

  -- From the creation of the directory on: the exit code, and what was written where.
  abbrev pub dump_to : Files → Text → ℕ → Bytes → ℕ × Option (Text × Bytes)
  dump_to files dir n input = elim (files.make_dir dir) [
    | some e' ↦ (1, none)
    | none ↦
        let path = dump_path files dir n in
        elim (files.write_file path (zkvm_frame input)) [
          | some e' ↦ (1, none)
          | none ↦ (0, some (path, zkvm_frame input))
        ]
  ]

  abbrev pub dump_fetched :
      Files → Text → ℕ → Result Bytes → Option Error → ℕ × Option (Text × Bytes)
  dump_fetched files dir n (ok input) none = dump_to files dir n input
  dump_fetched files dir n (ok input) (some x) = (1, none)
  dump_fetched files dir n (err x) bal_err = (1, none)
  dump_fetched files dir n panic bal_err = (panic_code, none)

  unfoldable pub dump_block : Pool → Files → Text → ℕ → ℕ × Option (Text × Bytes)
  unfolding fetch format_uint zkvm_frame
  dump_block p files dir n =
      let fetched = (fetch r e (some genesis) p n).0 in
      dump_fetched files dir n fetched.input fetched.meta.bal_err

-- A head that arrives, with the pool, the network and the processes at its time and the order in
-- which the guests finish.
pub record Head (g : Geth) : Type 1 where
  pub number : ℕ
  pub pool : Pool
  pub remote : Remote g
  pub process : Processes
  pub finished : List GuestSpec

-- err.Error()
module _ (error_text : Error → Text) where
  abbrev pub noted : GuestSpec → ℕ → Option Error → Store.Result → Store.Result
  noted spec n none result = result
  noted spec n (some e) result = record result {
    block = n;
    guest = spec.name;
    error = error_text e;
  }

  -- What a goroutine of the live loop adds to the buffer.
  unfoldable pub result_of : Fetched → Processes → Bytes → ℕ → GuestSpec → Store.Result
  unfolding Runner.run labelled
  result_of fetched process input n spec =
      let report = Runner.run spec (process spec input) n in
      noted spec n report.error (labelled fetched.el_node fetched.meta report)

  unfoldable pub add_results :
      Fetched → Processes → Bytes → ℕ → List GuestSpec → RingBuffer → RingBuffer
  unfolding result_of add
  add_results fetched process input n [] buf = buf
  add_results fetched process input n (spec ∷ specs) buf =
      add_results fetched process input n specs (add buf (result_of fetched process input n spec))

  module _ {g : Geth} (e : EngineConfig) (genesis : GenesisChainConfig) where
    -- One round of the select loop: a fetch error goes on with the next head, and a panic ends the
    -- service.
    abbrev pub after_fetch : Head g → Fetched → RingBuffer → Result Bytes → Result RingBuffer
    after_fetch head fetched buf (ok input) =
        ok (add_results fetched head.process input head.number head.finished buf)
    after_fetch head fetched buf (err x) = ok buf
    after_fetch head fetched buf panic = panic

    unfoldable pub live_step : RingBuffer → Head g → Result RingBuffer
    unfolding fetch add_results
    live_step buf head =
        let fetched = (fetch head.remote e (some genesis) head.pool head.number).0 in
        after_fetch head fetched buf fetched.input

    -- The loop, for the heads that arrive.
    unfoldable pub live_loop : RingBuffer → List (Head g) → Result RingBuffer
    unfolding live_step
    live_loop buf [] = ok buf
    live_loop buf (head ∷ heads) = do buf' ← live_step buf head; live_loop buf' heads
