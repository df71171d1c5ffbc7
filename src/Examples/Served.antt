-- ===== src/Examples/Served.antt =====
-- The service at concrete environments, guests and heads.
use stateless_executor.Prelude.{
  ◌≡◌, ◌≢◌, ◌↔◌, ◌-◌, refl, ap₂, List, [], ◌∷◌, ◌++◌, Option, none, some, true, false, length,
  replicate, All, drop, if◌then◌else◌,
}
use stateless_executor.Prelude.Errors.{Error, Result, ok, err, message, ◌>>=◌}
use stateless_executor.Prelude.Text.{
  Text, codes, text_eq, split_byte, cut_at, trim_left, trim_right,
}
use stateless_executor.Prelude.Parse.{parse_uint, digits_value}
use stateless_executor.Prelude.Endian.{Bytes}
use stateless_executor.Fixture.Fork.{default_mainnet_chain_config}
use stateless_executor.Fixture.Live.{Block}
use stateless_executor.Fixture.Ssz.{zkvm_frame}
use stateless_executor.Store.{empty, all, capacity}
use stateless_executor.Pool
use stateless_executor.Pool.{fresh, pick, healthy, attempts}
use stateless_executor.Runner.{GuestSpec, Process, parse_guest_specs, parse_entries, parse_entry}
use stateless_executor.Pipeline.Fetch.{fetch, fetch_block, hex_num, bal_of}
use stateless_executor.Pipeline.Committed.{HasBal}
use stateless_executor.Service.{
  Config, Start, Mode, configure, split_env, trimmed_parts, env_or, genesis_from, run_block,
  dump_block, dump_fetched, Files, dump_path, Head, live_loop,
}
use stateless_executor.Service.Modes.{IsChosen, configure-IsChosen}
use stateless_executor.Service.Exit.{Accepts, run_block-zero, dump_block-committed}
use stateless_executor.Service.Live.{all_results, all-live}
use stateless_executor.Examples.{geth, json}
use stateless_executor.Examples.Fetched.{remote, engine, pool, genesis, fetched, clean}
use mathlib.Core.List.{Permᴰ}

abbrev spec_a : GuestSpec
spec_a = record { name = codes "a"; path = codes "/bin/a" }

abbrev spec_b : GuestSpec
spec_b = record { name = codes "b"; path = codes "/bin/b" }

-- Guest a accepts everything and guest b does not write enough.
abbrev process : GuestSpec → Bytes → Process
process spec bs =
    if text_eq spec.name (codes "a")
    then record { exit = none; stdout = replicate 43 1; stderr = []; duration_ms = 1 }
    else record { exit = none; stdout = []; stderr = []; duration_ms = 2 }

abbrev swapped : Permᴰ (spec_b ∷ spec_a ∷ []) (spec_a ∷ spec_b ∷ [])
swapped = Permᴰ.swap refl refl

run_block-zero_example :
    (run_block remote engine genesis pool process (spec_b ∷ spec_a ∷ []) 9 ≡ 0) ↔ (
      (bs : Bytes) × ((fetch remote engine (some genesis) pool 9).0.input ≡ ok bs)
      × All (Accepts process bs) (spec_a ∷ spec_b ∷ []))
run_block-zero_example =
    run_block-zero remote engine genesis pool process (spec_a ∷ spec_b ∷ []) (spec_b ∷ spec_a ∷ [])
      9 swapped

abbrev files : Files
files = record {
  make_dir = λ dir. none;
  join_path = λ dir name. dir ++ (codes "/" ++ name);
  write_file = λ path bs. none;
}

dumped : (dump_block remote engine genesis pool files (codes "/tmp") 9).0 ≡ 0
unfolding dump_block
dumped =
    ap₂
      (λ (i : Result Bytes) (e : Option Error).
        (dump_fetched remote engine genesis files (codes "/tmp") 9 i e).0)
      fetched clean

dump_block-committed_example :
    (bs : Bytes) × (b : Block geth) × (bal_bytes : Bytes) × ((fetch remote engine
        (some genesis)
        pool
        9).0.input
      ≡ ok bs)
    × (fetch_block remote (pick pool).0 (hex_num 9) ≡ ok b)
    × ((dump_block remote engine genesis pool files (codes "/tmp") 9).1
        ≡ some (dump_path files (codes "/tmp") 9, zkvm_frame bs))
    × (bal_of remote engine (pick pool).0 (hex_num 9) b ≡ ok bal_bytes)
    × HasBal remote b bal_bytes
dump_block-committed_example =
    dump_block-committed remote engine genesis pool files (codes "/tmp") 9 dumped

abbrev heads : List (Head geth)
heads =
    record {
      number = 9;
      pool = pool;
      remote = remote;
      process = process;
      finished = spec_b ∷ spec_a ∷ [];
    }
    ∷ []

abbrev error_text : Error → Text
error_text e = codes "error"

all-live_example :
    (live_loop error_text engine genesis empty heads >>= λ buf. ok (all buf))
    ≡ (all_results error_text engine genesis heads >>= λ rs. ok (drop (length rs - capacity) rs))
all-live_example = all-live error_text engine genesis heads

abbrev begin : Start
begin = record {
  json = json;
  read_config = λ path. err (message "" []);
  arrivals = λ urls k. urls;
  probes = λ k u. true;
}

-- One node, two guests and a block number.
abbrev env : Text → Text
env k =
    if text_eq k (codes "EL_RPC_URLS")
    then codes "http://a, "
    else if text_eq k (codes "GUEST_BINARIES")
    then codes "a:/bin/a,b:/bin/b"
    else if text_eq k (codes "BLOCK_NUMBER")
    then codes "12"
    else []

abbrev config : Config
config = record {
  listen_addr = codes ":8080";
  verbose = false;
  engine = engine;
  genesis = default_mainnet_chain_config;
  guests = spec_a ∷ spec_b ∷ [];
  pool = pool;
  mode = Mode.run_one 12;
}

configured : configure begin env ≡ ok config
unfolding configure split_env trimmed_parts env_or genesis_from Pool.new attempts healthy
    parse_guest_specs parse_entries parse_entry cut_at split_byte trim_left trim_right parse_uint
    digits_value
configured = refl

configure-IsChosen_example :
    (config.guests ≢ [])
    × (config.pool.nodes ≢ [])
    × IsChosen (env (codes "BLOCK_NUMBER")) (env (codes "DUMP_DIR")) config.mode
configure-IsChosen_example = configure-IsChosen begin env configured
