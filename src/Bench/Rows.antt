-- ===== src/Bench/Rows.antt =====
-- bench/main.go: the rows of a run. How they are classified, ordered, split and summarised, what is
-- decoded of a guest's output, and the cells of the CSV.
pub mod Order
pub mod Stats
pub mod Output
pub mod Tally
use stateless_executor.Prelude.{
  ℕ, zero, suc, ◌+◌, ◌-◌, ◌*◌, ◌/◌, ◌%◌, ◌^◌, Bool, true, false, not, ◌&&◌, ◌||◌, List, [], ◌∷◌,
  ◌++◌, Option, none, some, map, if◌then◌else◌, ltb, ◌==◌, length, get_or, take, drop,
}
use stateless_executor.Prelude.Text.{Text, codes, text_eq}
use stateless_executor.Prelude.Endian.{Bytes, le_value}
use stateless_executor.Prelude.Sort.{sort}
use stateless_executor.Prelude.Sort.Orders.{text_lt}
use stateless_executor.Fixture.Format.{Format}
use stateless_executor.Fixture.Hex.{decode_string}
use stateless_executor.Emu.{CostReport, encode_to_string, stateless_output_size}
use stateless_executor.Pipeline.Engine.{format_uint}
use stateless_executor.Bench.{VerdictKind}
use stateless_executor.Bench.Run.{BlockResult}

-- The populations that `main` sorts the results into.
pub record Tallied : Type 0 where
  pub good : List BlockResult
  pub validation_failures : List BlockResult
  pub skipped_units : ℕ
  pub unverified : ℕ

abbrev pub no_tally : Tallied
no_tally = record { good = []; validation_failures = []; skipped_units = 0; unverified = 0 }

-- One round of the loop over the results.
abbrev pub tallied : Tallied → BlockResult → VerdictKind → Tallied
tallied t r VerdictKind.skip = record t { skipped_units = t.skipped_units + 1 }
tallied t r VerdictKind.error = t
tallied t r VerdictKind.fail = record t {
  good = t.good ++ (r ∷ []);
  validation_failures = t.validation_failures ++ (r ∷ []);
}
tallied t r VerdictKind.unverified = record t {
  unverified = t.unverified + 1;
  good = t.good ++ (r ∷ []);
}
tallied t r VerdictKind.pass = record t { good = t.good ++ (r ∷ []) }

unfoldable pub tally : Tallied → List BlockResult → Tallied
tally t [] = t
tally t (r ∷ rs) = tally (tallied t r r.verdict.kind) rs

abbrev pub is_zkevm : Format → Bool
is_zkevm Format.zkevm = true
is_zkevm _ = false

-- The comparison of `sortResults`.
unfoldable pub row_less : BlockResult → BlockResult → Bool
row_less a b =
    if is_zkevm a.kind || is_zkevm b.kind
    then (if not (text_eq a.suite b.suite)
        then text_lt a.suite b.suite
        else if not (text_eq a.label b.label)
        then text_lt a.label b.label
        else ltb a.block_num b.block_num)
    else ltb a.block_num b.block_num

-- sort.SliceStable on a slice of results: a comparison and the slice.
abbrev pub SliceStable : Type 0
SliceStable = (BlockResult → BlockResult → Bool) → List BlockResult → List BlockResult

unfoldable pub sort_results : SliceStable → List BlockResult → List BlockResult
unfolding row_less
sort_results slice_stable rs = slice_stable row_less rs

pub record StatelessOutput : Type 0 where
  pub payload_root : Text
  pub success : Bool
  pub chain_id : ℕ
  pub schema_id : ℕ
  pub decoded : Bool

abbrev pub no_output : StatelessOutput
no_output = record {
  payload_root = [];
  success = false;
  chain_id = 0;
  schema_id = 0;
  decoded = false;
}

-- b[from:to]
abbrev pub slice : ℕ → ℕ → Bytes → Bytes
slice from to b = take (to - from) (drop from b)

abbrev pub output_of : Bytes → StatelessOutput
output_of b = record {
  payload_root = encode_to_string (slice 0 32 b);
  success = get_or b 32 0 == 1;
  chain_id = le_value (slice 33 41 b);
  schema_id = le_value (slice 41 43 b);
  decoded = true;
}

abbrev pub decoded_output : Bytes → Bool → StatelessOutput
decoded_output b fine =
    if not fine || ltb (length b) stateless_output_size then no_output else output_of b

unfoldable pub decode_stateless_output : Text → StatelessOutput
unfolding decode_string encode_to_string
decode_stateless_output output_hex =
    let (b, fine) = decode_string output_hex in decoded_output b fine

unfoldable pub suite_chart_height : ℕ → ℕ
suite_chart_height suites = let h = suites * 30 + 90 in if ltb h 320 then 320 else h

unfoldable pub bool_cell : Bool → Text
bool_cell b = if b then codes "1" else codes "0"

unfoldable pub csv_header : List Text
csv_header =
    codes "block_num"
    ∷ codes "tx_count"
    ∷ codes "gas_used"
    ∷ codes "legacy"
    ∷ codes "eip1559"
    ∷ codes "eip2930"
    ∷ codes "eip4844"
    ∷ codes "eip7702"
    ∷ codes "base"
    ∷ codes "main"
    ∷ codes "opcodes"
    ∷ codes "precompiles"
    ∷ codes "memory"
    ∷ codes "total"
    ∷ codes "elapsed_ms"
    ∷ codes "steps"
    ∷ codes "suite"
    ∷ codes "label"
    ∷ codes "payload_root"
    ∷ codes "success"
    ∷ []

abbrev pub u : ℕ → Text
u v = format_uint v 10

unfoldable pub csv_row : BlockResult → List Text
unfolding format_uint decode_stateless_output bool_cell
csv_row r =
    let out = decode_stateless_output r.output_hex in
    u r.block_num
    ∷ u r.info.tx_count
    ∷ u r.info.gas_used
    ∷ u r.info.legacy_txs
    ∷ u r.info.eip1559_txs
    ∷ u r.info.eip2930_txs
    ∷ u r.info.eip4844_txs
    ∷ u r.info.eip7702_txs
    ∷ u r.costs.base
    ∷ u r.costs.main
    ∷ u r.costs.opcodes
    ∷ u r.costs.precompiles
    ∷ u r.costs.memory
    ∷ u r.costs.total
    ∷ u r.elapsed_ms
    ∷ u r.costs.steps
    ∷ r.suite
    ∷ r.label
    ∷ out.payload_root
    ∷ bool_cell out.success
    ∷ []

-- The records that writeCSV hands to the csv.Writer.
unfoldable pub csv_records : List BlockResult → List (List Text)
unfolding csv_header csv_row
csv_records results = csv_header ∷ map csv_row results

pub record CostStats : Type 0 where
  pub min_cost : ℕ
  pub p50 : ℕ
  pub max_cost : ℕ
  pub avg : ℕ

unfoldable pub sum : List ℕ → ℕ
sum [] = 0
sum (v ∷ vs) = v + sum vs

-- On the sorted copy; the sum is a uint64.
abbrev pub stats_of : List ℕ → CostStats
stats_of sorted = record {
  min_cost = get_or sorted 0 0;
  p50 = get_or sorted (length sorted / 2) 0;
  max_cost = get_or sorted (length sorted - 1) 0;
  avg = sum sorted % 2 ^ 64 / length sorted;
}

unfoldable pub compute_stats : List ℕ → CostStats
unfolding sort sum
compute_stats [] = record { min_cost = 0; p50 = 0; max_cost = 0; avg = 0 }
compute_stats (v ∷ vals) = stats_of (sort ltb (v ∷ vals))

-- The units that used gas, and those that used none.
unfoldable pub partition_by_gas : List BlockResult → List BlockResult × List BlockResult
partition_by_gas [] = ([], [])
partition_by_gas (r ∷ good) =
    let (worked, empty) = partition_by_gas good in
    if r.info.gas_used == 0 then (worked, r ∷ empty) else (r ∷ worked, empty)
