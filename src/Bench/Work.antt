-- ===== src/Bench/Work.antt =====
-- bench/units.go and bench/run.go: how a fixture file becomes units, and how the units are run. The
-- emulator, the clock and the order in which the workers finish are arguments.
use stateless_executor.Prelude.{
  ℕ, ◌+◌, ◌-◌, ◌^◌, Bool, true, false, ◌&&◌, List, [], ◌∷◌, ◌++◌, Option, none, some, if◌then◌else◌,
  leb, ltb, length, foldl, drop,
}
use stateless_executor.Prelude.Errors.{Error, Result, ok, err, panic, wrap, message, ◌>>=◌}
use stateless_executor.Prelude.Text.{Text, codes, has_prefix}
use stateless_executor.Prelude.Parse.{decimal_digit, digits_value}
use stateless_executor.Prelude.Endian.{Bytes}
use stateless_executor.Fixture.Types.{FixtureFile, FixtureTx}
use stateless_executor.Fixture.Geth.{Geth, Json}
use stateless_executor.Fixture.Format.{Format}
use stateless_executor.Fixture.Fork.{config_field}
use stateless_executor.Fixture.Load.{Disk, load_file, load_zkevm_file}
use stateless_executor.Fixture.Payload.{zesu_input_ssz}
use stateless_executor.Fixture.Zkevm.{
  ZkevmBlock, ZkevmTestCase, number, zesu_input_from_zkevm_block,
}
use stateless_executor.Emu
use stateless_executor.Emu.{CostReport, no_costs, empty_result}
use stateless_executor.Bench.{
  BlockInfo, Encoded, Verdict, eest_block_info, normalise_hex, expected_success_from_output,
  verify_corpus, verify_eest,
}
use stateless_executor.Pipeline.Engine.{format_uint}

pub record FileJob : Type 0 where
  pub path : Text
  pub kind : Format
  pub suite : Text
  pub bytes : ℕ

pub record UnitMeta : Type 0 where
  pub label : Text
  pub block_num : ℕ
  pub suite : Text
  pub network : Text
  pub kind : Format
  pub info : BlockInfo

-- `encoded`, with the part that the verdict reads.
pub record EncodedUnit : Type 0 where
  pub input : Bytes
  pub info : BlockInfo
  pub expected : Encoded

-- The struct and the error that an Encode closure returns side by side.
abbrev pub Encoding : Type 0
Encoding = EncodedUnit × Option Error

-- A unit, by what its two closures do: Encode may panic, since it encodes a fixture.
pub record WorkUnit : Type 0 where
  pub meta : UnitMeta
  pub encode : Result Encoding
  pub verify : Encoded → Emu.Result → Option Error → Verdict

abbrev pub no_info : BlockInfo
no_info = record {
  tx_count = 0;
  gas_used = 0;
  legacy_txs = 0;
  eip1559_txs = 0;
  eip2930_txs = 0;
  eip4844_txs = 0;
  eip7702_txs = 0;
}

abbrev pub nothing_encoded : EncodedUnit
nothing_encoded = record {
  input = [];
  info = no_info;
  expected = record { expected_success = false; expected_output_hex = [] };
}

-- m[key] != nil
abbrev pub is_set : Option Bytes → Bool
is_set none = false
is_set (some raw) = true

abbrev pub has_key : List (Text × Bytes) → Text → Bool
has_key m key = is_set (config_field key m)

unfoldable pub count_fixture_tx : BlockInfo → FixtureTx → BlockInfo
unfolding config_field
count_fixture_tx bi tx =
    if has_key tx.transaction (codes "Eip1559")
    then record bi { eip1559_txs = bi.eip1559_txs + 1 }
    else if has_key tx.transaction (codes "Eip4844")
    then record bi { eip4844_txs = bi.eip4844_txs + 1 }
    else if has_key tx.transaction (codes "Eip2930")
    then record bi { eip2930_txs = bi.eip2930_txs + 1 }
    else if has_key tx.transaction (codes "Eip7702")
    then record bi { eip7702_txs = bi.eip7702_txs + 1 }
    else record bi { legacy_txs = bi.legacy_txs + 1 }

unfoldable pub extract_block_info : FixtureFile → BlockInfo
unfolding count_fixture_tx
extract_block_info f =
    let txs = f.stateless_input.block.body.transactions in
    record (foldl count_fixture_tx (record no_info { tx_count = length txs }) txs) {
      gas_used = f.stateless_input.block.header.gas_used;
    }

-- The digits at the front of a text.
unfoldable pub leading_digits : Text → Text
leading_digits [] = []
leading_digits (c ∷ s) =
    let rest = leading_digits s in if leb b'0' c && leb c b'9' then c ∷ rest else []

-- block_(\d+): the digits behind the first "block_" that has some.
unfoldable pub find_block_num : Text → Text
unfolding leading_digits
find_block_num [] = []
find_block_num (c ∷ s) =
    let rest = find_block_num s in
    if has_prefix (c ∷ s) (codes "block_")
    then elim (leading_digits (drop 6 (c ∷ s))) [ [] ↦ rest | (e ∷ ds) ↦ e ∷ ds ]
    else rest

-- strconv.ParseUint with its error dropped: it returns the largest uint64 on overflow.
abbrev pub parsed_or_max : Option ℕ → ℕ
parsed_or_max none = 0
parsed_or_max (some n) = if ltb n (2 ^ 64) then n else 2 ^ 64 - 1

unfoldable pub extract_block_num : Text → ℕ
unfolding find_block_num digits_value
extract_block_num name = elim (find_block_num name) [
  | [] ↦ 0
  | (c ∷ s) ↦ parsed_or_max (digits_value decimal_digit 10 0 (c ∷ s))
]

-- Label of block bi of a test case: the name alone where there is only one block.
unfoldable pub block_label : ZkevmTestCase → ℕ → Text
unfolding format_uint
block_label tc bi =
    if ltb 1 (length tc.blocks) then tc.name ++ (codes "/block" ++ format_uint bi 10) else tc.name

-- The Encode closure of expandEEST: the second return of the encoder is discarded.
unfoldable pub encode_eest : ZkevmTestCase → ZkevmBlock → Result Encoding
unfolding zesu_input_from_zkevm_block eest_block_info normalise_hex expected_success_from_output
encode_eest tc block =
    let expected_hex = normalise_hex block.stateless_output_bytes in
    let enc : Bytes → EncodedUnit = λ input. record {
      input = input;
      info = eest_block_info block;
      expected = record {
        expected_success = expected_success_from_output expected_hex;
        expected_output_hex = expected_hex;
      };
    } in
    elim (zesu_input_from_zkevm_block tc block).0 [
      | ok input ↦ ok (enc input, none)
      | err e ↦ ok (enc [], some e)
      | panic ↦ panic
    ]

abbrev pub eest_unit : FileJob → ZkevmTestCase → ℕ → ZkevmBlock → WorkUnit
eest_unit j tc bi block = record {
  meta = record {
    label = block_label tc bi;
    block_num = number block;
    suite = j.suite;
    network = tc.network;
    kind = j.kind;
    info = eest_block_info block;
  };
  encode = encode_eest tc block;
  verify = verify_eest;
}

unfoldable pub block_units : FileJob → ZkevmTestCase → ℕ → List ZkevmBlock → List WorkUnit
unfolding block_label number eest_block_info encode_eest verify_eest
block_units j tc bi [] = []
block_units j tc bi (block ∷ blocks) = eest_unit j tc bi block ∷ block_units j tc (bi + 1) blocks

unfoldable pub case_units : FileJob → List ZkevmTestCase → List WorkUnit
unfolding block_units
case_units j [] = []
case_units j (tc ∷ tcs) = block_units j tc 0 tc.blocks ++ case_units j tcs

module _ (g : Geth) (js : Json) (d : Disk) (file_stem : Text → Text) where
  unfoldable pub expand_eest : FileJob → Result (List WorkUnit)
  unfolding load_zkevm_file case_units
  expand_eest j = do tcs ← load_zkevm_file d j.path; ok (case_units j tcs)

  -- What is encoded of a corpus file that was loaded.
  abbrev pub encode_loaded : FixtureFile → Result Encoding
  encode_loaded f =
      let enc : Bytes → EncodedUnit = λ input. record {
        input = input;
        info = extract_block_info f;
        expected = record { expected_success = f.success; expected_output_hex = [] };
      } in
      elim (zesu_input_ssz g js f) [
        | ok input ↦ ok (enc input, none)
        | err e ↦ ok (enc [], some (wrap "encode" e))
        | panic ↦ panic
      ]

  unfoldable pub encode_corpus : Text → Result Encoding
  unfolding load_file extract_block_info zesu_input_ssz
  encode_corpus path = elim (load_file d path) [
    | ok f ↦ encode_loaded f
    | err e ↦ ok (nothing_encoded, some (wrap "load" e))
    | panic ↦ panic
  ]

  -- `file_stem` is the base name of a path without ".json".
  unfoldable pub expand_corpus : FileJob → List WorkUnit
  unfolding encode_corpus extract_block_num verify_corpus
  expand_corpus j =
      record {
        meta = record {
          label = file_stem j.path;
          block_num = extract_block_num (file_stem j.path);
          suite = j.suite;
          network = [];
          kind = j.kind;
          info = no_info;
        };
        encode = encode_corpus j.path;
        verify = verify_corpus;
      }
      ∷ []

  unfoldable pub expand : FileJob → Result (List WorkUnit)
  unfolding expand_corpus expand_eest
  expand j = elim j.kind [
    | Format.corpus ↦ ok (expand_corpus j)
    | Format.zkevm ↦ expand_eest j
    | Format.unknown ↦ err (message "unsupported fixture format" j.path)
  ]
