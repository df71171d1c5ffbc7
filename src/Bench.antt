-- ===== src/Bench.antt =====
-- The rules of bench/units.go that judge a run, and the counts that it reports of a block.
pub mod Passing
pub mod Counts
pub mod Work
pub mod Run
pub mod Rows
pub mod Report
pub mod Discover
use stateless_executor.Prelude.{
  ℕ, ◌+◌, Bool, true, false, not, ◌&&◌, ◌||◌, List, [], ◌∷◌, ◌++◌, Option, none, some, length, take,
  drop, ltb, leb, ◌==◌, if◌then◌else◌,
}
use stateless_executor.Prelude.Errors.{
  Error, missing_stateless_input_bytes, message, wrap, wrap_at, external,
}
use stateless_executor.Prelude.Text.{
  Text, codes, text_eq, has_prefix, trim_prefix, trim_space, split_byte,
}
use stateless_executor.Prelude.Endian.{Bytes}
use stateless_executor.Fixture.Hex.{hex_prefix}
use stateless_executor.Fixture.Zkevm.{ZkevmTx, ZkevmBlock, gas_used}
use stateless_executor.Emu
use stateless_executor.Emu.{empty_result}

-- strings.ToLower on ASCII text.
abbrev pub lower : ℕ → ℕ
lower c = if leb b'A' c && leb c b'Z' then c + 32 else c

unfoldable pub to_lower : Text → Text
to_lower [] = []
to_lower (c ∷ s) = lower c ∷ to_lower s

unfoldable pub normalise_hex : Text → Text
unfolding to_lower
normalise_hex s = to_lower (trim_prefix s hex_prefix)

pub record BlockInfo : Type 0 where
  pub tx_count : ℕ
  pub gas_used : ℕ
  pub legacy_txs : ℕ
  pub eip1559_txs : ℕ
  pub eip2930_txs : ℕ
  pub eip4844_txs : ℕ
  pub eip7702_txs : ℕ

-- One round of the switch over the transactions.
unfoldable pub count_tx : BlockInfo → ZkevmTx → BlockInfo
unfolding normalise_hex
count_tx info tx =
    let t = normalise_hex tx.tx_type in
    if text_eq t (codes "01")
    then record info { eip2930_txs = info.eip2930_txs + 1 }
    else if text_eq t (codes "02")
    then record info { eip1559_txs = info.eip1559_txs + 1 }
    else if text_eq t (codes "03")
    then record info { eip4844_txs = info.eip4844_txs + 1 }
    else if text_eq t (codes "04")
    then record info { eip7702_txs = info.eip7702_txs + 1 }
    else record info { legacy_txs = info.legacy_txs + 1 }

unfoldable pub count_txs : BlockInfo → List ZkevmTx → BlockInfo
unfolding count_tx
count_txs info [] = info
count_txs info (tx ∷ txs) = count_txs (count_tx info tx) txs

unfoldable pub eest_block_info : ZkevmBlock → BlockInfo
unfolding count_txs
eest_block_info b =
    count_txs
      (record {
        tx_count = length b.transactions;
        gas_used = gas_used b;
        legacy_txs = 0;
        eip1559_txs = 0;
        eip2930_txs = 0;
        eip4844_txs = 0;
        eip7702_txs = 0;
      })
      b.transactions

unfoldable pub expected_success_from_output : Text → Bool
expected_success_from_output s =
    ltb (length s) 66 || not (text_eq (take 2 (drop 64 s)) (codes "00"))

-- The lines before the cost table, without those that are empty.
unfoldable pub panic_lines : List Text → List Text
panic_lines [] = []
panic_lines (l ∷ ls) =
    let line = trim_space l in
    let rest = panic_lines ls in
    if has_prefix line (codes "COST")
      || has_prefix line (codes "REPORT")
      || has_prefix line (codes "---")
    then []
    else if text_eq line []
    then rest
    else line ∷ rest

-- strings.Join(msgs, "; ")
unfoldable pub join : List Text → Text
join [] = []
join (m ∷ []) = m
join (m ∷ n ∷ ms) = m ++ (codes "; " ++ join (n ∷ ms))

unfoldable pub guest_panic_msg : Text → Text
unfolding panic_lines join
guest_panic_msg raw_out = join (panic_lines (split_byte 10 raw_out))

pub data VerdictKind : Type 0 where
  pass fail skip unverified error : VerdictKind

-- Reason, by where its text comes from.
pub data Reason : Type 0 where
  no_reason no_input no_expected_output : Reason
  run_error : Error → Reason
  -- With the guest's panic message, if there is one.
  output_mismatch : Text → Reason
  expected_success : Bool → Reason

pub record Encoded : Type 0 where
  pub expected_success : Bool
  pub expected_output_hex : Text

pub record Verdict : Type 0 where
  pub kind : VerdictKind
  pub reason : Reason
  pub expected_success : Bool
  pub got_success : Bool
  pub expected_output_hex : Text
  pub got_output_hex : Text
  pub output_match : Bool

-- errors.Is(err, ErrMissingStatelessInputBytes)
abbrev pub is_missing : Error → Bool
is_missing missing_stateless_input_bytes = true
is_missing (message s ns) = false
is_missing (wrap s e) = is_missing e
is_missing (wrap_at s i e) = is_missing e
is_missing (external n) = false

-- The verdict before any field is decided.
abbrev pub undecided : Encoded → Emu.Result → Verdict
undecided enc r = record {
  kind = VerdictKind.pass;
  reason = Reason.no_reason;
  expected_success = enc.expected_success;
  got_success = false;
  expected_output_hex = enc.expected_output_hex;
  got_output_hex = r.output_hex;
  output_match = false;
}

-- The output cut to the length of what is expected.
abbrev pub trimmed : Text → Text → Text
trimmed expected got =
    if ltb 0 (length expected) && ltb (length expected) (length got)
    then take (length expected) got
    else got

unfoldable pub judged : Encoded → Emu.Result → Verdict
unfolding normalise_hex expected_success_from_output guest_panic_msg
judged enc r =
    let got = trimmed enc.expected_output_hex (normalise_hex r.output_hex) in
    let v = record (undecided enc r) { got_success = expected_success_from_output got } in
    if text_eq enc.expected_output_hex []
    then record v { kind = VerdictKind.unverified; reason = Reason.no_expected_output }
    else if text_eq got enc.expected_output_hex
    then record v { output_match = true }
    else record v {
      kind = VerdictKind.fail;
      reason = Reason.output_mismatch (guest_panic_msg r.raw_out);
    }

unfoldable pub verify_eest : Encoded → Emu.Result → Option Error → Verdict
unfolding judged
verify_eest enc r none = judged enc r
verify_eest enc r (some e) =
    if is_missing e
    then record (undecided enc r) { kind = VerdictKind.skip; reason = Reason.no_input }
    else record (undecided enc r) { kind = VerdictKind.error; reason = Reason.run_error e }

-- Equality of Booleans, for gotSuccess != enc.ExpectedSuccess.
abbrev pub same : Bool → Bool → Bool
same true b = b
same false b = not b

unfoldable pub verify_corpus : Encoded → Emu.Result → Option Error → Verdict
verify_corpus enc r (some e) = record (undecided enc r) {
  expected_output_hex = [];
  kind = VerdictKind.error;
  reason = Reason.run_error e;
}
verify_corpus enc r none =
    let got = text_eq r.exec_err [] in
    let v = record (undecided enc r) { expected_output_hex = []; got_success = got } in
    if same got enc.expected_success
    then v
    else record v { kind = VerdictKind.fail; reason = Reason.expected_success enc.expected_success }
